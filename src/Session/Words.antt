-- ===== src/Session/Words.antt =====
-- session.py, Session._alloc_cw_handle: its writes to the guest's memory.
use cwhost.Base.{
  ℕ, ◌+◌, ◌%◌, ◌≡◌, ◌<◌, ◌≤◌, ◌⊎◌, ◌∙◌, ltb, Bool-cases, inl, inr, some, [], ◌∷◌, length, refl, ap,
  arith,
}
use cwhost.Base.Result.{Result, ok}
use cwhost.Base.Bytes.{Bytes, be32}
use cwhost.Guest.{Emulator, AllMapped, patched}
use cwhost.Guest.Memory.{
  read, u32, read_lem, write_lem, w32_lem, u32_lem, patched_outside, bytes_from_ext,
  bytes_from-patched,
}
use cwhost.Session.{SessionError, Session, set_memory, store_data, store_u32}

module _ (u : Emulator) where
  open u use {State, mapped, byte}

  -- a write of a session that succeeds, with what it does to the memory
  pub record Wrote (m : State) (a : ℕ) (bytes : Bytes) (s : Session u)
      (out : Result SessionError (Unit {0}) × Session u) : Type 0 where
    pub after : State
    pub ends : out ≡ (ok tt, set_memory u after s)
    pub same : (x : ℕ) → mapped after x ≡ mapped m x
    pub holds : (x : ℕ) → byte after x ≡ patched a bytes (byte m) x

  pub data_stored :
      (bytes : Bytes) (b : ℕ) (s : Session u)
      → b < 0x1_0000_0000
      → AllMapped (mapped s.manager.machine.memory) b (length bytes)
      → Wrote s.manager.machine.memory b bytes s (store_data u bytes b s)
  data_stored [] b s less all = record {
    after = s.manager.machine.memory;
    ends = refl;
    same = λ x. refl;
    holds = λ x. refl;
  }
  data_stored (c ∷ bytes) b s less all =
      let w =
        write_lem u s.manager.machine.memory b (length (c ∷ bytes)) (c ∷ bytes) less refl all in
      record { after = w.0; ends = rw w.1 refl; same = w.2; holds = w.3 }

  pub word_stored :
      (a n : ℕ) (s : Session u)
      → a < 0x1_0000_0000
      → AllMapped (mapped s.manager.machine.memory) a 4
      → Wrote s.manager.machine.memory a (be32 (n % 0x1_0000_0000)) s (store_u32 u a n s)
  word_stored a n s less all =
      let w = w32_lem u s.manager.machine.memory a n less all in
      record { after = w.0; ends = rw w.1 refl; same = w.2; holds = w.3 }

  -- The record of a handle and its bytes, in memory: two words at `a`, the bytes at `b`.
  pub record Shows (m : State) (a b : ℕ) (bytes : Bytes) : Type 0 where
    pub pointer : u32 u m a ≡ some b
    pub size : u32 u m (a + 4) ≡ some (length bytes)
    pub content : read u m b (length bytes) ≡ some bytes

  -- writing the bytes and then the two words gives them, where the two places are apart
  pub three_Shows :
      (m₀ m₁ m₂ m₃ : State) (a b : ℕ) (bytes : Bytes)
      → a + 8 ≤ 0x1_0000_0000
      → b < 0x1_0000_0000
      → length bytes < 0x1_0000_0000
      → AllMapped (mapped m₃) a 8
      → AllMapped (mapped m₃) b (length bytes)
      → ((x : ℕ) → a ≤ x → x < a + 8 → b ≤ x → x < b + length bytes → ⊥)
      → ((x : ℕ) → byte m₁ x ≡ patched b bytes (byte m₀) x)
      → ((x : ℕ) → byte m₂ x ≡ patched a (be32 (b % 0x1_0000_0000)) (byte m₁) x)
      → ((x : ℕ) → byte m₃ x ≡ patched (a + 4) (be32 (length bytes % 0x1_0000_0000)) (byte m₂) x)
      → Shows m₃ a b bytes
  three_Shows m₀ m₁ m₂ m₃ a b bytes near_a near_b near_n all_a all_b apart first second third =
      record {
        pointer =
            u32_lem u m₃ a b (byte m₁) (omega arith) near_b (λ x l r. all_a x l (omega arith))
              (λ x l r.
                third x
                ∙ patched_outside (a + 4) (be32 (length bytes % 0x1_0000_0000)) (byte m₂) x
                    (inl (omega arith))
                ∙ second x);
        size =
            u32_lem u m₃ (a + 4) (length bytes) (byte m₂) (omega arith) near_n
              (λ x l r. all_a x (omega arith) (omega arith)) (λ x l r. third x);
        content =
            read_lem u m₃ b (length bytes) near_b all_b
            ∙ ap some (
                bytes_from_ext (byte m₃) (patched b bytes (byte m₀)) b (length bytes)
                  (λ x l r. outside x l r)
                ∙ bytes_from-patched b bytes (byte m₀));
      }
    where
      beyond : (x : ℕ) → b ≤ x → x < b + length bytes → (x < a) ⊎ (a + 8 ≤ x)
      beyond x l r = elim (Bool-cases (ltb x a)) [
        | inl low ↦ inl (ground arith)
        | inr high ↦ elim (Bool-cases (ltb x (a + 8))) [
          | inl hit ↦ absurd (apart x (ground arith) (ground arith) l r)
          | inr above ↦ inr (ground arith)
        ]
      ]

      outside : (x : ℕ) → b ≤ x → x < b + length bytes → byte m₃ x ≡ patched b bytes (byte m₀) x
      outside x l r =
          let away = beyond x l r in
          let past : (x < a + 4) ⊎ (a + 4 + 4 ≤ x) = elim away [
            | inl low ↦ inl (omega arith)
            | inr high ↦ inr (omega arith)
          ] in
          let past1 : (x < a) ⊎ (a + 4 ≤ x) = elim away [
            | inl low ↦ inl (omega arith)
            | inr high ↦ inr (omega arith)
          ] in
          third x
          ∙ patched_outside (a + 4) (be32 (length bytes % 0x1_0000_0000)) (byte m₂) x past
          ∙ second x
          ∙ patched_outside a (be32 (b % 0x1_0000_0000)) (byte m₁) x past1
          ∙ first x
