-- ===== src/Pef/Reloc/Safe.antt =====
-- The interpreter ends, and never reads outside of its stream or of the section.
use cwhost.Base.{
  get_elem?-some, ℕ, zero, suc, ◌+◌, ◌*◌, ◌/◌, ◌%◌, ◌≤◌, ◌<◌, ◌≡◌, refl, Option, none, some, List,
  [], ◌∷◌, length, get_elem?, ltb, ◌==◌, arith, Bool-cases, inl, inr, ap,
}
use cwhost.Base.Int.{ℤ}
use cwhost.Base.Result.{Result, ok, err}
use cwhost.Base.Action.{after, lift, ◌>>=◌, ◌>>◌}
use cwhost.Base.Bytes.{Bytes}
use cwhost.Pef.Reloc.{
  State, Run, Kind, Token, RelocError, split_repeat, no_block, unknown_opcode, truncated, skip,
  by_c, by_d, tv12, tv8, vtable8, import_run, sm_import, sm_c, sm_d, sm_section, incr, sm_repeat,
  lg_repeat, set_position, lg_import, lg_section, add_word, times, add_d, c_step, d_step, tv8_step,
  tv12_step, vtable8_step, add_import, import_step, long_section, perform, replay, replay_all,
  word_at, delta, repeat_block, execute, interpret, fetch, decode, select, apply_relocations,
  stream_words, set_import, advance, set_c, set_d,
}
use cwhost.Pef.Reloc.Steps.{
  IsFine, IsSafe, IsSafe-bind, IsSafe-seq, IsSafe-times, IsSafe-add_word, IsSafe-advance,
  IsSafe-add_d, IsSafe-c_step, IsSafe-d_step, IsSafe-tv8_step, arity, Decoded, decode-Decoded,
  IsSafe-lookup,
}

module _ (words : List ℕ) (deltas imports : List ℤ) where
  IsSafe-word :
      {A : Type 0} (i : ℕ) (f : ℕ → Run A)
      → i < length words
      → ((w : ℕ) → IsSafe (f w))
      → IsSafe (word_at words deltas imports i >>= f)
  IsSafe-word i f h k = let x = get_elem?-some words i h in rw x.1 (k x.0)

  IsSafe-add_import : (i : ℕ) → IsSafe (add_import words deltas imports i)
  IsSafe-add_import i =
      IsSafe-lookup (get_elem? imports i) _
        (λ v. add_word v >>= λ _. set_import (i + 1) >>= λ _. advance 4) tt
        (λ v.
          IsSafe-bind (add_word v) (λ _. set_import (i + 1) >>= λ _. advance 4) (IsSafe-add_word v)
            (λ _ s. tt))

  IsSafe-add_section :
      (i : ℕ) → IsSafe (delta words deltas imports i >>= λ v. add_word v >>= λ _. advance 4)
  IsSafe-add_section i =
      IsSafe-lookup (get_elem? deltas i) _ (λ v. add_word v >> advance 4) tt
        (λ v. IsSafe-seq (add_word v) (advance 4) (IsSafe-add_word v) (IsSafe-advance 4))

  IsSafe-long_section : (op i : ℕ) → IsSafe (long_section words deltas imports op i)
  IsSafe-long_section zero i = IsSafe-add_section i
  IsSafe-long_section (suc zero) i = IsSafe-lookup (get_elem? deltas i) _ set_c tt (λ v s. tt)
  IsSafe-long_section (suc (suc zero)) i = IsSafe-lookup (get_elem? deltas i) _ set_d tt (λ v s. tt)
  IsSafe-long_section (suc (suc (suc n))) i = λ s. tt

  IsSafe-perform :
      (k : Kind) (word offset : ℕ)
      → offset + arity k ≤ length words
      → IsSafe (perform words deltas imports k word offset)
  unfolding perform
  IsSafe-perform skip word offset h =
      IsSafe-seq (advance (4 * (word / 64 % 256))) (times (word % 64) d_step)
        (IsSafe-advance (4 * (word / 64 % 256))) (IsSafe-times (word % 64) d_step IsSafe-d_step)
  IsSafe-perform by_c word offset h = IsSafe-times (word % 512 + 1) c_step IsSafe-c_step
  IsSafe-perform by_d word offset h = IsSafe-times (word % 512 + 1) d_step IsSafe-d_step
  IsSafe-perform tv12 word offset h =
      IsSafe-times (word % 512 + 1) tv12_step
        (IsSafe-seq tv8_step (advance 4) IsSafe-tv8_step (IsSafe-advance 4))
  IsSafe-perform tv8 word offset h = IsSafe-times (word % 512 + 1) tv8_step IsSafe-tv8_step
  IsSafe-perform vtable8 word offset h =
      IsSafe-times (word % 512 + 1) vtable8_step
        (IsSafe-seq add_d (advance 8) IsSafe-add_d (IsSafe-advance 8))
  IsSafe-perform import_run word offset h =
      IsSafe-times (word % 512 + 1) (import_step words deltas imports)
        (λ s. IsSafe-add_import s.next_import s)
  IsSafe-perform sm_import word offset h = IsSafe-add_import (word % 512)
  IsSafe-perform sm_c word offset h =
      IsSafe-lookup (get_elem? deltas (word % 512)) _ set_c tt (λ v s. tt)
  IsSafe-perform sm_d word offset h =
      IsSafe-lookup (get_elem? deltas (word % 512)) _ set_d tt (λ v s. tt)
  IsSafe-perform sm_section word offset h = IsSafe-add_section (word % 512)
  IsSafe-perform incr word offset h = IsSafe-advance (word % 4096 + 1)
  IsSafe-perform sm_repeat word offset h = λ s. tt
  IsSafe-perform lg_repeat word offset h = λ s. tt
  IsSafe-perform set_position word offset h = IsSafe-word (offset + 1) _ (omega arith) (λ low s. tt)
  IsSafe-perform lg_import word offset h =
      IsSafe-word (offset + 1) _ (omega arith)
        (λ low. IsSafe-add_import (word % 1024 * 65536 + low))
  IsSafe-perform lg_section word offset h =
      IsSafe-word (offset + 1) _ (omega arith)
        (λ low. IsSafe-long_section (word / 64 % 16) (word % 64 * 65536 + low))

  -- a token that lies inside of the stream
  abbrev IsToken : Token → Type 0
  IsToken t = (t.length ≡ arity t.kind) × (t.offset + t.length ≤ length words)

  abbrev AllTokens : List Token → Type 0
  AllTokens [] = Unit {0}
  AllTokens (t ∷ ts) = IsToken t × AllTokens ts

  arity-pos : (k : Kind) → 0 < arity k
  arity-pos lg_repeat = omega arith
  arity-pos _ = omega arith

  IsSafe-replay_all : (ts : List Token) → AllTokens ts → IsSafe (replay_all words deltas imports ts)
  IsSafe-replay_all [] h = λ s. tt
  IsSafe-replay_all (t ∷ ts) h =
      IsSafe-seq (replay words deltas imports t) (replay_all words deltas imports ts)
        (IsSafe-word t.offset _ (omega (arith, arity-pos t.kind))
          (λ w. IsSafe-perform t.kind w t.offset (omega arith)))
        (IsSafe-replay_all ts h.1)

  -- What a repeat selects are tokens of the history.
  abbrev Selected : Result RelocError (List Token) → Type 0
  Selected (ok ts) = AllTokens ts
  Selected (err split_repeat) = Unit {0}
  Selected (err no_block) = Unit {0}
  Selected (err _) = ⊥

  select-Selected :
      (n total : ℕ) (sel history : List Token)
      → AllTokens sel
      → AllTokens history
      → Selected (select n total sel history)
  unfolding select
  select-Selected n total sel [] h h' = elim (Bool-cases (total == n)) [
    | inl e ↦ rw e h
    | inr e ↦ rw e tt
  ]
  select-Selected n total sel (t ∷ ts) h h' = elim (Bool-cases (total + t.length == n)) [
    | inl e ↦ rw e (h'.0, h)
    | inr e ↦ elim (Bool-cases (ltb n (total + t.length))) [
      | inl f ↦ rw (e, f) tt
      | inr f ↦ rw (e, f) (select-Selected n (total + t.length) (t ∷ sel) ts (h'.0, h) h'.1)
    ]
  ]

  IsSafe-Selected :
      (count : ℕ) (r : Result RelocError (List Token))
      → Selected r
      → IsSafe (lift r >>= λ ts. times count (replay_all words deltas imports ts))
  IsSafe-Selected count (ok ts) h =
      IsSafe-times count (replay_all words deltas imports ts) (IsSafe-replay_all ts h)
  IsSafe-Selected count (err split_repeat) h = λ s. tt
  IsSafe-Selected count (err no_block) h = λ s. tt
  IsSafe-Selected count (err _) h = elim h [ ]

  IsSafe-repeat :
      (n count : ℕ) (history : List Token)
      → AllTokens history
      → IsSafe (repeat_block words deltas imports n count history)
  IsSafe-repeat n count history h =
      IsSafe-Selected count (select n 0 [] history) (select-Selected n 0 [] history tt h)

  IsSafe-execute :
      (history : List Token) (t : Token) (k : Kind) (word : ℕ)
      → AllTokens history
      → k ≡ t.kind
      → IsToken t
      → IsSafe (execute words deltas imports history t k word)
  unfolding execute
  IsSafe-execute history t sm_repeat word h e i = IsSafe-repeat _ _ history h
  IsSafe-execute history t lg_repeat word h e i = elim (Bool-cases (t.length == 2)) [
    | inl two ↦
        rw two (IsSafe-word (t.offset + 1) _ (ground arith) (λ low. IsSafe-repeat _ _ history h))
    | inr other ↦ rw other (λ s. tt)
  ]
  IsSafe-execute history t kind word h e i =
      IsSafe-perform kind word t.offset
        (let a : arity kind ≡ arity t.kind = ap arity e in omega arith)

  -- a token, or an error of the decoder's own
  abbrev Fetched : ℕ → Result RelocError Token → Type 0
  Fetched offset (ok t) = (t.offset ≡ offset) × IsToken t
  Fetched offset (err unknown_opcode) = Unit {0}
  Fetched offset (err truncated) = Unit {0}
  Fetched offset (err _) = ⊥

  fetch-Fetched :
      (offset : ℕ) (o : Option (Kind × ℕ)) (s : State)
      → Decoded o
      → Fetched offset (fetch words deltas imports offset o s).0
  fetch-Fetched offset none s d = tt
  fetch-Fetched offset (some (k, n)) s d = elim (Bool-cases (ltb (length words) (offset + n))) [
    | inl out ↦ rw out tt
    | inr inside ↦ rw inside (refl, (d, ground arith))
  ]

  safe-Fetched :
      {B : Type 0} (offset : ℕ) (r : Result RelocError Token × State) (f : Token → Run B)
      → Fetched offset r.0
      → ((t : Token) → t.offset ≡ offset → IsToken t → IsSafe (f t))
      → IsFine (after r f).0
  safe-Fetched offset (ok t, s) f h k = k t h.0 h.1 s
  safe-Fetched offset (err unknown_opcode, s) f h k = tt
  safe-Fetched offset (err truncated, s) f h k = tt
  safe-Fetched offset (err _, s) f h k = elim h [ ]

  IsSafe-interpret :
      (fuel offset : ℕ) (history : List Token)
      → offset ≤ length words
      → length words < fuel + offset
      → AllTokens history
      → IsSafe (interpret words deltas imports fuel offset history)
  unfolding interpret
  IsSafe-interpret zero offset history b l h = absurd (omega arith)
  IsSafe-interpret (suc fuel) offset history b l h = elim (Bool-cases (ltb offset (length words))) [
    | inr done ↦ rw done (λ s. tt)
    | inl more ↦ rw more (
        IsSafe-word offset _ (ground arith) (λ w s.
          safe-Fetched offset (fetch words deltas imports offset (decode w) s) _
            (fetch-Fetched offset (decode w) s (decode-Decoded w))
            (λ t e i.
              IsSafe-seq (execute words deltas imports history t t.kind w) _
                (IsSafe-execute history t t.kind w h refl i)
                (IsSafe-interpret fuel (offset + t.length) (t ∷ history) (omega arith)
                  (omega (arith, arity-pos t.kind)) (i, h)))))
  ]

-- On every input `apply_relocations` ends within its fuel, and it returns or raises a relocation
-- error of its own: neither IndexError nor struct.error comes out of it.
pub apply_relocations-IsFine :
    (section stream : Bytes) (deltas imports : List ℤ) (c d : ℤ)
    → IsFine (apply_relocations section stream deltas imports c d).0
unfolding apply_relocations
apply_relocations-IsFine section stream deltas imports c d =
    elim (Bool-cases (length stream % 2 == 0)) [
      | inr odd ↦ rw odd tt
      | inl even ↦ rw even (
          IsSafe-interpret (stream_words stream) deltas imports (length (stream_words stream) + 1) 0
            [] (omega arith) (omega arith) tt
            (record {
              position = 0;
              next_import = 0;
              current_c = c;
              current_d = d;
              section = section;
            }))
    ]
