-- ===== src/Pef/Reloc/Section.antt =====
-- What relocation does to the section image: an invariant rule for the whole interpreter.
use cwhost.Base.{
  ℕ, zero, suc, ◌+◌, ◌*◌, ◌/◌, ◌%◌, ◌≤◌, ◌≡◌, refl, Option, none, some, List, [], ◌∷◌, ◌++◌, length,
  length-append, length-take, length-drop, take, drop, ltb, ◌==◌, arith, Bool-cases, inl, inr, ◌∙◌,
}
use cwhost.Base.Int.{ℤ}
use cwhost.Base.Result.{Result, ok, err}
use cwhost.Base.Action.{after, ◌>>=◌, ◌>>◌}
use cwhost.Base.Bytes.{Bytes, be32, u32_at}
use cwhost.Pef.Reloc.{
  State, Run, Kind, Token, RelocError, skip, by_c, by_d, tv12, tv8, vtable8, import_run, sm_import,
  sm_c, sm_d, sm_section, incr, sm_repeat, lg_repeat, set_position, lg_import, lg_section, put_u32,
  add_value, add_word, store_sum, times, add_c, add_d, c_step, d_step, tv8_step, tv12_step,
  vtable8_step, add_import, import_step, long_section, perform, replay, replay_all, word_at, delta,
  imp, repeat_block, execute, interpret, fetch, decode, apply_relocations, stream_words, set_import,
  advance, set_c, set_d,
}

-- A property of the image that no write of a word inside of the image breaks.
module _ (P : Bytes → Type 0)
    (write : (i n : ℕ) (bs : Bytes) → i + 4 ≤ length bs → P bs → P (put_u32 i n bs)) where
  abbrev Keeps : {A : Type 0} → Run A → Type 0
  Keeps m = (s : State) → P s.section → P (m s).1.section

  keeps_after :
      {A B : Type 0} (r : Result RelocError A × State) (f : A → Run B)
      → P r.1.section
      → ((a : A) → Keeps (f a))
      → P (after r f).1.section
  keeps_after (ok a, s) f h k = k a s h
  keeps_after (err e, s) f h k = h

  Keeps-bind :
      {A B : Type 0} (m : Run A) (f : A → Run B)
      → Keeps m
      → ((a : A) → Keeps (f a))
      → Keeps (m >>= f)
  Keeps-bind m f h k s p = keeps_after (m s) f (h s p) k

  Keeps-times : (n : ℕ) (body : Run (Unit {0})) → Keeps body → Keeps (times n body)
  unfolding times
  Keeps-times zero body h = λ s p. p
  Keeps-times (suc n) body h = Keeps-bind body (λ _. times n body) h (λ _. Keeps-times n body h)

  keeps_store_sum :
      (v : ℤ) (o : Option ℕ) (s : State)
      → s.position + 4 ≤ length s.section
      → P s.section
      → P (store_sum v o s).1.section
  keeps_store_sum v none s h p = p
  keeps_store_sum v (some old) s h p = write s.position (add_value old v) s.section h p

  Keeps-add_word : (v : ℤ) → Keeps (add_word v)
  unfolding add_word
  Keeps-add_word v s p = elim (Bool-cases (ltb (length s.section) (s.position + 4))) [
    | inl out ↦ rw out p
    | inr inside ↦ rw inside (keeps_store_sum v (u32_at s.section s.position) s (ground arith) p)
  ]

  Keeps-seq : (m k : Run (Unit {0})) → Keeps m → Keeps k → Keeps (m >> k)
  Keeps-seq m k h h' = Keeps-bind m (λ _. k) h (λ _. h')

  Keeps-advance : (n : ℕ) → Keeps (advance n)
  Keeps-advance n s p = p

  Keeps-add_c : Keeps add_c
  Keeps-add_c s p = Keeps-add_word s.current_c s p

  Keeps-add_d : Keeps add_d
  Keeps-add_d s p = Keeps-add_word s.current_d s p

  Keeps-c_step : Keeps c_step
  Keeps-c_step = Keeps-seq add_c (advance 4) Keeps-add_c (Keeps-advance 4)

  Keeps-d_step : Keeps d_step
  Keeps-d_step = Keeps-seq add_d (advance 4) Keeps-add_d (Keeps-advance 4)

  Keeps-tv8_step : Keeps tv8_step
  Keeps-tv8_step = Keeps-seq c_step d_step Keeps-c_step Keeps-d_step

  module _ (words : List ℕ) (deltas imports : List ℤ) where
    Keeps-add_import : (i : ℕ) → Keeps (add_import words deltas imports i)
    Keeps-add_import i =
        Keeps-bind (imp words deltas imports i)
          (λ v. add_word v >>= λ _. set_import (i + 1) >>= λ _. advance 4) (λ s p. p)
          (λ v.
            Keeps-bind (add_word v) (λ _. set_import (i + 1) >>= λ _. advance 4) (Keeps-add_word v)
              (λ _ s p. p))

    Keeps-delta :
        {A : Type 0} (i : ℕ) (f : ℤ → Run A)
        → ((v : ℤ) → Keeps (f v))
        → Keeps (delta words deltas imports i >>= f)
    Keeps-delta i f h = Keeps-bind (delta words deltas imports i) f (λ s p. p) h

    Keeps-word :
        {A : Type 0} (i : ℕ) (f : ℕ → Run A)
        → ((v : ℕ) → Keeps (f v))
        → Keeps (word_at words deltas imports i >>= f)
    Keeps-word i f h = Keeps-bind (word_at words deltas imports i) f (λ s p. p) h

    Keeps-add_section :
        (i : ℕ) → Keeps (delta words deltas imports i >>= λ v. add_word v >>= λ _. advance 4)
    Keeps-add_section i =
        Keeps-delta i _
          (λ v. Keeps-seq (add_word v) (advance 4) (Keeps-add_word v) (Keeps-advance 4))

    Keeps-long_section : (op i : ℕ) → Keeps (long_section words deltas imports op i)
    Keeps-long_section zero i = Keeps-add_section i
    Keeps-long_section (suc zero) i = Keeps-delta i set_c (λ v s p. p)
    Keeps-long_section (suc (suc zero)) i = Keeps-delta i set_d (λ v s p. p)
    Keeps-long_section (suc (suc (suc n))) i = λ s p. p

    Keeps-perform :
        (k : Kind) (word offset : ℕ) → Keeps (perform words deltas imports k word offset)
    unfolding perform
    Keeps-perform skip word offset =
        Keeps-seq (advance (4 * (word / 64 % 256))) (times (word % 64) d_step)
          (Keeps-advance (4 * (word / 64 % 256))) (Keeps-times (word % 64) d_step Keeps-d_step)
    Keeps-perform by_c word offset = Keeps-times (word % 512 + 1) c_step Keeps-c_step
    Keeps-perform by_d word offset = Keeps-times (word % 512 + 1) d_step Keeps-d_step
    Keeps-perform tv12 word offset =
        Keeps-times (word % 512 + 1) tv12_step
          (Keeps-seq tv8_step (advance 4) Keeps-tv8_step (Keeps-advance 4))
    Keeps-perform tv8 word offset = Keeps-times (word % 512 + 1) tv8_step Keeps-tv8_step
    Keeps-perform vtable8 word offset =
        Keeps-times (word % 512 + 1) vtable8_step
          (Keeps-seq add_d (advance 8) Keeps-add_d (Keeps-advance 8))
    Keeps-perform import_run word offset =
        Keeps-times (word % 512 + 1) (import_step words deltas imports)
          (λ s p. Keeps-add_import s.next_import s p)
    Keeps-perform sm_import word offset = Keeps-add_import (word % 512)
    Keeps-perform sm_c word offset = Keeps-delta (word % 512) set_c (λ v s p. p)
    Keeps-perform sm_d word offset = Keeps-delta (word % 512) set_d (λ v s p. p)
    Keeps-perform sm_section word offset = Keeps-add_section (word % 512)
    Keeps-perform incr word offset = λ s p. p
    Keeps-perform sm_repeat word offset = λ s p. p
    Keeps-perform lg_repeat word offset = λ s p. p
    Keeps-perform set_position word offset = Keeps-word (offset + 1) _ (λ low s p. p)
    Keeps-perform lg_import word offset =
        Keeps-word (offset + 1) _ (λ low. Keeps-add_import (word % 1024 * 65536 + low))
    Keeps-perform lg_section word offset =
        Keeps-word (offset + 1) _
          (λ low. Keeps-long_section (word / 64 % 16) (word % 64 * 65536 + low))

    Keeps-replay_all : (ts : List Token) → Keeps (replay_all words deltas imports ts)
    Keeps-replay_all [] = λ s p. p
    Keeps-replay_all (t ∷ ts) =
        Keeps-bind (replay words deltas imports t) _
          (Keeps-word t.offset _ (λ w. Keeps-perform t.kind w t.offset)) (λ _. Keeps-replay_all ts)

    Keeps-repeat :
        (n count : ℕ) (history : List Token)
        → Keeps (repeat_block words deltas imports n count history)
    Keeps-repeat n count history =
        Keeps-bind _ _ (λ s p. p) (λ ts. Keeps-times count _ (Keeps-replay_all ts))

    Keeps-execute :
        (history : List Token) (t : Token) (k : Kind) (word : ℕ)
        → Keeps (execute words deltas imports history t k word)
    unfolding execute
    Keeps-execute history t sm_repeat word = Keeps-repeat _ _ history
    Keeps-execute history t lg_repeat word = elim (Bool-cases (t.length == 2)) [
      | inl two ↦ rw two (Keeps-word (t.offset + 1) _ (λ low. Keeps-repeat _ _ history))
      | inr other ↦ rw other (λ s p. p)
    ]
    Keeps-execute history t kind word = Keeps-perform kind word t.offset

    Keeps-fetch : (offset : ℕ) (d : Option (Kind × ℕ)) → Keeps (fetch words deltas imports offset d)
    Keeps-fetch offset none = λ s p. p
    Keeps-fetch offset (some (k, n)) = elim (Bool-cases (ltb (length words) (offset + n))) [
      | inl out ↦ rw out (λ s p. p)
      | inr inside ↦ rw inside (λ s p. p)
    ]

    Keeps-interpret :
        (fuel offset : ℕ) (history : List Token)
        → Keeps (interpret words deltas imports fuel offset history)
    unfolding interpret
    Keeps-interpret zero offset history = λ s p. p
    Keeps-interpret (suc fuel) offset history = elim (Bool-cases (ltb offset (length words))) [
      | inr done ↦ rw done (λ s p. p)
      | inl more ↦ rw more (
          Keeps-word offset _ (λ w.
            Keeps-bind (fetch words deltas imports offset (decode w)) _
              (Keeps-fetch offset (decode w))
              (λ t.
                Keeps-bind (execute words deltas imports history t t.kind w) _
                  (Keeps-execute history t t.kind w)
                  (λ _. Keeps-interpret fuel (offset + t.length) (t ∷ history)))))
    ]

  -- Whatever no word write breaks holds after `apply_relocations` if it held before, also where
  -- it raises.
  pub apply_relocations-invariant :
      (section stream : Bytes) (deltas imports : List ℤ) (c d : ℤ)
      → P section
      → P (apply_relocations section stream deltas imports c d).1
  unfolding apply_relocations
  apply_relocations-invariant section stream deltas imports c d p =
      elim (Bool-cases (length stream % 2 == 0)) [
        | inr odd ↦ rw odd p
        | inl even ↦ rw even (
            Keeps-interpret (stream_words stream) deltas imports (length (stream_words stream) + 1)
              0 []
              (record {
                position = 0;
                next_import = 0;
                current_c = c;
                current_d = d;
                section = section;
              })
              p)
      ]

length-put_u32 : (i n : ℕ) (bs : Bytes) → i + 4 ≤ length bs → length (put_u32 i n bs) ≡ length bs
length-put_u32 i n bs h = omega (
  arith,
  length-append {0} (take i bs) (be32 n ++ drop (i + 4) bs),
  length-take {0} i bs,
  length-drop {0} (i + 4) bs,
)

-- `apply_relocations` never changes the length of the section, whether it returns or raises.
pub length-apply_relocations :
    (section stream : Bytes) (deltas imports : List ℤ) (c d : ℤ)
    → length (apply_relocations section stream deltas imports c d).1 ≡ length section
length-apply_relocations section stream deltas imports c d =
    apply_relocations-invariant (λ bs. length bs ≡ length section)
      (λ i n bs h e. length-put_u32 i n bs h ∙ e) section stream deltas imports c d refl
