-- ===== src/Pef/Reloc/Words.antt =====
-- pef.py, the inner function add_word of apply_relocations: one word changes, and no other.
use cwhost.Base.{
  ℕ, ◌+◌, ◌≤◌, ◌<◌, ◌≡◌, refl, ap, ◌∙◌, some, ◌++◌, length, length-take, take, drop, arith, ltb,
  false,
}
use cwhost.Base.Int.{ℤ, pos, negsuc}
use cwhost.Base.Result.{ok}
use cwhost.Base.Bytes.{
  Bytes, be32, be32_value, head_u32, u32_at, drop-append, drop-add, take-append,
}
use cwhost.Pef.Reloc.{State, add_value, put_u32, add_word}

add_value-lt : (old : ℕ) (v : ℤ) → add_value old v < 0x1_0000_0000
unfolding add_value
add_value-lt old (pos v) = omega arith
add_value-lt old (negsuc v) = omega arith

u32_at-put_u32 :
    (p n : ℕ) (bs : Bytes)
    → n < 0x1_0000_0000
    → p + 4 ≤ length bs
    → u32_at (put_u32 p n bs) p ≡ some n
u32_at-put_u32 p n bs small room =
    ap head_u32
      (drop-append p (take p bs) (be32 n ++ drop (p + 4) bs) (omega (arith, length-take {0} p bs)))
    ∙ ap some (be32_value n small)

-- the bytes before the word and behind it
take-put_u32 : (p n : ℕ) (bs : Bytes) → p + 4 ≤ length bs → take p (put_u32 p n bs) ≡ take p bs
take-put_u32 p n bs room =
    take-append p (take p bs) (be32 n ++ drop (p + 4) bs) (omega (arith, length-take {0} p bs))

drop-put_u32 :
    (p n : ℕ) (bs : Bytes) → p + 4 ≤ length bs → drop (p + 4) (put_u32 p n bs) ≡ drop (p + 4) bs
drop-put_u32 p n bs room =
    drop-add {0} p 4 (put_u32 p n bs)
    ∙ ap (drop 4) (
        drop-append p (take p bs) (be32 n ++ drop (p + 4) bs) (omega (arith, length-take {0} p bs)))

-- Where the position leaves room for a word in the section, `add_word` succeeds: the word there
-- becomes its sum with the value, modulo 2 ^ 32, every other byte of the section stays, and so do
-- the position, the two base addresses and the next import.
pub add_word-adds :
    (v : ℤ) (s : State) (old : ℕ)
    → s.position + 4 ≤ length s.section
    → u32_at s.section s.position ≡ some old
    → ((add_word v s).0 ≡ ok tt)
      × (u32_at (add_word v s).1.section s.position ≡ some (add_value old v))
      × (take s.position (add_word v s).1.section ≡ take s.position s.section)
      × (drop (s.position + 4) (add_word v s).1.section ≡ drop (s.position + 4) s.section)
      × (record (add_word v s).1 { section = s.section } ≡ s)
unfolding add_word
add_word-adds v s old room word =
    let inside : ltb (length s.section) (s.position + 4) ≡ false = ground arith in
    rw (inside, word)
      (
        refl,
        u32_at-put_u32 s.position (add_value old v) s.section (add_value-lt old v) room,
        take-put_u32 s.position (add_value old v) s.section room,
        drop-put_u32 s.position (add_value old v) s.section room,
        refl,
      )
