-- ===== src/Resources/Strings.antt =====
-- ResourceFork.str_list reads back the lists of strings that the `STR#` format packs.
use cwhost.Base.{
  ℕ, zero, suc, ◌+◌, ◌-◌, ◌<◌, ◌≡◌, ◌∙◌, ap, some, List, [], ◌∷◌, ◌++◌, length, drop, length-drop,
  length-append, get_elem?, ltb, leb, arith, refl, sym, false,
}
use mathlib.Core.List.{append_assoc}
use cwhost.Base.Int.{ℤ}
use cwhost.Base.Result.{ok}
use cwhost.Base.Bytes.{Bytes, be16, be16_value, slice, drop-add, take-append, drop-append}
use cwhost.Resources.{ResourceFork, payload_of, read_strings, str_list}

-- the strings one behind another, each behind a byte with its length
abbrev pub packed : List Bytes → Bytes
packed [] = []
packed (s ∷ ss) = length s ∷ (s ++ packed ss)

head_of_drop :
    (xs : Bytes) (i : ℕ) {y : ℕ} {ys : Bytes} → drop i xs ≡ y ∷ ys → get_elem? xs i ≡ some y
head_of_drop [] zero q = absurd cc
head_of_drop [] (suc i) q = absurd cc
head_of_drop (x ∷ xs) zero q = cc
head_of_drop (x ∷ xs) (suc i) q = head_of_drop xs i q

read_strings-packed :
    (id : ℤ) (ss : List Bytes) (index position : ℕ) (payload tail : Bytes)
    → drop position payload ≡ packed ss ++ tail
    → read_strings id (length ss) index position payload ≡ ok ss
unfolding read_strings
read_strings-packed id [] index position payload tail q = refl
read_strings-packed id (s ∷ ss) index position payload tail q =
    let first : get_elem? payload position ≡ some (length s) = head_of_drop payload position q in
    let behind : drop (position + 1) payload ≡ (s ++ packed ss) ++ tail =
      drop-add position 1 payload ∙ ap (drop 1) q in
    let after : drop (position + 1 + length s) payload ≡ packed ss ++ tail =
      drop-add (position + 1) (length s) payload
      ∙ ap (drop (length s)) behind
      ∙ ap (drop (length s)) (append_assoc s (packed ss) tail)
      ∙ drop-append (length s) s (packed ss ++ tail) refl in
    let total : length payload - position ≡ suc (length s + length (packed ss ++ tail)) =
      sym (length-drop {0} position payload)
      ∙ ap length q
      ∙ ap (λ xs. suc (length xs)) (append_assoc s (packed ss) tail)
      ∙ ap suc (length-append s (packed ss ++ tail)) in
    let short : leb (length payload) position ≡ false = ground arith in
    let fits : ltb (length payload) (position + 1 + length s) ≡ false = ground arith in
    let here : slice payload (position + 1) (position + 1 + length s) ≡ s =
      let width : position + 1 + length s - (position + 1) ≡ length s = omega arith in
      rw (width, behind, append_assoc s (packed ss) tail)
        (take-append (length s) s (packed ss ++ tail) refl) in
    rw
      (
        short,
        first,
        fits,
        read_strings-packed id ss (index + 1) (position + 1 + length s) payload tail after,
        here,
      )
      refl

-- A fork whose STR# resource counts its strings and packs them, whatever stands behind them, gives
-- these strings back, in their order.
pub str_list-packed :
    (id : ℤ) (fork : ResourceFork) (ss : List Bytes) (tail : Bytes)
    → length ss < 65536
    → payload_of (b'S' ∷ b'T' ∷ b'R' ∷ b'#' ∷ []) id fork
      ≡ some (be16 (length ss) ++ (packed ss ++ tail))
    → str_list id fork ≡ ok ss
unfolding str_list
str_list-packed id fork ss tail few q =
    let wide : ltb (suc (suc (length (packed ss ++ tail)))) 2 ≡ false = ground arith in
    rw (q, wide, be16_value (length ss) few)
      (read_strings-packed id ss 0 2 (be16 (length ss) ++ (packed ss ++ tail)) tail refl)
