-- ===== src/Pef/Reloc.antt =====
-- pef.py, apply_relocations: the interpreter of a PEF relocation instruction stream, which adds
-- section and import addresses to the 32-bit words of a section image.
pub mod Section
pub mod Steps
pub mod Words
pub mod Safe
use cwhost.Base.{
  ℕ, zero, suc, ◌+◌, ◌*◌, ◌/◌, ◌%◌, ◌-◌, Bool, true, false, ◌&&◌, Option, none, some, List, [], ◌∷◌,
  ◌++◌, length, get_elem?, take, drop, ltb, ◌==◌, if◌then◌else◌,
}
use cwhost.Base.Int.{ℤ, pos, negsuc}
use cwhost.Base.Result.{Result, ok, err, or_raise}
use cwhost.Base.Action.{Action, pure, raise, lift, gets, modify, raise_if, ◌>>=◌, ◌>>◌}
use cwhost.Base.Bytes.{Bytes, be32, u32_at, u16_at}

-- `index_error` is Python's own exception, `out_of_fuel` that of the loop's bound.
pub data RelocError : Type 0 where
  odd_stream position_range section_index import_index nested_repeat malformed_repeat : RelocError
  split_repeat no_block unknown_subop unknown_opcode truncated index_error out_of_fuel : RelocError

pub data Kind : Type 0 where
  skip by_c by_d tv12 tv8 vtable8 import_run sm_import sm_c sm_d sm_section incr : Kind
  sm_repeat lg_repeat set_position lg_import lg_section : Kind

-- a decoded instruction: the index of its first word, its length in words, its kind
pub record Token : Type 0 where
  pub offset : ℕ
  pub length : ℕ
  pub kind : Kind

-- the variables of the interpreter, and the section that it changes
pub record State : Type 0 where
  pub position : ℕ
  pub next_import : ℕ
  pub current_c : ℤ
  pub current_d : ℤ
  pub section : Bytes

abbrev pub Run : Type 0 → Type 0
Run A = Action State RelocError A

-- (old + value) & 0xFFFF_FFFF
unfoldable pub add_value : ℕ → ℤ → ℕ
add_value old (pos v) = (old + v) % 0x1_0000_0000
add_value old (negsuc v) = (old + (0x1_0000_0000 - suc v % 0x1_0000_0000)) % 0x1_0000_0000

-- struct.pack_into(">I", section, i, n)
abbrev pub put_u32 : ℕ → ℕ → Bytes → Bytes
put_u32 i n bs = take i bs ++ (be32 n ++ drop (i + 4) bs)

-- the read-modify-write of `add_word`, on the word that was read
abbrev pub store_sum : ℤ → Option ℕ → Run (Unit {0})
store_sum value none s = (err index_error, s)
store_sum value (some old) s =
    (ok tt, record s { section = put_u32 s.position (add_value old value) s.section })

-- the inner function `add_word`; the word is there once its range has been checked
unfoldable pub add_word : ℤ → Run (Unit {0})
unfolding add_value
add_word value s =
    if ltb (length s.section) (s.position + 4)
    then (err position_range, s)
    else store_sum value (u32_at s.section s.position) s

abbrev pub advance : ℕ → Run (Unit {0})
advance n s = (ok tt, record s { position = s.position + n })

abbrev pub set_c : ℤ → Run (Unit {0})
set_c v s = (ok tt, record s { current_c = v })

abbrev pub set_d : ℤ → Run (Unit {0})
set_d v s = (ok tt, record s { current_d = v })

abbrev pub set_import : ℕ → Run (Unit {0})
set_import i s = (ok tt, record s { next_import = i })

abbrev pub set_pos : ℕ → Run (Unit {0})
set_pos p s = (ok tt, record s { position = p })

-- `for _ in range(n): body`
unfoldable pub times : ℕ → Run (Unit {0}) → Run (Unit {0})
times zero body = pure tt
times (suc n) body = body >> times n body

-- add the current value and go on to the next word
abbrev pub add_c : Run (Unit {0})
add_c s = add_word s.current_c s

abbrev pub add_d : Run (Unit {0})
add_d s = add_word s.current_d s

-- The instructions that a repeat covers: the last ones whose lengths add up to `block_words`.
-- The history has the latest instruction first; `selected` is in the order of execution.
unfoldable pub select : ℕ → ℕ → List Token → List Token → Result RelocError (List Token)
select block_words total selected [] = if total == block_words then ok selected else err no_block
select block_words total selected (prior ∷ history) =
    let more = select block_words (total + prior.length) (prior ∷ selected) history in
    if total + prior.length == block_words
    then ok (prior ∷ selected)
    else if ltb block_words (total + prior.length)
    then err split_repeat
    else more

-- the chain of tests on the leading bits
unfoldable pub decode : ℕ → Option (Kind × ℕ)
decode word =
    if word / 16384 == 0
    then some (skip, 1)
    else if word / 512 == 0b0100000
    then some (by_c, 1)
    else if word / 512 == 0b0100001
    then some (by_d, 1)
    else if word / 512 == 0b0100010
    then some (tv12, 1)
    else if word / 512 == 0b0100011
    then some (tv8, 1)
    else if word / 512 == 0b0100100
    then some (vtable8, 1)
    else if word / 512 == 0b0100101
    then some (import_run, 1)
    else if word / 512 == 0b0110000
    then some (sm_import, 1)
    else if word / 512 == 0b0110001
    then some (sm_c, 1)
    else if word / 512 == 0b0110010
    then some (sm_d, 1)
    else if word / 512 == 0b0110011
    then some (sm_section, 1)
    else if word / 4096 == 0b1000
    then some (incr, 1)
    else if word / 4096 == 0b1001
    then some (sm_repeat, 1)
    else if word / 1024 == 0b101000
    then some (set_position, 2)
    else if word / 1024 == 0b101001
    then some (lg_import, 2)
    else if word / 1024 == 0b101100
    then some (lg_repeat, 2)
    else if word / 1024 == 0b101101
    then some (lg_section, 2)
    else none

-- the loop bodies of the runs
abbrev pub c_step : Run (Unit {0})
c_step = add_c >> advance 4

abbrev pub d_step : Run (Unit {0})
d_step = add_d >> advance 4

abbrev pub tv8_step : Run (Unit {0})
tv8_step = c_step >> d_step

abbrev pub tv12_step : Run (Unit {0})
tv12_step = tv8_step >> advance 4

abbrev pub vtable8_step : Run (Unit {0})
vtable8_step = add_d >> advance 8

-- The environment: the words of the stream, and the arguments `section_deltas` and `imports`.
module _ (words : List ℕ) (section_deltas imports : List ℤ) where
  -- words[i]
  abbrev pub word_at : ℕ → Run ℕ
  word_at i = lift (or_raise (get_elem? words i) index_error)

  -- the inner functions `delta` and `imp`
  abbrev pub delta : ℕ → Run ℤ
  delta i = lift (or_raise (get_elem? section_deltas i) section_index)

  abbrev pub imp : ℕ → Run ℤ
  imp i = lift (or_raise (get_elem? imports i) import_index)

  abbrev pub add_import : ℕ → Run (Unit {0})
  add_import index = do value ← imp index; add_word value; set_import (index + 1); advance 4

  abbrev pub import_step : Run (Unit {0})
  import_step s = add_import s.next_import s

  -- lg_section, by its sub-operation
  abbrev pub long_section : ℕ → ℕ → Run (Unit {0})
  long_section zero index = do value ← delta index; add_word value; advance 4
  long_section (suc zero) index = do value ← delta index; set_c value
  long_section (suc (suc zero)) index = do value ← delta index; set_d value
  long_section (suc (suc (suc _))) index = raise unknown_subop

  -- `execute` of an instruction that is no repeat, its first word at hand; `offset` is the index
  -- of that word. A repeat is what `execute(prior, repeating=True)` refuses.
  unfoldable pub perform : Kind → ℕ → ℕ → Run (Unit {0})
  unfolding add_word times
  perform skip word offset = advance (4 * (word / 64 % 256)) >> times (word % 64) d_step
  perform by_c word offset = times (word % 512 + 1) c_step
  perform by_d word offset = times (word % 512 + 1) d_step
  perform tv12 word offset = times (word % 512 + 1) tv12_step
  perform tv8 word offset = times (word % 512 + 1) tv8_step
  perform vtable8 word offset = times (word % 512 + 1) vtable8_step
  perform import_run word offset = times (word % 512 + 1) import_step
  perform sm_import word offset = add_import (word % 512)
  perform sm_c word offset = do value ← delta (word % 512); set_c value
  perform sm_d word offset = do value ← delta (word % 512); set_d value
  perform sm_section word offset = do value ← delta (word % 512); add_word value; advance 4
  perform incr word offset = advance (word % 4096 + 1)
  perform sm_repeat word offset = raise nested_repeat
  perform lg_repeat word offset = raise nested_repeat
  perform set_position word offset = do
    low ← word_at (offset + 1)
    set_pos (word % 1024 * 65536 + low)
  perform lg_import word offset = do
    low ← word_at (offset + 1)
    add_import (word % 1024 * 65536 + low)
  perform lg_section word offset = do
    low ← word_at (offset + 1)
    long_section (word / 64 % 16) (word % 64 * 65536 + low)

  -- execute(prior, repeating=True)
  abbrev pub replay : Token → Run (Unit {0})
  replay t = do word ← word_at t.offset; perform t.kind word t.offset

  abbrev pub replay_all : List Token → Run (Unit {0})
  replay_all [] = pure tt
  replay_all (t ∷ ts) = replay t >> replay_all ts

  abbrev pub repeat_block : ℕ → ℕ → List Token → Run (Unit {0})
  repeat_block block_words count history = do
    selected ← lift (select block_words 0 [] history)
    times count (replay_all selected)

  -- execute(token)
  unfoldable pub execute : List Token → Token → Kind → ℕ → Run (Unit {0})
  unfolding perform select
  execute history t sm_repeat word = repeat_block (word / 256 % 16 + 1) (word % 256 + 1) history
  execute history t lg_repeat word =
      if t.length == 2
      then (do
        low ← word_at (t.offset + 1)
        repeat_block (word / 64 % 16 + 1) (word % 64 * 65536 + low) history)
      else raise malformed_repeat
  execute history t kind word = perform kind word t.offset

  -- the token of the instruction at `offset`
  abbrev pub fetch : ℕ → Option (Kind × ℕ) → Run Token
  fetch offset none = raise unknown_opcode
  fetch offset (some (kind, n)) =
      raise_if (ltb (length words) (offset + n)) truncated
      >> pure (record { offset = offset; length = n; kind = kind })

  -- The main loop, on fuel: each round reads at least one word.
  unfoldable pub interpret : ℕ → ℕ → List Token → Run (Unit {0})
  unfolding decode execute
  interpret zero offset history = raise out_of_fuel
  interpret (suc fuel) offset history =
      let round = (do
        word ← word_at offset
        t ← fetch offset (decode word)
        execute history t t.kind word
        interpret fuel (offset + t.length) (t ∷ history)) in
      if ltb offset (length words) then round else pure tt

-- [unpack_from(">H", stream, i)[0] for i in range(0, len(stream), 2)]
unfoldable pub stream_words : Bytes → List ℕ
stream_words (a ∷ b ∷ rest) = (a * 256 + b) ∷ stream_words rest
stream_words _ = []

-- apply_relocations
unfoldable pub apply_relocations :
    Bytes → Bytes → List ℤ → List ℤ → ℤ → ℤ → Result RelocError (Unit {0}) × Bytes
unfolding stream_words interpret
apply_relocations section stream section_deltas imports initial_c initial_d =
    if length stream % 2 == 0
    then (let words = stream_words stream in
        let (r, s) = interpret words section_deltas imports (length words + 1) 0 [] (record {
          position = 0;
          next_import = 0;
          current_c = initial_c;
          current_d = initial_d;
          section = section;
        }) in
        (r, s.section))
    else (err odd_stream, section)
