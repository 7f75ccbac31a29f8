-- ===== src/Shell/Utf8.antt =====
-- `str` of Rust: bytes that are UTF-8, as its reference and chapter 3.9 of the Unicode standard say.
use ov.Prelude.{
  ℕ, zero, suc, ◌≡◌, Bool, true, false, ◌&&◌, Option, none, some, [], ◌∷◌, ◌==◌, leb, if◌then◌else◌,
}
use ov.Shell.Tokenizer.{Bytes}

-- Between two characters; in a character, before `n + 1` further bytes; or after a first byte that
-- leaves its second byte less room.
pub data State : Type 0 where
  boundary : State
  more : ℕ → State
  after_e0 after_ed after_f0 after_f4 : State

abbrev in_range : ℕ → ℕ → ℕ → Bool
in_range lo hi c = leb lo c && leb c hi

abbrev pub fewer : ℕ → State
fewer zero = boundary
fewer (suc n) = more n

abbrev pub first_byte : ℕ → Option State
first_byte c =
    if leb c 127
    then some boundary
    else if in_range 194 223 c
    then some (more 0)
    else if c == 224
    then some after_e0
    else if c == 237
    then some after_ed
    else if in_range 225 239 c
    then some (more 1)
    else if c == 240
    then some after_f0
    else if in_range 241 243 c
    then some (more 2)
    else if c == 244
    then some after_f4
    else none

abbrev pub next_byte : State → ℕ → Option State
next_byte boundary c = first_byte c
next_byte (more n) c = if in_range 128 191 c then some (fewer n) else none
next_byte after_e0 c = if in_range 160 191 c then some (more 0) else none
next_byte after_ed c = if in_range 128 159 c then some (more 0) else none
next_byte after_f0 c = if in_range 144 191 c then some (more 1) else none
next_byte after_f4 c = if in_range 128 143 c then some (more 1) else none

abbrev pub at_boundary : State → Bool
at_boundary boundary = true
at_boundary s = false

-- The bytes go on from the state to the end of a character.
unfoldable pub completes : State → Bytes → Bool
completes s [] = at_boundary s
completes s (c ∷ cs) = elim (next_byte s c) [ none ↦ false | some s' ↦ completes s' cs ]

abbrev pub is_utf8 : Bytes → Bool
is_utf8 cs = completes boundary cs

pub record Str : Type 0 where
  pub bytes : Bytes
  pub utf8 : is_utf8 bytes ≡ true
