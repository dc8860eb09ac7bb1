-- ===== src/Key.antt =====
-- src/key.h and src/key.c: key definitions (`-k`), their parser and its errors. The text is a C string,
-- so the list ends where the NUL stands.
pub mod Size
pub mod Modifiers
pub mod Side
pub mod Parse
use Prim.Native.Nat.{ℕ, zero, suc, ◌+◌, ◌-◌, ◌*◌, ◌/◌, ◌%◌, ◌^◌}
use rank.Base.{
  Bool, true, false, not, ◌&&◌, ◌||◌, Option, none, some, List, [], ◌∷◌, ltb, leb, ◌==◌,
  if◌then◌else◌, Bytes,
}

-- `enum rank_sort_mode`
pub data SortMode : Type 0 where
  byte numeric general_numeric human_numeric month version random : SortMode

-- `mode_flags`, a bit for each requested ordering mode.
pub record ModeFlags : Type 0 where
  pub flag_numeric : Bool
  pub flag_general : Bool
  pub flag_human : Bool
  pub flag_month : Bool
  pub flag_version : Bool
  pub flag_random : Bool

-- `struct rank_keydef`
pub record KeyDef : Type 0 where
  pub start_field : ℕ
  pub start_char : ℕ
  pub end_field : ℕ
  pub end_char : ℕ
  pub has_start_char : Bool
  pub has_end : Bool
  pub has_end_char : Bool
  pub ignore_start_blanks : Bool
  pub ignore_end_blanks : Bool
  pub ignore_case : Bool
  pub dictionary_order : Bool
  pub ignore_nonprinting : Bool
  pub reverse : Bool
  pub sort_mode : SortMode
  pub mode_flags : ModeFlags

-- The messages of `set_error`.
pub data KeyError : Type 0 where
  invalid_field invalid_character unsupported_modifier invalid_definition : KeyError

pub data Result {ℓ} (A : Type ℓ) : Type ℓ where
  ok : A → Result A
  err : KeyError → Result A

infixl 5 ◌>>=◌
abbrev pub ◌>>=◌ {ℓ κ} : {A : Type ℓ} {B : Type κ} → Result A → (A → Result B) → Result B
ok a >>= f = f a
err e >>= f = err e

-- `SIZE_MAX`, where `size_t` has 64 bits.
abbrev pub size_max : ℕ
size_max = 2 ^ 64 - 1

-- `isdigit` in the C locale.
abbrev pub is_digit : ℕ → Bool
is_digit c = leb b'0' c && leb c b'9'

-- The loop of `parse_size`: `none` on overflow, else the number, whether a digit was read, and the
-- text that is left.
unfoldable pub size_loop : Bytes → ℕ → Bool → Option (ℕ × Bool × Bytes)
size_loop [] n any = some (n, any, [])
size_loop (c ∷ p) n any =
    let d = c - b'0' in
    let rest = size_loop p ((n * 10 + d) % 2 ^ 64) true in
    if is_digit c
    then (if ltb ((size_max - d) / 10) n then none else rest)
    else some (n, any, c ∷ p)

unfoldable pub parse_size : Bytes → Option (ℕ × Bytes)
unfolding size_loop
parse_size text = elim (size_loop text 0 false) [
  | none ↦ none
  | some (n, any, p) ↦ if any then some (n, p) else none
]

-- The character offset behind a '.'; `none` as a character is `has_char == false`.
unfoldable pub parse_character : Bytes → Result (Option ℕ × Bytes)
unfolding parse_size
parse_character [] = ok (none, [])
parse_character (c ∷ p) =
    if c == b'.'
    then elim (parse_size p) [ none ↦ err invalid_character | some (n, q) ↦ ok (some n, q) ]
    else ok (none, c ∷ p)

pub record Position : Type 0 where
  pub field : ℕ
  pub character : Option ℕ
  pub rest : Bytes

unfoldable pub parse_pos : Bytes → Result Position
unfolding parse_size parse_character
parse_pos text = elim (parse_size text) [
  | none ↦ err invalid_field
  | some (field, p) ↦ if field == 0 then err invalid_field else do
    (character, q) ← parse_character p
    ok (record { field = field; character = character; rest = q })
]

abbrev pub set_mode : KeyDef → SortMode → ModeFlags → KeyDef
set_mode key mode flags = record key { sort_mode = mode; mode_flags = flags }

-- One round of the `switch` of `parse_modifiers`.
unfoldable pub modifier : ℕ → Bool → KeyDef → Option KeyDef
modifier c end_pos key =
    if c == b'b'
    then some (
        if end_pos
        then record key { ignore_end_blanks = true }
        else record key { ignore_start_blanks = true })
    else if c == b'd'
    then some (record key { dictionary_order = true })
    else if c == b'f'
    then some (record key { ignore_case = true })
    else if c == b'i'
    then some (record key { ignore_nonprinting = true })
    else if c == b'r'
    then some (record key { reverse = true })
    else if c == b'n'
    then some (set_mode key numeric (let m = key.mode_flags in record m { flag_numeric = true }))
    else if c == b'g'
    then some
        (set_mode key general_numeric (let m = key.mode_flags in record m { flag_general = true }))
    else if c == b'h'
    then some
        (set_mode key human_numeric (let m = key.mode_flags in record m { flag_human = true }))
    else if c == b'M'
    then some (set_mode key month (let m = key.mode_flags in record m { flag_month = true }))
    else if c == b'V'
    then some (set_mode key version (let m = key.mode_flags in record m { flag_version = true }))
    else if c == b'R'
    then some (set_mode key random (let m = key.mode_flags in record m { flag_random = true }))
    else none

unfoldable pub parse_modifiers : Bytes → Bool → KeyDef → Result (KeyDef × Bytes)
unfolding modifier
parse_modifiers [] end_pos key = ok (key, [])
parse_modifiers (c ∷ p) end_pos key = elim (c == b',') [
  | true ↦ ok (key, c ∷ p)
  | false ↦ elim (modifier c end_pos key) [
    | none ↦ err unsupported_modifier
    | some key' ↦ parse_modifiers p end_pos key'
  ]
]

abbrev pub no_flags : ModeFlags
no_flags = record {
  flag_numeric = false;
  flag_general = false;
  flag_human = false;
  flag_month = false;
  flag_version = false;
  flag_random = false;
}

-- `memset` and the two assignments behind it.
abbrev pub blank_key : KeyDef
blank_key = record {
  start_field = 1;
  start_char = 0;
  end_field = 0;
  end_char = 0;
  has_start_char = false;
  has_end = false;
  has_end_char = false;
  ignore_start_blanks = false;
  ignore_end_blanks = false;
  ignore_case = false;
  dictionary_order = false;
  ignore_nonprinting = false;
  reverse = false;
  sort_mode = byte;
  mode_flags = no_flags;
}

abbrev pub is_given : Option ℕ → Bool
is_given none = false
is_given (some n) = true

abbrev pub number_of : Option ℕ → ℕ
number_of none = 0
number_of (some n) = n

abbrev pub with_start : KeyDef → Position → KeyDef
with_start key p = record key {
  start_field = p.field;
  start_char = number_of p.character;
  has_start_char = is_given p.character;
}

abbrev pub with_end : KeyDef → Position → KeyDef
with_end key p = record key {
  has_end = true;
  end_field = p.field;
  end_char = number_of p.character;
  has_end_char = is_given p.character;
}

-- What follows the end position's modifiers must be the end of the text.
abbrev pub finish : KeyDef × Bytes → Result KeyDef
finish (key, []) = ok key
finish (key, c ∷ p) = err invalid_definition

-- Behind a comma: the end position, its modifiers, and the end of the text.
unfoldable pub parse_end_pos : KeyDef → Bytes → Result KeyDef
unfolding parse_pos parse_modifiers
parse_end_pos key p = do e ← parse_pos p; r ← parse_modifiers e.rest true (with_end key e); finish r

unfoldable pub parse_end : KeyDef → Bytes → Result KeyDef
unfolding parse_end_pos
parse_end key [] = ok key
parse_end key (c ∷ p) = if c == b',' then parse_end_pos key p else err invalid_definition

unfoldable pub rank_key_parse : Bytes → Result KeyDef
unfolding parse_pos parse_modifiers parse_end
rank_key_parse text = do
  s ← parse_pos text
  (key, q) ← parse_modifiers s.rest false (with_start blank_key s)
  parse_end key q
