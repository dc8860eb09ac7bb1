-- ===== src/Version.antt =====
-- The `-V` order of src/numeric.c: `rank_version_compare` and what it calls. A position in a text
-- that only moves forward is the text that is left.
pub mod Skip
pub mod Number
pub mod Chunks
pub mod Order
use Prim.Native.Nat.{ℕ, zero, suc, ◌+◌, ◌-◌}
use rank.Base.{
  Bool, true, false, not, ◌&&◌, ◌||◌, List, [], ◌∷◌, ℤ, pos, negsuc, is_zero, sub_ℕ, ltb, leb, ◌==◌,
  if◌then◌else◌, length, take, Bytes,
}
use rank.Numeric.{digit, skip_zeros}

abbrev pub ascii_alpha : ℕ → Bool
ascii_alpha byte = (leb b'A' byte && leb byte b'Z') || (leb b'a' byte && leb byte b'z')

abbrev pub ascii_alnum : ℕ → Bool
ascii_alnum byte = ascii_alpha byte || digit byte

-- `version_order`, of the byte that a position stands at.
unfoldable pub version_order : Bytes → ℤ
version_order [] = negsuc 0
version_order (byte ∷ text) =
    if digit byte
    then pos 0
    else if ascii_alpha byte
    then pos byte
    else if byte == b'~'
    then negsuc 1
    else pos (byte + 256)

abbrev pub pos_part : ℤ → ℕ
pos_part (pos n) = n
pos_part (negsuc n) = 0

abbrev pub neg_part : ℤ → ℕ
neg_part (pos n) = 0
neg_part (negsuc n) = suc n

-- `a - b`
abbrev pub sub_ℤ : ℤ → ℤ → ℤ
sub_ℤ a b = sub_ℕ (pos_part a + neg_part b) (neg_part a + pos_part b)

-- `pos < len && !digit(text[pos])`
abbrev pub at_text : Bytes → Bool
at_text [] = false
at_text (c ∷ text) = not (digit c)

abbrev pub at_digit : Bytes → Bool
at_digit [] = false
at_digit (c ∷ text) = digit c

abbrev pub next : Bytes → Bytes
next [] = []
next (c ∷ text) = text

-- The loop over bytes that are no digits returns a difference, or goes on behind them.
pub data Skipped : Type 0 where
  differ : ℤ → Skipped
  arrived : Bytes → Bytes → Skipped

-- One round: the loop's test, the difference of the orders, both texts, and the rest of the loop.
abbrev pub skip_on : Bool → ℤ → Bytes → Bytes → Skipped → Skipped
skip_on test r a b rest = if test then (if is_zero r then rest else differ r) else arrived a b

abbrev pub skip_step : Bytes → Bytes → Skipped → Skipped
skip_step a b rest =
    skip_on (at_text a || at_text b) (sub_ℤ (version_order a) (version_order b)) a b rest

unfoldable pub skip_text : Bytes → Bytes → Skipped
skip_text [] [] = arrived [] []
skip_text [] (y ∷ b) = let rest = skip_text [] b in skip_step [] (y ∷ b) rest
skip_text (x ∷ a) [] = let rest = skip_text a [] in skip_step (x ∷ a) [] rest
skip_text (x ∷ a) (y ∷ b) = let rest = skip_text a b in skip_step (x ∷ a) (y ∷ b) rest

-- The loop over two digit runs: the first difference, and where both stop.
unfoldable pub run_digits : Bytes → Bytes → ℤ → ℤ × Bytes × Bytes
run_digits (x ∷ a) (y ∷ b) first_diff =
    let rest = run_digits a b (if is_zero first_diff then sub_ℕ x y else first_diff) in
    if digit x && digit y then rest else (first_diff, x ∷ a, y ∷ b)
run_digits a b first_diff = (first_diff, a, b)

-- The tests behind the digit loop.
abbrev pub digits_outcome : ℤ × Bytes × Bytes → ℤ
digits_outcome (first_diff, a, b) =
    if at_digit a then pos 1 else if at_digit b then negsuc 0 else first_diff

abbrev pub both_end : Bytes → Bytes → Bool
both_end [] [] = true
both_end _ _ = false

-- A round of the outer loop behind the text loop; `go` is the next round.
abbrev pub round_of : Skipped → (Bytes → Bytes → ℤ) → ℤ
round_of (differ r) go = r
round_of (arrived a b) go =
    let run = run_digits (skip_zeros a) (skip_zeros b) (pos 0) in
    let rest = go run.1 run.2 in if is_zero (digits_outcome run) then rest else digits_outcome run

-- `version_reverse_compare`: each round of the outer loop passes a byte, so the length of both texts
-- together is enough fuel.
unfoldable pub version_rounds : ℕ → Bytes → Bytes → ℤ
unfolding skip_text run_digits
version_rounds zero a b = pos 0
version_rounds (suc fuel) a b = elim (both_end a b) [
  | true ↦ pos 0
  | false ↦ round_of (skip_text a b) (version_rounds fuel)
]

unfoldable pub version_reverse_compare : Bytes → Bytes → ℤ
unfolding version_rounds version_order
version_reverse_compare a b = version_rounds (length a + length b) a b

-- A suffix of letters, digits and '~' is passed by the inner loop.
unfoldable pub skip_alnum : Bytes → Bytes
skip_alnum [] = []
skip_alnum (c ∷ text) = if ascii_alnum c || c == b'~' then skip_alnum text else c ∷ text

-- `while (text[i] == '.' && (alpha or '~'))`: behind all suffixes that start here.
unfoldable pub skip_suffixes : ℕ → Bytes → Bytes
unfolding skip_alnum
skip_suffixes (suc fuel) (d ∷ c ∷ text) =
    let rest = skip_suffixes fuel (skip_alnum text) in
    if d == b'.' && (ascii_alpha c || c == b'~') then rest else d ∷ c ∷ text
skip_suffixes _ text = text

-- `version_file_prefix_len`: `i` is where the text that is left starts.
unfoldable pub prefix_loop : ℕ → ℕ → Bytes → ℕ → ℕ
unfolding skip_suffixes
prefix_loop zero i text prefix_len = prefix_len
prefix_loop (suc fuel) i [] prefix_len = prefix_len
prefix_loop (suc fuel) i (c ∷ text) prefix_len =
    let rest = skip_suffixes (length text) text in
    prefix_loop fuel (i + 1 + (length text - length rest)) rest (i + 1)

unfoldable pub version_file_prefix_len : Bytes → ℕ
unfolding prefix_loop
version_file_prefix_len text = prefix_loop (suc (length text)) 0 text 0

-- The two passes behind the special names.
unfoldable pub version_passes : Bytes → Bytes → ℤ
unfolding version_reverse_compare version_file_prefix_len
version_passes a b =
    let a_prefix_len = version_file_prefix_len a in
    let b_prefix_len = version_file_prefix_len b in
    let one_pass_only = a_prefix_len == length a && b_prefix_len == length b in
    let result = version_reverse_compare (take a_prefix_len a) (take b_prefix_len b) in
    let full = version_reverse_compare a b in
    if not (is_zero result) || one_pass_only then result else full

abbrev pub is_nil : Bytes → Bool
is_nil [] = true
is_nil (c ∷ text) = false

abbrev pub starts_dot : Bytes → Bool
starts_dot [] = false
starts_dot (c ∷ text) = c == b'.'

-- `len == 1`, for a text that starts with '.'
abbrev pub is_dot : Bytes → Bool
is_dot a = length a == 1

abbrev pub is_dotdot : Bytes → Bool
is_dotdot a = length a == 2 && starts_dot (next a)

-- The tests for empty texts, hidden names, "." and "..".
unfoldable pub rank_version_compare : Bytes → Bytes → ℤ
unfolding version_passes
rank_version_compare a b =
    if is_nil a
    then (if is_nil b then pos 0 else negsuc 0)
    else if is_nil b
    then pos 1
    else if starts_dot a
    then (if not (starts_dot b)
        then negsuc 0
        else if is_dot a
        then (if is_dot b then pos 0 else negsuc 0)
        else if is_dot b
        then pos 1
        else if is_dotdot a
        then (if is_dotdot b then pos 0 else negsuc 0)
        else if is_dotdot b
        then pos 1
        else version_passes a b)
    else if starts_dot b
    then pos 1
    else version_passes a b
