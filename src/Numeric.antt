-- ===== src/Numeric.antt =====
-- src/numeric.c, the `-n` order: `rank_numeric_parse` and `rank_numeric_compare_values`.
pub mod Digits
pub mod Value
pub mod Grammar
pub mod Month
pub mod Long
use Prim.Native.Nat.{ℕ, zero, suc, max}
use rank.Base.{
  Bool, true, false, not, ◌&&◌, ◌||◌, List, [], ◌∷◌, ◌++◌, ℤ, pos, negsuc, neg, is_zero, three_way,
  ltb, leb, ◌==◌, if◌then◌else◌, length, Bytes,
}

-- `struct rank_numeric_value`: a pointer with a length is the list of its bytes.
pub record NumericValue : Type 0 where
  pub negative : Bool
  pub int_digits : Bytes
  pub frac_digits : Bytes
  pub nonzero : Bool

abbrev pub digit : ℕ → Bool
digit byte = leb b'0' byte && leb byte b'9'

-- The loops of the parser: `pos` only moves forward, so it is the text that is left.
abbrev pub is_blank : ℕ → Bool
is_blank byte = byte == b' ' || byte == b'\t'

unfoldable pub skip_blanks : Bytes → Bytes
skip_blanks [] = []
skip_blanks (c ∷ text) = if is_blank c then skip_blanks text else c ∷ text

unfoldable pub skip_zeros : Bytes → Bytes
skip_zeros [] = []
skip_zeros (c ∷ text) = if c == b'0' then skip_zeros text else c ∷ text

-- A digit loop: the digits that it passes, and where it stops.
unfoldable pub take_digits : Bytes → Bytes
take_digits [] = []
take_digits (c ∷ text) = if digit c then c ∷ take_digits text else []

unfoldable pub drop_digits : Bytes → Bytes
drop_digits [] = []
drop_digits (c ∷ text) = if digit c then drop_digits text else c ∷ text

-- `span.nonzero` as the two digit loops leave it.
unfoldable pub any_nonzero : Bytes → Bool
any_nonzero [] = false
any_nonzero (c ∷ text) = not (c == b'0') || any_nonzero text

abbrev pub not_empty : Bytes → Bool
not_empty [] = false
not_empty (c ∷ text) = true

unfoldable pub sign_negative : Bytes → Bool
sign_negative [] = false
sign_negative (c ∷ text) = c == b'-'

unfoldable pub skip_sign : Bytes → Bytes
skip_sign [] = []
skip_sign (c ∷ text) = if c == b'-' || c == b'+' then text else c ∷ text

-- The digits behind a decimal point.
unfoldable pub fraction : Bytes → Bytes
unfolding take_digits
fraction [] = []
fraction (c ∷ text) = if c == b'.' then take_digits text else []

unfoldable pub rank_numeric_parse : Bytes → NumericValue
unfolding skip_blanks skip_sign sign_negative skip_zeros take_digits drop_digits fraction
    any_nonzero
rank_numeric_parse text =
    let signed = skip_blanks text in
    let start = skip_zeros (skip_sign signed) in
    let int_digits = take_digits start in
    let frac_digits = fraction (drop_digits start) in
    record {
      negative = sign_negative signed;
      int_digits = int_digits;
      frac_digits = frac_digits;
      nonzero = not_empty int_digits || any_nonzero frac_digits;
    }

-- The loop over the integer digits, of spans of one length.
unfoldable pub compare_int_digits : Bytes → Bytes → ℤ
compare_int_digits (x ∷ a) (y ∷ b) =
    let rest = compare_int_digits a b in
    if ltb x y then negsuc 0 else if ltb y x then pos 1 else rest
compare_int_digits _ _ = pos 0

-- The loop over the fraction digits: a span that has ended reads as zeros.
unfoldable pub compare_frac_digits : Bytes → Bytes → ℤ
compare_frac_digits [] [] = pos 0
compare_frac_digits [] (y ∷ b) =
    let rest = compare_frac_digits [] b in
    if ltb b'0' y then negsuc 0 else if ltb y b'0' then pos 1 else rest
compare_frac_digits (x ∷ a) [] =
    let rest = compare_frac_digits a [] in
    if ltb x b'0' then negsuc 0 else if ltb b'0' x then pos 1 else rest
compare_frac_digits (x ∷ a) (y ∷ b) =
    let rest = compare_frac_digits a b in
    if ltb x y then negsuc 0 else if ltb y x then pos 1 else rest

unfoldable pub compare_magnitude : NumericValue → NumericValue → ℤ
unfolding compare_int_digits compare_frac_digits
compare_magnitude a b =
    let by_int = compare_int_digits a.int_digits b.int_digits in
    let by_frac = compare_frac_digits a.frac_digits b.frac_digits in
    if ltb (length a.int_digits) (length b.int_digits)
    then negsuc 0
    else if ltb (length b.int_digits) (length a.int_digits)
    then pos 1
    else if is_zero by_int
    then by_frac
    else by_int

abbrev pub same_bool : Bool → Bool → Bool
same_bool true b = b
same_bool false b = not b

unfoldable pub rank_numeric_compare_values : NumericValue → NumericValue → ℤ
unfolding compare_magnitude
rank_numeric_compare_values a b =
    let result = compare_magnitude a b in
    if not a.nonzero && not b.nonzero
    then pos 0
    else if same_bool a.negative b.negative
    then (if a.negative then neg result else result)
    else if a.negative
    then negsuc 0
    else pos 1

unfoldable pub rank_numeric_compare : Bytes → Bytes → ℤ
unfolding rank_numeric_parse rank_numeric_compare_values
rank_numeric_compare a b = rank_numeric_compare_values (rank_numeric_parse a) (rank_numeric_parse b)
