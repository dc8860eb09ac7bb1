-- ===== src/Tests.antt =====
-- The theorems at concrete inputs, and the platform functions that these inputs need.
pub mod Sorting
pub mod Radix
pub mod Output
use Prim.Native.Nat.{ℕ, ◌*◌, ◌≤◌}
use rank.Base.{
  ◌≡◌, refl, inl, inr, ◌↔◌, Bool, true, false, Option, none, some, List, [], ◌∷◌, arith, IsOrder,
  IsOrder-on, ltb, ◌==◌, if◌then◌else◌, length, sign, codes, Bytes, All,
}
use rank.Sort.Stable.{IsStableSort}
use rank.Sort.Scalar.{scalar_sort}
use rank.Sort.Scalar.Laws.{scalar_sort-IsStableSort}
use rank.Locale.{Locale, rank_locale_compare, compare_bytes}
use rank.Locale.Lex.{lex, lex-IsOrder, compare_bytes-lex}
use rank.Locale.Collate.{collation, rank_locale_compare-collation, rank_locale_compare-IsOrder}
use rank.Numeric.{take_digits, rank_numeric_parse, rank_numeric_compare}
use rank.Numeric.Digits.{value}
use rank.Numeric.Value.{
  IsNumeric, signed, compare_ℤ, rank_numeric_parse-IsNumeric, rank_numeric_compare-signed,
  rank_numeric_compare-IsOrder,
}
use rank.Numeric.Grammar.{Numeral, IsNumeral, rank_numeric_parse-spell}
use rank.Numeric.Long.{
  LongDouble, IsIeee, rank_general_numeric_parse, rank_general_numeric_compare_values,
  rank_human_numeric_parse, rank_human_numeric_compare_values, rank_human_numeric_parse-number,
  rank_human_numeric_compare-IsOrder, reading, general_order, rank_general_numeric_compare-classes,
}
use rank.Version.{version_reverse_compare}
use rank.Version.Chunks.{chunks, compare_chunks}
use rank.Version.Order.{version_reverse_compare-chunks}
use rank.Key.{
  KeyDef, ok, err, invalid_field, blank_key, parse_size, parse_modifiers, rank_key_parse, numeric,
}
use rank.Key.Size.{parse_size-decimal}
use rank.Key.Modifiers.{with_modifiers, parse_modifiers_lem}
use rank.Key.Side.{Side, IsSide}
use rank.Key.Parse.{key_of, rank_key_parse_lem, rank_key_parse-invalid_field}
use rank.Options.{Options, check_none, rank_options_apply_key_defaults, rank_options_check_ordering}
use rank.Options.Keys.{
  Zip, Inherits, OneMode, KeyModes, rank_options_apply_key_defaults-Inherits,
  rank_options_check_ordering-OneMode,
}
use rank.Line.Bounds.{key_bounds-le}
use rank.Cmp.{compare_with}
use rank.Cmp.Spans.{compare_with-lex}
use rank.Line.{rank_fold_upper, filter_loop, append_filtered_span, key_bounds, field_start}
use rank.Line.Filter.{append_filtered_span-loop}

-- A collation that does not tell small letters from capitals.
abbrev caseless : Locale
caseless = record { identity = false; strcoll = λ a b. lex (rank_fold_upper a) (rank_fold_upper b) }

caseless-IsOrder : IsOrder caseless.strcoll
caseless-IsOrder = IsOrder-on rank_fold_upper lex-IsOrder

-- Natural numbers and a NaN as `long double`; `strtold` reads digits, or "n".
abbrev toy_times : Option ℕ → Option ℕ
toy_times none = none
toy_times (some n) = some (n * 1024)

abbrev toy_less : Option ℕ → Option ℕ → Bool
toy_less (some a) (some b) = ltb a b
toy_less _ _ = false

abbrev toy_isnan : Option ℕ → Bool
toy_isnan none = true
toy_isnan (some n) = false

abbrev toy_strtold : Bytes → Option ℕ × ℕ
toy_strtold [] = (some 0, 0)
toy_strtold (c ∷ text) =
    if c == b'n'
    then (none, 1)
    else (some (value 0 (take_digits (c ∷ text))), length (take_digits (c ∷ text)))

abbrev toy : LongDouble
toy = record {
  D = Option ℕ;
  less = toy_less;
  isnan = toy_isnan;
  zero_value = some 0;
  times_1024 = toy_times;
  strtold = toy_strtold;
}

toy_asym : (x y : Option ℕ) → toy_less x y ≡ true → toy_less y x ≡ false
toy_asym x none h = ground arith
toy_asym none (some b) h = refl
toy_asym (some a) (some b) h = ground arith

toy_connected :
    (x y z : Option ℕ)
    → toy_isnan y ≡ false
    → toy_less y x ≡ false
    → toy_less z y ≡ false
    → toy_less z x ≡ false
toy_connected x none z n h k = absurd (cc)
toy_connected none (some b) none n h k = refl
toy_connected none (some b) (some c) n h k = refl
toy_connected (some a) (some b) none n h k = refl
toy_connected (some a) (some b) (some c) n h k = ground arith

toy_times_number : (x : Option ℕ) → toy_isnan x ≡ false → toy_isnan (toy_times x) ≡ false
toy_times_number none h = h
toy_times_number (some n) h = refl

toy-IsIeee : IsIeee toy
toy-IsIeee = record {
  asym = toy_asym;
  connected = toy_connected;
  zero_number = refl;
  times_number = toy_times_number;
}

abbrev unsorted : List Bytes
unsorted = codes "10" ∷ codes "9" ∷ codes "abc" ∷ codes "+9.0" ∷ codes "-3" ∷ []

scalar_sort-IsStableSort_example :
    IsStableSort rank_numeric_compare unsorted (scalar_sort rank_numeric_compare unsorted)
scalar_sort-IsStableSort_example = scalar_sort-IsStableSort rank_numeric_compare-IsOrder unsorted

version_reverse_compare-chunks_example :
    sign (version_reverse_compare (codes "a1.10") (codes "a1.9"))
    ≡ sign (compare_chunks (chunks 5 (codes "a1.10")) (chunks 4 (codes "a1.9")))
version_reverse_compare-chunks_example =
    version_reverse_compare-chunks (codes "a1.10") (codes "a1.9")

rank_numeric_compare-signed_example :
    rank_numeric_compare (codes "-1.5") (codes "-1.25")
    ≡ compare_ℤ
        (signed 2 (rank_numeric_parse (codes "-1.5")))
        (signed 2 (rank_numeric_parse (codes "-1.25")))
rank_numeric_compare-signed_example =
    rank_numeric_compare-signed (codes "-1.5") (codes "-1.25") 2 minus_places minus_places'
  where
    minus_places : length (rank_numeric_parse (codes "-1.5")).frac_digits ≤ 2
    minus_places = unfold rank_numeric_parse in omega arith

    minus_places' : length (rank_numeric_parse (codes "-1.25")).frac_digits ≤ 2
    minus_places' = unfold rank_numeric_parse in omega arith

-- " -007.50kg"
abbrev weight : Numeral
weight = record {
  blanks = codes " ";
  sign = some true;
  zeros = codes "00";
  whole = codes "7";
  point = some (codes "50");
}

weight-IsNumeral : IsNumeral weight
weight-IsNumeral = record {
  blanks_ok = (refl, tt);
  zeros_ok = (refl, (refl, tt));
  whole_ok = ((omega arith, omega arith), tt);
  whole_trimmed = omega arith;
  point_ok = ((omega arith, omega arith), ((omega arith, omega arith), tt));
  some_digit = λ e. absurd (cc);
}

rank_numeric_parse-spell_example :
    rank_numeric_parse (codes " -007.50kg")
    ≡ record { negative = true; int_digits = codes "7"; frac_digits = codes "50"; nonzero = true }
rank_numeric_parse-spell_example =
    rank_numeric_parse-spell weight (codes "kg") weight-IsNumeral refl

rank_locale_compare-collation_example :
    rank_locale_compare caseless (codes "b") (codes "Ab")
    ≡ collation caseless (codes "b") (codes "Ab")
rank_locale_compare-collation_example =
    rank_locale_compare-collation caseless caseless-IsOrder (codes "b") (codes "Ab")

rank_locale_compare-IsOrder_example : IsOrder (rank_locale_compare caseless)
rank_locale_compare-IsOrder_example = rank_locale_compare-IsOrder caseless caseless-IsOrder

rank_general_numeric_compare-classes_example :
    IsOrder (λ a b.
      rank_general_numeric_compare_values toy
        (rank_general_numeric_parse toy a)
        (rank_general_numeric_parse toy b))
    × ((a b : Bytes)
        → rank_general_numeric_compare_values toy
            (rank_general_numeric_parse toy a)
            (rank_general_numeric_parse toy b)
          ≡ general_order toy (reading toy a) (reading toy b))
rank_general_numeric_compare-classes_example = rank_general_numeric_compare-classes toy-IsIeee

rank_human_numeric_compare-IsOrder_example : IsOrder (λ a b.
    rank_human_numeric_compare_values toy
      (rank_human_numeric_parse toy a)
      (rank_human_numeric_parse toy b))
rank_human_numeric_compare-IsOrder_example = rank_human_numeric_compare-IsOrder toy-IsIeee

parse_size-decimal_example : parse_size (codes "120.4") ≡ some (120, codes ".4")
parse_size-decimal_example =
    parse_size-decimal (codes "120") (codes ".4")
      ((omega arith, omega arith), ((omega arith, omega arith), ((omega arith, omega arith), tt)))
      refl

parse_modifiers_lem_example :
    parse_modifiers (codes "nb,3") false blank_key
    ≡ ok (with_modifiers (codes "nb") false blank_key, codes ",3")
parse_modifiers_lem_example =
    parse_modifiers_lem (codes "nb") (codes ",3") false blank_key
      (inr (inr (inr (inr (inr (inl refl))))), (inl refl, tt)) refl

abbrev from_two : Side
from_two = record { digits = codes "2"; offset = none; mods = codes "r" }

abbrev to_three : Side
to_three = record { digits = codes "3"; offset = some (codes "4"); mods = codes "b" }

from_two-IsSide : IsSide from_two
from_two-IsSide = record {
  digits_ok = record {
    all_digits = ((omega arith, omega arith), tt);
    one_digit = λ e. absurd (cc);
    fits = omega arith;
  };
  digits_pos = omega arith;
  offset_ok = tt;
  mods_ok = (inr (inr (inr (inr (inl refl)))), tt);
}

to_three-IsSide : IsSide to_three
to_three-IsSide = record {
  digits_ok = record {
    all_digits = ((omega arith, omega arith), tt);
    one_digit = λ e. absurd (cc);
    fits = omega arith;
  };
  digits_pos = omega arith;
  offset_ok = record {
    all_digits = ((omega arith, omega arith), tt);
    one_digit = λ e. absurd (cc);
    fits = omega arith;
  };
  mods_ok = (inl refl, tt);
}

rank_key_parse_lem_example : rank_key_parse (codes "2r,3.4b") ≡ ok (key_of from_two (some to_three))
rank_key_parse_lem_example =
    rank_key_parse_lem from_two (some to_three) from_two-IsSide to_three-IsSide

rank_key_parse-invalid_field_example : rank_key_parse (codes "2r,0.3") ≡ err invalid_field
rank_key_parse-invalid_field_example =
    rank_key_parse-invalid_field (some from_two) (codes "0") (codes ".3") from_two-IsSide
      ((omega arith, omega arith), tt) refl (inl refl)

abbrev second_field : KeyDef
second_field = record blank_key { start_field = 2; has_end = true; end_field = 2 }

abbrev numeric_options : Options
numeric_options = record {
  reverse = true;
  stable = false;
  unique = false;
  merge = false;
  zero_terminated = false;
  ignore_leading_blanks = false;
  ignore_case = false;
  dictionary_order = false;
  ignore_nonprinting = false;
  debug = false;
  check_mode = check_none;
  sort_mode = numeric;
  mode_flags = record {
    flag_numeric = true;
    flag_general = false;
    flag_human = false;
    flag_month = false;
    flag_version = false;
    flag_random = false;
  };
  separator = some b':';
  keys = second_field ∷ record second_field { reverse = true } ∷ [];
}

rank_options_apply_key_defaults-Inherits_example :
    Zip
      (Inherits numeric_options)
      numeric_options.keys
      (rank_options_apply_key_defaults numeric_options).keys
rank_options_apply_key_defaults-Inherits_example =
    rank_options_apply_key_defaults-Inherits numeric_options

rank_options_check_ordering-OneMode_example :
    (rank_options_check_ordering numeric_options ≡ none)
    ↔ (OneMode numeric_options.mode_flags false false × All KeyModes numeric_options.keys)
rank_options_check_ordering-OneMode_example = rank_options_check_ordering-OneMode numeric_options

key_bounds-le_example :
    ((key_bounds (codes "a:bc:d") (some b':') second_field).0
      ≤ (key_bounds (codes "a:bc:d") (some b':') second_field).1)
    × ((key_bounds (codes "a:bc:d") (some b':') second_field).1 ≤ 6)
    × (field_start (codes "a:bc:d") (some b':') 2 false ≤ 6)
    × (field_start (codes "a:bc:d") (some b':') 2 false ≤ 6)
key_bounds-le_example = key_bounds-le (codes "a:bc:d") (some b':') second_field

abbrev c_locale : Locale
c_locale = record { identity = true; strcoll = lex }

compare_with-lex_example :
    compare_with c_locale true true false (codes "a-B") (codes "ab")
    ≡ lex
        (append_filtered_span (codes "a-B") true true false)
        (append_filtered_span (codes "ab") true true false)
compare_with-lex_example = compare_with-lex c_locale true true false (codes "a-B") (codes "ab") refl
