-- ===== src/Check/KeyCache.antt =====
-- The fast check of two records by one key in src/check.c: `check_key_cache_fill` and
-- `check_key_records_disordered`, which keeps the parsed key of the last record. `simple_key_span` is
-- `rank_simple_key_span`; `unset` is what a cache holds before it is filled.
use Prim.Native.Nat.{ℕ}
use rank.Base.{
  ◌≡◌, refl, ap, ap₂, Bool, not, ◌&&◌, ◌||◌, Option, none, some, List, [], ◌∷◌, ℤ, neg, is_pos,
  is_zero, if◌then◌else◌, Bytes,
}
use rank.Numeric.{NumericValue, rank_numeric_parse, rank_numeric_compare_values}
use rank.Numeric.Long.{
  LongDouble, GeneralValue, rank_general_numeric_parse, rank_general_numeric_compare_values,
  rank_human_numeric_parse, rank_human_numeric_compare_values,
}
use rank.Numeric.Month.{rank_month_parse, rank_month_compare_values}
use rank.Version.{rank_version_compare}
use rank.Key.{
  SortMode, byte, numeric, general_numeric, human_numeric, month, version, random, KeyDef,
}
use rank.Options.{Options}
use rank.Check.{check_compare_bytes}

-- `struct check_key_cache`
pub record KeyCache (L : LongDouble) : Type 1 where
  pub span : Bytes
  pub number : NumericValue
  pub general_number : GeneralValue L
  pub human_number : L.D
  pub month_value : ℕ

module _ (L : LongDouble) (simple_key_span : Bytes → Bytes) where
  unfoldable pub check_key_cache_fill : SortMode → Bytes → KeyCache L → KeyCache L
  check_key_cache_fill mode text unset =
      let span = simple_key_span text in
      elim mode [
        | numeric ↦ record unset { span = span; number = rank_numeric_parse span }
        | general_numeric ↦ record unset {
          span = span;
          general_number = rank_general_numeric_parse L span;
        }
        | human_numeric ↦ record unset {
          span = span;
          human_number = rank_human_numeric_parse L span;
        }
        | month ↦ record unset { span = span; month_value = rank_month_parse span }
        | version ↦ record unset { span = span }
        | random ↦ record unset { span = span }
        | byte ↦ record unset { span = span }
      ]

  -- The `switch` of `check_key_records_disordered`.
  unfoldable pub compare_cached : SortMode → KeyCache L → KeyCache L → ℤ
  unfolding check_compare_bytes
  compare_cached mode prev cur = elim mode [
    | numeric ↦ rank_numeric_compare_values prev.number cur.number
    | general_numeric ↦ rank_general_numeric_compare_values L prev.general_number cur.general_number
    | human_numeric ↦ rank_human_numeric_compare_values L prev.human_number cur.human_number
    | month ↦ rank_month_compare_values prev.month_value cur.month_value
    | version ↦ rank_version_compare prev.span cur.span
    | random ↦ check_compare_bytes prev.span cur.span
    | byte ↦ check_compare_bytes prev.span cur.span
  ]

  -- What follows the `switch`.
  unfoldable pub is_key_disordered : Options → Bool → ℤ → Bytes → Bytes → Bool
  unfolding check_compare_bytes
  is_key_disordered options reverse result previous current =
      let signed = if reverse then neg result else result in
      let texts = check_compare_bytes previous current in
      let last = if options.reverse then neg texts else texts in
      is_pos (if is_zero signed && not (options.stable || options.unique) then last else signed)
      || (options.unique && is_zero signed)

  -- With the cache that is kept: `prev_key`, or `none` where `prev_key_valid` is false.
  unfoldable pub check_key_records_disordered :
      Options
      → KeyDef
      → SortMode
      → KeyCache L
      → Option (KeyCache L)
      → Bytes
      → Bytes
      → Bool × KeyCache L
  unfolding check_key_cache_fill compare_cached is_key_disordered
  check_key_records_disordered options key key_mode unset prev_key previous current =
      let prev : KeyCache L = elim prev_key [
        | none ↦ check_key_cache_fill key_mode previous unset
        | some cache ↦ cache
      ] in
      let cur = check_key_cache_fill key_mode current unset in
      (
        is_key_disordered options key.reverse (compare_cached key_mode prev cur) previous current,
        cur,
      )

  -- The order of the keys, parsed afresh.
  abbrev pub compare_key_texts : SortMode → Bytes → Bytes → ℤ
  compare_key_texts numeric a b =
      rank_numeric_compare_values (rank_numeric_parse (simple_key_span a))
        (rank_numeric_parse (simple_key_span b))
  compare_key_texts general_numeric a b =
      rank_general_numeric_compare_values L (rank_general_numeric_parse L (simple_key_span a))
        (rank_general_numeric_parse L (simple_key_span b))
  compare_key_texts human_numeric a b =
      rank_human_numeric_compare_values L (rank_human_numeric_parse L (simple_key_span a))
        (rank_human_numeric_parse L (simple_key_span b))
  compare_key_texts month a b =
      rank_month_compare_values (rank_month_parse (simple_key_span a))
        (rank_month_parse (simple_key_span b))
  compare_key_texts version a b = rank_version_compare (simple_key_span a) (simple_key_span b)
  compare_key_texts random a b = check_compare_bytes (simple_key_span a) (simple_key_span b)
  compare_key_texts byte a b = check_compare_bytes (simple_key_span a) (simple_key_span b)

  -- A check of a run of records, each with the cache that the one before leaves.
  unfoldable pub check_with_cache :
      Options
      → KeyDef
      → SortMode
      → KeyCache L
      → Option (KeyCache L)
      → Bytes
      → List Bytes
      → List Bool
  unfolding check_key_records_disordered
  check_with_cache options key mode unset prev_key previous [] = []
  check_with_cache options key mode unset prev_key previous (current ∷ records) =
      let (found, cur) =
        check_key_records_disordered options key mode unset prev_key previous current in
      found ∷ check_with_cache options key mode unset (some cur) current records

  unfoldable pub check_afresh : Options → KeyDef → SortMode → Bytes → List Bytes → List Bool
  check_afresh options key mode previous [] = []
  check_afresh options key mode previous (current ∷ records) =
      is_key_disordered options key.reverse (compare_key_texts mode previous current) previous
        current
      ∷ check_afresh options key mode current records

  fill_compare :
      (mode : SortMode) (unset : KeyCache L) (a b : Bytes)
      → compare_cached mode (check_key_cache_fill mode a unset) (check_key_cache_fill mode b unset)
        ≡ compare_key_texts mode a b
  unfolding compare_cached check_key_cache_fill
  fill_compare numeric unset a b = refl
  fill_compare general_numeric unset a b = refl
  fill_compare human_numeric unset a b = refl
  fill_compare month unset a b = refl
  fill_compare version unset a b = refl
  fill_compare random unset a b = refl
  fill_compare byte unset a b = refl

  filled-afresh :
      (options : Options) (key : KeyDef) (mode : SortMode) (unset : KeyCache L) (previous : Bytes)
      (records : List Bytes)
      → check_with_cache options key mode unset
          (some (check_key_cache_fill mode previous unset))
          previous
          records
        ≡ check_afresh options key mode previous records
  unfolding check_with_cache check_afresh check_key_records_disordered
  filled-afresh options key mode unset previous [] = refl
  filled-afresh options key mode unset previous (current ∷ records) =
      ap₂ ◌∷◌
        (ap (λ r. is_key_disordered options key.reverse r previous current)
          (fill_compare mode unset previous current))
        (filled-afresh options key mode unset current records)

  -- The fast check by one key finds each record of a stream in or out of order as it does when the keys of
  -- both records are parsed afresh, whatever the caches hold before they are filled.
  pub check_with_cache-check_afresh :
      (options : Options) (key : KeyDef) (mode : SortMode) (unset : KeyCache L) (previous : Bytes)
      (records : List Bytes)
      → check_with_cache options key mode unset none previous records
        ≡ check_afresh options key mode previous records
  unfolding check_with_cache check_afresh check_key_records_disordered
  check_with_cache-check_afresh options key mode unset previous [] = refl
  check_with_cache-check_afresh options key mode unset previous (current ∷ records) =
      ap₂ ◌∷◌
        (ap (λ r. is_key_disordered options key.reverse r previous current)
          (fill_compare mode unset previous current))
        (filled-afresh options key mode unset current records)
