-- ===== src/Cmp.antt =====
-- src/cmp.c: the scalar comparator. The counters `calls` and `bytes` of the context serve
-- diagnostics alone and are left out.
pub mod Spans
use Prim.Native.Nat.{ℕ, zero, suc, ◌+◌}
use rank.Base.{
  Bool, true, false, not, ◌&&◌, ◌||◌, Option, none, some, List, [], ◌∷◌, ℤ, pos, negsuc, neg,
  is_zero, is_neg, sub_ℕ, three_way, unit_sign, ltb, ◌==◌, if◌then◌else◌, length, drop, Bytes,
}
use rank.Locale.{memcmp, Locale, rank_locale_compare}
use rank.Numeric.{NumericValue, rank_numeric_compare_values}
use rank.Numeric.Long.{
  LongDouble, GeneralValue, rank_general_numeric_compare_values, rank_human_numeric_compare_values,
}
use rank.Numeric.Month.{rank_month_compare_values}
use rank.Version.{rank_version_compare}
use rank.Key.{
  SortMode, byte, numeric, general_numeric, human_numeric, month, version, random, KeyDef,
}
use rank.Options.{Options, is_byte}
use rank.Line.{Line, filtered_keep, filtered_fold, rank_scan_nonblank}

-- `struct rank_transformed_span`, with the bytes in place of the pointer.
pub record TransformedSpan : Type 0 where
  pub bytes : Bytes
  pub valid : Bool

-- `struct rank_md5_digest`: an array of 16 bytes.
abbrev pub Digest : Type 0
Digest = ℕ → ℕ

-- The arrays of `struct rank_lines` that the comparator reads, by index; an array that is not
-- allocated is `none`. Their other entries are never read.
pub record Caches (L : LongDouble) : Type 1 where
  pub line_transforms : Option (ℕ → TransformedSpan)
  pub key_transforms : Option (ℕ → TransformedSpan)
  pub key_spans : ℕ → Bytes
  pub line_numbers : ℕ → NumericValue
  pub key_numbers : ℕ → NumericValue
  pub line_general_numbers : ℕ → GeneralValue L
  pub key_general_numbers : ℕ → GeneralValue L
  pub line_human_numbers : ℕ → L.D
  pub key_human_numbers : ℕ → L.D
  pub line_months : ℕ → ℕ
  pub key_months : ℕ → ℕ
  pub line_random : ℕ → Digest
  pub key_random : ℕ → Digest

-- `memcmp` over the bytes of two digests, `n` of them from index `i` on.
unfoldable pub memcmp_digest : ℕ → ℕ → Digest → Digest → ℤ
memcmp_digest zero i a b = pos 0
memcmp_digest (suc n) i a b =
    let rest = memcmp_digest n (i + 1) a b in if a i == b i then rest else sub_ℕ (a i) (b i)

unfoldable pub compare_random : Digest → Digest → ℤ
compare_random a b =
    let result = memcmp_digest 16 0 a b in if is_zero result then pos 0 else unit_sign result

-- The same text as `compare_bytes` of src/locale.c, of two transformed spans.
unfoldable pub compare_transformed_spans : TransformedSpan → TransformedSpan → ℤ
unfolding memcmp
compare_transformed_spans a b =
    let common = if ltb (length a.bytes) (length b.bytes) then length a.bytes else length b.bytes in
    let result = memcmp common a.bytes b.bytes in
    let by_len = three_way (length a.bytes) (length b.bytes) in
    if ltb 0 common then (if is_zero result then by_len else unit_sign result) else by_len

-- `while (pos < len && !keep(text[pos])) pos++`
unfoldable pub skip_dropped : Bool → Bool → Bytes → Bytes
skip_dropped d i [] = []
skip_dropped d i (c ∷ text) = if filtered_keep d i c then c ∷ text else skip_dropped d i text

-- What the loop of `compare_modified_spans` does behind the skipping: the end tests or the next
-- bytes. `go` is the next round.
abbrev pub modified_round : Bool → Bytes → Bytes → (Bytes → Bytes → ℤ) → ℤ
modified_round f [] [] go = pos 0
modified_round f [] (y ∷ b) go = negsuc 0
modified_round f (x ∷ a) [] go = pos 1
modified_round f (x ∷ a) (y ∷ b) go =
    let rest = go a b in
    if ltb (filtered_fold f x) (filtered_fold f y)
    then negsuc 0
    else if ltb (filtered_fold f y) (filtered_fold f x)
    then pos 1
    else rest

-- The loop; each round passes a byte of `a`, so its length bounds the rounds.
unfoldable pub modified_loop : ℕ → Bool → Bool → Bool → Bytes → Bytes → ℤ
unfolding skip_dropped
modified_loop zero f d i a b =
    modified_round f (skip_dropped d i a) (skip_dropped d i b) (λ _ _. pos 0)
modified_loop (suc fuel) f d i a b =
    modified_round f (skip_dropped d i a) (skip_dropped d i b) (modified_loop fuel f d i)

abbrev pub skip_leading : Bytes → Bytes
skip_leading text = drop (rank_scan_nonblank text) text

module _ (loc : Locale) where
  -- `compare_modified_spans` behind its choice of modifiers and its skip of leading blanks.
  unfoldable pub compare_with : Bool → Bool → Bool → Bytes → Bytes → ℤ
  unfolding modified_loop
  compare_with f d i a b =
      if not f && not d && not i
      then rank_locale_compare loc a b
      else modified_loop (length a) f d i a b

  -- `key` is `none` for whole lines; a key's span has lost its leading blanks already.
  unfoldable pub compare_modified_spans : Options → Bytes → Bytes → Option KeyDef → ℤ
  unfolding compare_with rank_scan_nonblank
  compare_modified_spans options a b (some key) =
      compare_with key.ignore_case key.dictionary_order key.ignore_nonprinting a b
  compare_modified_spans options a b none =
      let skip = length options.keys == 0 && options.ignore_leading_blanks in
      compare_with options.ignore_case options.dictionary_order options.ignore_nonprinting
        (if skip then skip_leading a else a) (if skip then skip_leading b else b)

  -- Transformed spans, if both lines have valid ones, else the given comparison.
  abbrev pub by_transforms : Option (ℕ → TransformedSpan) → ℕ → ℕ → ℤ → ℤ
  by_transforms none i j other = other
  by_transforms (some transforms) i j other =
      if (transforms i).valid && (transforms j).valid
      then compare_transformed_spans (transforms i) (transforms j)
      else other

module _ (L : LongDouble) (loc : Locale) (options : Options) (lines : Caches L) where
  unfoldable pub rank_compare_lines_ascending : Line → Line → ℤ
  rank_compare_lines_ascending a b =
      let text = compare_modified_spans loc options a.text b.text none in
      elim options.sort_mode [
        | numeric ↦
            rank_numeric_compare_values (lines.line_numbers a.ordinal)
              (lines.line_numbers b.ordinal)
        | general_numeric ↦
            rank_general_numeric_compare_values L (lines.line_general_numbers a.ordinal)
              (lines.line_general_numbers b.ordinal)
        | human_numeric ↦
            rank_human_numeric_compare_values L (lines.line_human_numbers a.ordinal)
              (lines.line_human_numbers b.ordinal)
        | month ↦
            rank_month_compare_values (lines.line_months a.ordinal) (lines.line_months b.ordinal)
        | version ↦
            if options.ignore_leading_blanks
            then rank_version_compare (skip_leading a.text) (skip_leading b.text)
            else rank_version_compare a.text b.text
        | random ↦
            let result =
              compare_random (lines.line_random a.ordinal) (lines.line_random b.ordinal) in
            if is_zero result then text else result
        | byte ↦ by_transforms loc lines.line_transforms a.ordinal b.ordinal text
      ]

  -- One key of the loop of `compare_keys`, key `k` of the line.
  unfoldable pub compare_key : KeyDef → ℕ → Line → Line → ℤ
  compare_key key k a b =
      let i = a.key_index + k in
      let j = b.key_index + k in
      let spans =
        compare_modified_spans loc options (lines.key_spans i) (lines.key_spans j) (some key) in
      elim key.sort_mode [
        | numeric ↦ rank_numeric_compare_values (lines.key_numbers i) (lines.key_numbers j)
        | general_numeric ↦
            rank_general_numeric_compare_values L (lines.key_general_numbers i)
              (lines.key_general_numbers j)
        | human_numeric ↦
            rank_human_numeric_compare_values L (lines.key_human_numbers i)
              (lines.key_human_numbers j)
        | month ↦ rank_month_compare_values (lines.key_months i) (lines.key_months j)
        | version ↦ rank_version_compare (lines.key_spans i) (lines.key_spans j)
        | random ↦
            let result = compare_random (lines.key_random i) (lines.key_random j) in
            if is_zero result then spans else result
        | byte ↦ by_transforms loc lines.key_transforms i j spans
      ]

  -- The loop over the keys, from key `k` on.
  unfoldable pub compare_keys : List KeyDef → ℕ → Line → Line → ℤ
  unfolding compare_key
  compare_keys [] k a b = pos 0
  compare_keys (key ∷ keys) k a b =
      let result = compare_key key k a b in
      let signed = if key.reverse then neg result else result in
      let rest = compare_keys keys (k + 1) a b in if is_zero signed then rest else signed

  unfoldable pub compare_lines_last_resort : Line → Line → ℤ
  compare_lines_last_resort a b =
      by_transforms loc lines.line_transforms a.ordinal b.ordinal
        (rank_locale_compare loc a.text b.text)

  -- The whole line as a last resort, where no key is given.
  abbrev pub wants_last_resort : Bool
  wants_last_resort =
      (not (is_byte options.sort_mode)
        || options.ignore_case
        || options.dictionary_order
        || options.ignore_nonprinting
        || options.ignore_leading_blanks)
      && not (options.stable || options.unique)

  unfoldable pub rank_compare_lines : Line → Line → ℤ
  unfolding rank_compare_lines_ascending compare_keys compare_lines_last_resort
  rank_compare_lines a b =
      let first = rank_compare_lines_ascending a b in
      let result =
        if is_zero first && wants_last_resort
        then rank_locale_compare loc a.text b.text
        else first in
      let by_keys = compare_keys options.keys 0 a b in
      let last = compare_lines_last_resort a b in
      if length options.keys == 0
      then (if options.reverse then neg result else result)
      else if not (is_zero by_keys) || options.stable || options.unique
      then by_keys
      else if options.reverse
      then neg last
      else last

  unfoldable pub rank_compare_unique : Line → Line → ℤ
  unfolding rank_compare_lines_ascending compare_keys
  rank_compare_unique a b =
      if ltb 0 (length options.keys)
      then compare_keys options.keys 0 a b
      else rank_compare_lines_ascending a b
