-- ===== src/Records.antt =====
-- Records as src/line.c adds them to `struct rank_lines`, the track of monotonic input that it keeps,
-- and the output order of src/sort.c.
pub mod Monotonic
pub mod Turned
pub mod Output
use Prim.Native.Nat.{ℕ, zero, suc, ◌+◌, ◌-◌}
use rank.Base.{
  Bool, true, false, not, ◌&&◌, ◌||◌, Option, none, some, List, [], ◌∷◌, ◌++◌, ℤ, pos, negsuc,
  is_zero, is_neg, is_pos, unit_sign, three_way, ltb, ◌==◌, if◌then◌else◌, length, get_elem?, Bytes,
}
use rank.Locale.{memcmp}
use rank.Line.{Line}

-- The fields of `struct rank_lines` that reading and output use, less the buffers; `len` is the length
-- of `items`.
pub record Lines : Type 0 where
  pub items : List Line
  pub output_reversed : Bool
  pub monotonic_valid : Bool
  pub monotonic_direction : ℤ

-- `rank_lines_init`
abbrev pub no_lines : Lines
no_lines = record {
  items = [];
  output_reversed = false;
  monotonic_valid = true;
  monotonic_direction = pos 0;
}

-- The same text as `compare_bytes` of src/locale.c.
unfoldable pub compare_data_spans : Bytes → Bytes → ℤ
unfolding memcmp
compare_data_spans a b =
    let common = if ltb (length a) (length b) then length a else length b in
    let result = memcmp common a b in
    let by_len = three_way (length a) (length b) in
    if ltb 0 common then (if is_zero result then by_len else unit_sign result) else by_len

-- `&lines->items[lines->len - 1]`; `none` where there is no line.
abbrev pub previous : List Line → Option Line
previous [] = none
previous (l ∷ []) = some l
previous (l ∷ m ∷ items) = previous (m ∷ items)

-- What `update_monotonic` does with the difference from the previous line.
unfoldable pub track : Lines → ℤ → Lines
track lines cmp =
    if is_zero cmp
    then lines
    else if is_zero lines.monotonic_direction
    then record lines { monotonic_direction = if is_neg cmp then negsuc 0 else pos 1 }
    else if (is_neg lines.monotonic_direction && is_pos cmp)
        || (is_pos lines.monotonic_direction && is_neg cmp)
    then record lines { monotonic_valid = false }
    else lines

unfoldable pub update_monotonic : Lines → Bytes → Lines
unfolding track compare_data_spans
update_monotonic lines text =
    if lines.monotonic_valid
    then elim (previous lines.items) [
      | none ↦ lines
      | some line ↦ track lines (compare_data_spans line.text text)
    ]
    else lines

abbrev pub append_line : Lines → Bytes → Lines
append_line lines text = record lines {
  items = lines.items ++ (record { text = text; ordinal = length lines.items; key_index = 0 } ∷ []);
}

unfoldable pub add_line : Lines → Bytes → Lines
unfolding update_monotonic
add_line lines text = append_line (update_monotonic lines text) text

-- The records of the input, one by one.
unfoldable pub add_lines : Lines → List Bytes → Lines
unfolding add_line
add_lines lines [] = lines
add_lines lines (text ∷ texts) = add_lines (add_line lines text) texts

abbrev pub reverse_output : Lines → Lines
reverse_output lines = record lines { output_reversed = not lines.output_reversed }

-- `maybe_use_monotonic_run`: `none` is `false`. `reverse` is `options->reverse`.
unfoldable pub maybe_use_monotonic_run : Bool → Lines → Option Lines
maybe_use_monotonic_run reverse lines =
    let direction = lines.monotonic_direction in
    if lines.monotonic_valid
    then some (
        if (is_neg direction && reverse) || (is_pos direction && not reverse)
        then reverse_output lines
        else lines)
    else none

unfoldable pub output_line_at : Lines → ℕ → Option Line
output_line_at lines index =
    if lines.output_reversed
    then get_elem? lines.items (length lines.items - 1 - index)
    else get_elem? lines.items index
