-- ===== src/Radix/KeySort.antt =====
-- `rank_radix_sort_key` of src/radix.c: the radix sort by the first key, then group by group by the later
-- keys and, as the last resort, by the lines. One thread; the statistics are left out.
pub mod Laws
pub mod Whole
pub mod Refines
use Prim.Native.Nat.{ℕ, zero, suc, ◌+◌}
use rank.Base.{
  Bool, true, false, not, ◌&&◌, ◌||◌, Option, none, some, List, [], ◌∷◌, ℤ, is_zero, leb, ◌==◌,
  if◌then◌else◌, length, Bytes,
}
use rank.Numeric.Long.{LongDouble}
use rank.Key.{KeyDef}
use rank.Options.{Options}
use rank.Line.{Line}
use rank.Cmp.{Caches}
use rank.Records.{Lines, reverse_output}
use rank.Radix.Range.{line_radix_range}
use rank.Radix.Keys.{compare_key_from_depth, key_radix_range}
use rank.Radix.Groups.{sort_groups, reverse_line_range, is_monotonic, maybe_use_key_range_monotonic}

module _ (L : LongDouble) (options : Options) (caches : Caches L) where
  -- `rank_line_key_span`
  abbrev pub key_span : ℕ → Line → Bytes
  key_span key_id line = caches.key_spans (line.key_index + key_id)

  -- `compare_key_from_depth` of a key from its first byte on.
  abbrev pub compare_key_spans : KeyDef → ℕ → Line → Line → ℤ
  compare_key_spans key key_id a b =
      compare_key_from_depth key.reverse 0 (key_span key_id a) (key_span key_id b)

  unfoldable pub same_key : KeyDef → ℕ → Line → Line → Bool
  unfolding compare_key_from_depth
  same_key key key_id a b = is_zero (compare_key_spans key key_id a b)

  -- What the loop of `sort_line_last_resort_groups` does with a group.
  unfoldable pub last_resort : List Line → List Line
  unfolding line_radix_range reverse_line_range
  last_resort group =
      let sorted = line_radix_range 0 group group in
      if options.reverse then reverse_line_range (length sorted) sorted else sorted

  unfoldable pub sort_line_last_resort_groups : KeyDef → ℕ → List Line → List Line
  unfolding sort_groups same_key last_resort
  sort_line_last_resort_groups key key_id items =
      sort_groups (same_key key key_id) last_resort items

  -- What `sort_next_key_groups` does first with a group.
  unfoldable pub sort_by_key : KeyDef → ℕ → List Line → List Line
  unfolding maybe_use_key_range_monotonic key_radix_range compare_key_from_depth
  sort_by_key key key_id group =
      elim (maybe_use_key_range_monotonic (compare_key_spans key key_id) group) [
        | some sorted ↦ sorted
        | none ↦ key_radix_range (key_span key_id) key.reverse 0 group group
      ]

  -- `sort_next_key_groups` with the tests of its callers: the keys behind `key`, or where there are
  -- none the last resort.
  unfoldable pub sort_next_key_groups : KeyDef → List KeyDef → ℕ → List Line → List Line
  unfolding sort_groups same_key sort_by_key sort_line_last_resort_groups
  sort_next_key_groups key [] key_id items =
      if not options.stable && not options.unique
      then sort_line_last_resort_groups key key_id items
      else items
  sort_next_key_groups key (next ∷ keys) key_id items =
      sort_groups (same_key key key_id)
        (λ group. sort_next_key_groups next keys (key_id + 1) (sort_by_key next (key_id + 1) group))
        items

  -- `none` is the return of `false`.
  unfoldable pub maybe_use_key_monotonic : KeyDef → Lines → Option Lines
  unfolding is_monotonic compare_key_from_depth
  maybe_use_key_monotonic key lines =
      if not options.stable || options.unique || not (length options.keys == 1)
      then none
      else elim (is_monotonic (compare_key_spans key 0) lines.items) [
        | none ↦ none
        | some true ↦ some (reverse_output lines)
        | some false ↦ some lines
      ]

  -- `rank_radix_sort_key` on two lines or more, where `key` is the first key.
  unfoldable pub sort_by_keys : KeyDef → List KeyDef → Lines → List Line → Lines
  unfolding maybe_use_key_monotonic key_radix_range sort_next_key_groups
  sort_by_keys key keys lines aux = elim (maybe_use_key_monotonic key lines) [
    | some done ↦ done
    | none ↦ record lines {
      items =
          sort_next_key_groups key keys 0
            (key_radix_range (key_span 0) key.reverse 0 lines.items aux);
    }
  ]

  -- `aux` is the fresh array, whatever it holds. Without keys the function is not called.
  unfoldable pub rank_radix_sort_key : Lines → List Line → Lines
  unfolding sort_by_keys
  rank_radix_sort_key lines aux =
      if leb (length lines.items) 1
      then lines
      else elim options.keys [ [] ↦ lines | key ∷ keys ↦ sort_by_keys key keys lines aux ]
