-- ===== src/Radix/KeySort/Whole.antt =====
-- `maybe_use_key_monotonic` and the whole of `rank_radix_sort_key` of src/radix.c sort by the keys.
use Prim.Native.Nat.{suc}
use mathlib.Core.Path.{subst}
use rank.Base.{
  ◌≡◌, refl, sym, ap, ◌∙◌, Bool, true, false, not, ◌||◌, Option, none, some, List, [], ◌∷◌, arith,
  ◌==◌, if◌then◌else◌, length, All,
}
use rank.Numeric.Long.{LongDouble}
use rank.Key.{KeyDef}
use rank.Options.{Options}
use rank.Line.{Line}
use rank.Cmp.{Caches}
use rank.Sort.Stable.{IsStableSort}
use rank.Sort.Append.{All-IsStableSort}
use rank.Sort.Reverse.{reverse, reverse-IsStableSort}
use rank.Records.{Lines, reverse_output}
use rank.Records.Turned.{output}
use rank.Radix.Keys.{key_radix_range}
use rank.Radix.Keys.Laws.{key_radix_range-IsStableSort}
use rank.Radix.Groups.{is_monotonic}
use rank.Radix.Groups.Laws.{IsStableSort-refl, IsStableSort-refine}
use rank.Radix.Groups.Monotonic.{is_monotonic-Descends, is_monotonic-Ascends}
use rank.Radix.KeySort.{
  compare_key_spans, sort_next_key_groups, maybe_use_key_monotonic, sort_by_keys,
}
use rank.Radix.KeySort.Laws.{
  Plain, span, key_order, key_order-IsOrder, order_from, LineBytes, compare_key_spans_path,
  only_key, All-spans, sort_next_key_groups-IsStableSort,
}

module _ (L : LongDouble) (options : Options) (caches : Caches L) where
  length-nil : (keys : List KeyDef) → length keys ≡ 0 → keys ≡ []
  length-nil [] e = refl
  length-nil (key ∷ keys) e = absurd (omega arith)

  some_inj : {a b : Lines} → some a ≡ some b → a ≡ b
  some_inj e = cc

  monotonic_done :
      (key : KeyDef) (keys : List KeyDef) (lines done : Lines)
      → keys ≡ []
      → (options.stable || options.unique) ≡ true
      → IsStableSort (key_order L options caches 0) lines.items (output done)
      → IsStableSort (order_from L options caches (key ∷ keys) 0) lines.items (output done)
  monotonic_done key keys lines done k t s =
      subst
        (λ rest.
          IsStableSort (order_from L options caches (key ∷ rest) 0) lines.items (output done))
        (sym k) (only_key L options caches key 0 t s)

  -- A `true` of `maybe_use_key_monotonic`.
  maybe_use_key_monotonic-IsStableSort :
      (key : KeyDef) (keys : List KeyDef) (lines done : Lines)
      → options.keys ≡ key ∷ keys
      → Plain key
      → lines.output_reversed ≡ false
      → maybe_use_key_monotonic L options caches key lines ≡ some done
      → IsStableSort (order_from L options caches (key ∷ keys) 0) lines.items (output done)
  unfolding maybe_use_key_monotonic
  maybe_use_key_monotonic-IsStableSort key keys lines done e p out h =
      by_test (not options.stable || options.unique || not (length options.keys == 1)) refl h
    where
      by_result :
          (r : Option Bool)
          → keys ≡ []
          → (options.stable || options.unique) ≡ true
          → is_monotonic (compare_key_spans L options caches key 0) lines.items ≡ r
          → elim r as (λ _. Option Lines) [
            | none ↦ none
            | some true ↦ some (reverse_output lines)
            | some false ↦ some lines
          ]
            ≡ some done
          → IsStableSort (order_from L options caches (key ∷ keys) 0) lines.items (output done)
      by_result none k t m q = absurd (cc)
      by_result (some true) k t m q = monotonic_done key keys lines done k t (
          subst (λ d. IsStableSort (key_order L options caches 0) lines.items (output d))
            (some_inj q)
            (subst
              (λ b.
                IsStableSort (key_order L options caches 0) lines.items
                  (if not b then reverse lines.items else lines.items))
              (sym out)
              (reverse-IsStableSort (key_order-IsOrder L options caches 0) lines.items (
                is_monotonic-Descends (key_order-IsOrder L options caches 0) lines.items (
                  ap (λ c. is_monotonic c lines.items)
                    (sym (compare_key_spans_path L options caches key 0 p))
                  ∙ m)))))
      by_result (some false) k t m q = monotonic_done key keys lines done k t (
          subst (λ d. IsStableSort (key_order L options caches 0) lines.items (output d))
            (some_inj q)
            (subst
              (λ b.
                IsStableSort (key_order L options caches 0) lines.items
                  (if b then reverse lines.items else lines.items))
              (sym out)
              (IsStableSort-refl (key_order L options caches 0) lines.items (
                is_monotonic-Ascends (key_order-IsOrder L options caches 0) lines.items (
                  ap (λ c. is_monotonic c lines.items)
                    (sym (compare_key_spans_path L options caches key 0 p))
                  ∙ m)))))

      by_test :
          (t : Bool)
          → (not options.stable || options.unique || not (length options.keys == 1)) ≡ t
          → (if t
              then none
              else elim (is_monotonic (compare_key_spans L options caches key 0) lines.items)
                  as (λ _. Option Lines) [
                    | none ↦ none
                    | some true ↦ some (reverse_output lines)
                    | some false ↦ some lines
                  ])
            ≡ some done
          → IsStableSort (order_from L options caches (key ∷ keys) 0) lines.items (output done)
      by_test true k q = absurd (cc)
      by_test false k q =
          let count : length options.keys ≡ suc (length keys) = ap length e in
          by_result (is_monotonic (compare_key_spans L options caches key 0) lines.items)
            (length-nil keys (ground (arith, count))) (ground arith) refl q

  pub sort_by_keys-IsStableSort :
      (key : KeyDef) (keys : List KeyDef) (lines : Lines) (aux : List Line)
      → options.keys ≡ key ∷ keys
      → options.reverse ≡ false
      → All Plain (key ∷ keys)
      → All (LineBytes L options caches) lines.items
      → length aux ≡ length lines.items
      → lines.output_reversed ≡ false
      → IsStableSort
          (order_from L options caches (key ∷ keys) 0)
          lines.items
          (output (sort_by_keys L options caches key keys lines aux))
  unfolding sort_by_keys
  sort_by_keys-IsStableSort key keys lines aux e r (p, ps) h len out =
      by_result (maybe_use_key_monotonic L options caches key lines) refl
    where
      by_result :
          (m : Option Lines)
          → maybe_use_key_monotonic L options caches key lines ≡ m
          → IsStableSort (order_from L options caches (key ∷ keys) 0) lines.items (
              output (elim m as (λ _. Lines) [
                | some done ↦ done
                | none ↦ record lines {
                  items =
                      sort_next_key_groups L options caches key keys 0
                        (key_radix_range (span L options caches 0) key.reverse 0 lines.items aux);
                }
              ]))
      by_result (some done) q = maybe_use_key_monotonic-IsStableSort key keys lines done e p out q
      by_result none q =
          let sorted = key_radix_range (span L options caches 0) key.reverse 0 lines.items aux in
          let by_key : IsStableSort (key_order L options caches 0) lines.items sorted =
            subst
              (λ b.
                IsStableSort (key_order L options caches 0) lines.items
                  (key_radix_range (span L options caches 0) b 0 lines.items aux))
              (sym p)
              (key_radix_range-IsStableSort (span L options caches 0) lines.items aux
                (All-spans L options caches 0 lines.items h) len) in
          let grouped = sort_next_key_groups L options caches key keys 0 sorted in
          subst
            (λ b.
              IsStableSort (order_from L options caches (key ∷ keys) 0) lines.items
                (if b then reverse grouped else grouped))
            (sym out)
            (IsStableSort-refine (key_order L options caches 0) (order_from L options caches keys 1)
              by_key
              (sort_next_key_groups-IsStableSort L options caches key keys 0 sorted r (p, ps)
                by_key.ascends
                (All-IsStableSort (key_order-IsOrder L options caches 0)
                  (LineBytes L options caches) by_key h)))
