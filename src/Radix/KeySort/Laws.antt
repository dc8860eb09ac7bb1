-- ===== src/Radix/KeySort/Laws.antt =====
-- `rank_radix_sort_key` of src/radix.c sorts by the keys and the last resort, where nothing is reversed.
use Prim.Native.Nat.{ℕ, ◌+◌}
use mathlib.Core.Path.{subst}
use rank.Base.{
  ◌≡◌, refl, sym, ap, ◌∙◌, Bool, true, false, not, ◌&&◌, ◌||◌, inl, inr, Bool-cases, Option, none,
  some, List, [], ◌∷◌, arith, ℤ, pos, is_zero, All, All-map_imp, IsOrder, IsOrder-on,
  IsOrder-or_else, or_else, or_else-nonpos, Bytes,
}
use rank.Numeric.Long.{LongDouble}
use rank.Key.{KeyDef}
use rank.Options.{Options}
use rank.Line.{Line}
use rank.Cmp.{Caches}
use rank.Locale.Lex.{lex, lex-IsOrder}
use rank.Sort.Stable.{IsLe, Ascends, IsStableSort}
use rank.Sort.Append.{All-IsStableSort}
use rank.Radix.Ranges.{compare_from_depth-lex}
use rank.Radix.Range.Buckets.{IsByte}
use rank.Radix.Range.Laws.{HasBytes, line_radix_range-IsStableSort}
use rank.Radix.Keys.{compare_key_from_depth, key_radix_range}
use rank.Radix.Keys.Laws.{All-reach, key_radix_range-IsStableSort}
use rank.Radix.Groups.{sort_groups, maybe_use_key_range_monotonic}
use rank.Radix.Groups.Laws.{both, IsStableSort-refl, IsStableSort-refine, sort_groups-IsStableSort}
use rank.Radix.Groups.Monotonic.{maybe_use_key_range_monotonic-IsStableSort}
use rank.Radix.KeySort.{
  key_span, compare_key_spans, same_key, last_resort, sort_line_last_resort_groups, sort_by_key,
  sort_next_key_groups,
}

-- The last resort: nothing, or the byte order of the lines.
abbrev pub last_unless : Bool → Line → Line → ℤ
last_unless true a b = pos 0
last_unless false a b = lex a.text b.text

last_unless-IsOrder : (none_last : Bool) → IsOrder (last_unless none_last)
last_unless-IsOrder true = record { flip = λ a b. refl; trans = λ a b c p q. refl }
last_unless-IsOrder false = IsOrder-on (λ (l : Line). l.text) lex-IsOrder

-- A key without `r`.
abbrev pub Plain : KeyDef → Type 0
Plain key = key.reverse ≡ false

module _ (L : LongDouble) (options : Options) (caches : Caches L) where
  abbrev pub span : ℕ → Line → Bytes
  span = key_span L options caches

  abbrev pub key_order : ℕ → Line → Line → ℤ
  key_order k a b = lex (span k a) (span k b)

  abbrev pub last_order : Line → Line → ℤ
  last_order = last_unless (options.stable || options.unique)

  -- The byte order of the keys from the `k`th on, then that of the lines unless `-s` or `-u` is given.
  abbrev pub order_from : List KeyDef → ℕ → Line → Line → ℤ
  order_from [] k a b = last_order a b
  order_from (key ∷ keys) k a b = or_else (key_order k a b) (order_from keys (k + 1) a b)

  pub key_order-IsOrder : (k : ℕ) → IsOrder (key_order k)
  key_order-IsOrder k = IsOrder-on (span k) lex-IsOrder

  pub order_from-IsOrder : (keys : List KeyDef) (k : ℕ) → IsOrder (order_from keys k)
  order_from-IsOrder [] k = last_unless-IsOrder (options.stable || options.unique)
  order_from-IsOrder (key ∷ keys) k =
      IsOrder-or_else (key_order-IsOrder k) (order_from-IsOrder keys (k + 1))

  -- The texts and the keys of a line are bytes.
  abbrev pub LineBytes : Line → Type 0
  LineBytes l = All IsByte l.text × ((k : ℕ) → All IsByte (span k l))

  Ascends-no_last :
      (k : ℕ) (xs : List Line)
      → Ascends (key_order k) xs
      → Ascends (λ a b. or_else (key_order k a b) (pos 0)) xs
  Ascends-no_last k [] s = tt
  Ascends-no_last k (x ∷ xs) (b, s) = (
    All-map_imp (IsLe (key_order k) x) (IsLe (λ a b. or_else (key_order k a b) (pos 0)) x)
        (λ y p. or_else-nonpos (key_order k x y) (pos 0) p refl) xs b,
    Ascends-no_last k xs s,
  )

  -- With `-s` or `-u`, a sort by the last key is one by the order from it on.
  pub only_key :
      (key : KeyDef) (k : ℕ)
      → (options.stable || options.unique) ≡ true
      → {xs ys : List Line} → IsStableSort (key_order k) xs ys
      → IsStableSort (order_from (key ∷ []) k) xs ys
  only_key key k e {xs} {ys} s =
      subst
        (λ none_last.
          IsStableSort (λ a b. or_else (key_order k a b) (last_unless none_last a b)) xs ys)
        (sym e)
        (IsStableSort-refine (key_order k) (last_unless true) s (
          IsStableSort-refl (both (key_order k) (last_unless true)) ys
            (Ascends-no_last k ys s.ascends)))

  compare_key_spans-order :
      (key : KeyDef) (k : ℕ)
      → Plain key
      → (a b : Line) → compare_key_spans L options caches key k a b ≡ key_order k a b
  unfolding compare_key_from_depth
  compare_key_spans-order key k e a b =
      rw e (compare_from_depth-lex 0 (span k a) (span k b) (omega arith) (omega arith))

  pub compare_key_spans_path :
      (key : KeyDef) (k : ℕ) → Plain key → compare_key_spans L options caches key k ≡ key_order k
  compare_key_spans_path key k e = λ i a b. compare_key_spans-order key k e a b i

  pub All-spans : (k : ℕ) (items : List Line) → All LineBytes items → All (HasBytes (span k)) items
  All-spans k items h = All-map_imp LineBytes (HasBytes (span k)) (λ l p. p.1 k) items h

  last_resort-IsStableSort :
      (group : List Line)
      → options.reverse ≡ false
      → (options.stable || options.unique) ≡ false
      → All LineBytes group
      → IsStableSort last_order group (last_resort L options caches group)
  unfolding last_resort
  last_resort-IsStableSort group e n h =
      subst
        (λ none_last.
          IsStableSort (last_unless none_last) group (last_resort L options caches group))
        (sym n)
        (rw (e, last_resort)
          (line_radix_range-IsStableSort 0 group group (All-reach (λ (l : Line). l.text) group)
            (All-map_imp LineBytes (HasBytes (λ (l : Line). l.text)) (λ l p. p.0) group h) refl))

  sort_by_key-IsStableSort :
      (key : KeyDef) (k : ℕ) (group : List Line)
      → Plain key
      → All LineBytes group
      → IsStableSort (key_order k) group (sort_by_key L options caches key k group)
  unfolding sort_by_key
  sort_by_key-IsStableSort key k group e h =
      by_result (maybe_use_key_range_monotonic (compare_key_spans L options caches key k) group)
        refl
    where
      by_result :
          (r : Option (List Line))
          → maybe_use_key_range_monotonic (compare_key_spans L options caches key k) group ≡ r
          → IsStableSort (key_order k) group (elim r as (λ _. List Line) [
            | some sorted ↦ sorted
            | none ↦ key_radix_range (span k) key.reverse 0 group group
          ])
      by_result none q =
          rw e (key_radix_range-IsStableSort (span k) group group (All-spans k group h) refl)
      by_result (some sorted) q =
          maybe_use_key_range_monotonic-IsStableSort (key_order-IsOrder k) group sorted (
            ap (λ c. maybe_use_key_range_monotonic c group) (sym (compare_key_spans_path key k e))
            ∙ q)

  -- Items that ascend by a key are sorted by the later keys and the last resort, group by group.
  pub sort_next_key_groups-IsStableSort :
      (key : KeyDef) (keys : List KeyDef) (k : ℕ) (items : List Line)
      → options.reverse ≡ false
      → All Plain (key ∷ keys)
      → Ascends (key_order k) items
      → All LineBytes items
      → IsStableSort
          (order_from (key ∷ keys) k)
          items
          (sort_next_key_groups L options caches key keys k items)
  unfolding sort_next_key_groups sort_line_last_resort_groups same_key
  sort_next_key_groups-IsStableSort key [] k items r (e, es) s h =
      elim (Bool-cases (options.stable || options.unique)) [
        | inl none_last ↦
            let kept : (not options.stable && not options.unique) ≡ false = ground arith in
            rw (kept, sort_next_key_groups)
              (only_key key k none_last (IsStableSort-refl (key_order k) items s))
        | inr some_last ↦
            let goes : (not options.stable && not options.unique) ≡ true = ground arith in
            rw (goes, sort_next_key_groups)
              (subst
                (λ c.
                  IsStableSort (order_from (key ∷ []) k) items
                    (sort_groups (λ a b. is_zero (c a b)) (last_resort L options caches) items))
                (sym (compare_key_spans_path key k e))
                (sort_groups-IsStableSort (key_order-IsOrder k) (order_from-IsOrder [] (k + 1))
                  LineBytes (last_resort L options caches)
                  (λ g b. last_resort-IsStableSort g r some_last b) items s h))
      ]
  sort_next_key_groups-IsStableSort key (next ∷ keys) k items r (e, (en, es)) s h =
      let sort = λ (g : List Line).
        sort_next_key_groups L options caches next keys (k + 1)
          (sort_by_key L options caches next (k + 1) g) in
      subst
        (λ c.
          IsStableSort (order_from (key ∷ next ∷ keys) k) items
            (sort_groups (λ a b. is_zero (c a b)) sort items))
        (sym (compare_key_spans_path key k e))
        (sort_groups-IsStableSort (key_order-IsOrder k) (order_from-IsOrder (next ∷ keys) (k + 1))
          LineBytes sort
          (λ g b.
            let by_key = sort_by_key-IsStableSort next (k + 1) g en b in
            IsStableSort-refine (key_order (k + 1)) (order_from keys (k + 1 + 1)) by_key (
              sort_next_key_groups-IsStableSort next keys (k + 1)
                (sort_by_key L options caches next (k + 1) g) r (en, es) by_key.ascends
                (All-IsStableSort (key_order-IsOrder (k + 1)) LineBytes by_key b)))
          items s h)
