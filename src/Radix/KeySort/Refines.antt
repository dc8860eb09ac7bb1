-- ===== src/Radix/KeySort/Refines.antt =====
-- The key radix sort of src/radix.c and the merge sort of src/sort.c with the comparator of src/cmp.c.
use Prim.Native.Nat.{ℕ, ◌+◌}
use mathlib.Core.Path.{subst}
use rank.Base.{
  ◌≡◌, refl, sym, ap, ◌∙◌, Bool, true, false, ◌||◌, none, List, [], ◌∷◌, arith, ℤ, pos, neg, leb,
  if◌then◌else◌, length, All, or_else,
}
use rank.Numeric.Long.{LongDouble}
use rank.Key.{KeyDef}
use rank.Options.{Options}
use rank.Line.{Line}
use rank.Locale.{Locale}
use rank.Locale.Lex.{lex}
use rank.Cmp.{Caches, rank_compare_lines}
use rank.Plan.{rank_plan_from_options, radix_keys}
use rank.Plan.Keys.{span_order, rank_plan_from_options-keys}
use rank.Records.{Lines}
use rank.Records.Turned.{output}
use rank.Sort.Stable.{IsStableSort}
use rank.Sort.Reverse.{reverse}
use rank.Sort.Unique.{IsStableSort-unique}
use rank.Sort.Scalar.{scalar_sort}
use rank.Sort.Scalar.Laws.{scalar_sort-IsStableSort}
use rank.Radix.Groups.Laws.{IsStableSort-refl}
use rank.Radix.KeySort.{sort_by_keys, rank_radix_sort_key}
use rank.Radix.KeySort.Laws.{last_unless, order_from, order_from-IsOrder, LineBytes, Plain}
use rank.Radix.KeySort.Whole.{sort_by_keys-IsStableSort}

module _ (L : LongDouble) (options : Options) (caches : Caches L) where
  few-IsStableSort :
      (c : Line → Line → ℤ) (items : List Line)
      → leb (length items) 1 ≡ true
      → (b : Bool) → IsStableSort c items (if b then reverse items else items)
  few-IsStableSort c [] h true = IsStableSort-refl c [] tt
  few-IsStableSort c [] h false = IsStableSort-refl c [] tt
  few-IsStableSort c (x ∷ []) h true = IsStableSort-refl c (x ∷ []) (tt, tt)
  few-IsStableSort c (x ∷ []) h false = IsStableSort-refl c (x ∷ []) (tt, tt)
  few-IsStableSort c (x ∷ y ∷ items) h b = absurd (ground arith)

  -- On lines and keys of bytes whose output is not reversed yet, if no key has `r` and `-r` is not given,
  -- the output order that `rank_radix_sort_key` leaves, whatever the fresh array of their number holds,
  -- is a stable sort of the lines by the bytes of the keys in turn and then, unless `-s` or `-u` is
  -- given, by the bytes of the lines.
  pub rank_radix_sort_key-IsStableSort :
      (lines : Lines) (aux : List Line) (key : KeyDef) (keys : List KeyDef)
      → options.keys ≡ key ∷ keys
      → options.reverse ≡ false
      → All Plain (key ∷ keys)
      → All (LineBytes L options caches) lines.items
      → length aux ≡ length lines.items
      → lines.output_reversed ≡ false
      → IsStableSort
          (order_from L options caches (key ∷ keys) 0)
          lines.items
          (output (rank_radix_sort_key L options caches lines aux))
  unfolding rank_radix_sort_key
  rank_radix_sort_key-IsStableSort lines aux key keys e r p h len out =
      by_length (leb (length lines.items) 1) refl
    where
      by_length :
          (few : Bool)
          → leb (length lines.items) 1 ≡ few
          → IsStableSort (order_from L options caches (key ∷ keys) 0) lines.items (
              output (
                if few then lines else elim options.keys as (λ _. Lines) [
                  | [] ↦ lines
                  | key' ∷ keys' ↦ sort_by_keys L options caches key' keys' lines aux
                ]))
      by_length true few =
          few-IsStableSort (order_from L options caches (key ∷ keys) 0) lines.items few
            lines.output_reversed
      by_length false many =
          subst
            (λ all. IsStableSort (order_from L options caches (key ∷ keys) 0) lines.items (
              output (elim all as (λ _. Lines) [
                | [] ↦ lines
                | key' ∷ keys' ↦ sort_by_keys L options caches key' keys' lines aux
              ])))
            (sym e) (sort_by_keys-IsStableSort L options caches key keys lines aux e r p h len out)

module _ (L : LongDouble) (loc : Locale) (options : Options) (caches : Caches L) where
  order_from-span_order :
      (keys : List KeyDef) (k : ℕ) (a b : Line)
      → All Plain keys
      → options.reverse ≡ false
      → or_else (span_order L loc options caches keys k a b) (
          if options.stable || options.unique
          then pos 0
          else if options.reverse
          then neg (lex a.text b.text)
          else lex a.text b.text)
        ≡ order_from L options caches keys k a b
  unfolding span_order
  order_from-span_order [] k a b p r = by_last (options.stable || options.unique) options.reverse r
    where
      by_last :
          (none_last reversed : Bool)
          → reversed ≡ false
          → (if none_last
              then pos 0
              else if reversed
              then neg (lex a.text b.text)
              else lex a.text b.text)
            ≡ last_unless none_last a b
      by_last true reversed e = refl
      by_last false reversed e = ground arith
  order_from-span_order (key ∷ keys) k a b (p, ps) r =
      ground (arith, order_from-span_order keys (k + 1) a b ps r)

  -- On lines and keys of bytes whose output is not reversed yet, where the plan is RADIX_KEYS, no key has
  -- `r`, `-r` is not given and no line or key has a transform, `rank_radix_sort_key` with any fresh array
  -- of their number leaves the very lines, in the same output order, that the merge sort with the
  -- comparator `rank_compare_lines` returns.
  pub rank_radix_sort_key-scalar_sort :
      (forced : Bool) (lines : Lines) (aux : List Line) (key : KeyDef) (keys : List KeyDef)
      → (rank_plan_from_options forced loc.identity options).kind ≡ radix_keys
      → caches.line_transforms ≡ none
      → caches.key_transforms ≡ none
      → options.keys ≡ key ∷ keys
      → options.reverse ≡ false
      → All Plain (key ∷ keys)
      → All (LineBytes L options caches) lines.items
      → length aux ≡ length lines.items
      → lines.output_reversed ≡ false
      → output (rank_radix_sort_key L options caches lines aux)
        ≡ scalar_sort (rank_compare_lines L loc options caches) lines.items
  rank_radix_sort_key-scalar_sort forced lines aux key keys plan lt kt e r p h len out =
      let order = order_from L options caches (key ∷ keys) 0 in
      let o = order_from-IsOrder L options caches (key ∷ keys) 0 in
      let same : rank_compare_lines L loc options caches ≡ order = λ i a b.
        (rank_plan_from_options-keys L loc options caches forced plan lt kt a b
            ∙ ap
                (λ all. or_else (span_order L loc options caches all 0 a b) (
                  if options.stable || options.unique
                  then pos 0
                  else if options.reverse
                  then neg (lex a.text b.text)
                  else lex a.text b.text))
                e
            ∙ order_from-span_order (key ∷ keys) 0 a b p r)
          i in
      IsStableSort-unique o
        (rank_radix_sort_key-IsStableSort L options caches lines aux key keys e r p h len out)
        (scalar_sort-IsStableSort o lines.items)
      ∙ ap (λ c. scalar_sort c lines.items) (sym same)
