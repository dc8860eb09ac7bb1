-- ===== src/Output/Distinct/Laws.antt =====
-- The filter of `-u` in `rank_output_lines` of src/output.c keeps the first line of each class.
use rank.Base.{
  ◌≡◌, ◌∙◌, true, false, inl, inr, Bool-cases, none, some, List, [], ◌∷◌, arith, ℤ, is_pos, is_zero,
  if◌then◌else◌, take, All, All-map_imp, IsOrder, cmp_zero_trans, cmp_zero_sym, keep_none, keep-nil,
  keep-cons,
}
use rank.Sort.Stable.{IsLe, Ascends, class}
use rank.Output.Distinct.{distinct_lines}

module _ {ℓ} {A : Type ℓ} {c : A → A → ℤ} (o : IsOrder c) where
  class_above :
      (v p x : A) (lines : List A)
      → is_zero (c v p) ≡ true
      → is_zero (c p x) ≡ false
      → is_pos (c p x) ≡ false
      → All (IsLe c x) lines
      → class c v lines ≡ []
  class_above v p x lines z n le h =
      keep_none (λ y. is_zero (c v y)) lines
        (All-map_imp (IsLe c x) (λ y. is_zero (c v y) ≡ false)
          (λ y k. ground (
            arith,
            o.flip p x,
            o.flip x p,
            o.flip v p,
            o.flip p v,
            o.flip v y,
            o.flip y v,
            o.flip x y,
            o.flip y p,
            o.flip p y,
            o.trans x y p,
            o.trans y v p,
            o.trans p v y,
          ))
          lines h)

  class-behind :
      (v p : A) (lines : List A)
      → Ascends c (p ∷ lines)
      → class c v (distinct_lines true c (some p) lines)
        ≡ (if is_zero (c v p) then [] else take 1 (class c v lines))
  unfolding distinct_lines
  class-behind v p [] s = ground (arith, keep-nil (λ y. is_zero (c v y)))
  class-behind v p (x ∷ lines) ((le, b), (b', s)) = elim (Bool-cases (is_zero (c p x))) [
    | inl same ↦
        rw (same, distinct_lines)
          (class-behind v p lines (b, s)
            ∙ ground (
              arith,
              keep-cons (λ y. is_zero (c v y)) x lines,
              cmp_zero_trans o v p x,
              cmp_zero_trans o p x v,
              cmp_zero_sym o v p,
              cmp_zero_sym o v x,
            ))
    | inr new ↦
        rw (new, distinct_lines)
          (ground (
            arith,
            class-behind v x lines (b', s),
            keep-cons (λ y. is_zero (c v y)) x (distinct_lines true c (some x) lines),
            keep-cons (λ y. is_zero (c v y)) x lines,
            cmp_zero_trans o v p x,
            class_above v p x lines,
          ))
  ]

  -- Of each class of lines that are equal in a total preorder, `-u` on a list that ascends in it keeps
  -- the first line and no other.
  pub class-distinct_lines :
      (v : A) (lines : List A)
      → Ascends c lines
      → class c v (distinct_lines true c none lines) ≡ take 1 (class c v lines)
  unfolding distinct_lines
  class-distinct_lines v [] s = ground (arith, keep-nil (λ y. is_zero (c v y)))
  class-distinct_lines v (x ∷ lines) s = ground (
    arith,
    class-behind v x lines s,
    keep-cons (λ y. is_zero (c v y)) x (distinct_lines true c (some x) lines),
    keep-cons (λ y. is_zero (c v y)) x lines,
  )
