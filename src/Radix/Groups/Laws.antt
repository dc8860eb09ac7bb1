-- ===== src/Radix/Groups/Laws.antt =====
-- What is ordered by one key, sorted group by group by a second, is sorted by both.
use mathlib.Core.Path.{subst}
use rank.Base.{
  ◌≡◌, refl, sym, ap, ◌∙◌, true, false, inl, inr, Bool-cases, List, [], ◌∷◌, ◌++◌, append_assoc,
  append-nil, arith, ℤ, is_pos, is_zero, leb, length, All, All-append, All-map_imp, IsOrder,
  IsOrder-or_else, or_else, cmp_self, cmp_zero_sym, cmp_zero_trans, keep-nil, keep-cons,
}
use rank.Sort.Stable.{IsLe, Ascends, class, IsStableSort}
use rank.Sort.Append.{IsStableSort-append}
use rank.Radix.Range.Buckets.{IsStableSort-agree}
use rank.Radix.Groups.{sort_group, group_loop, sort_groups}

pub IsStableSort-refl {ℓ} :
    {A : Type ℓ} (c : A → A → ℤ) (xs : List A) → Ascends c xs → IsStableSort c xs xs
IsStableSort-refl c xs s = record { ascends = s; classes = λ v. refl }

module _ {ℓ} {A : Type ℓ} (c d : A → A → ℤ) where
  abbrev pub both : A → A → ℤ
  both x y = or_else (c x y) (d x y)

  keep-both : (v : A) (xs : List A) → class both v xs ≡ class d v (class c v xs)
  keep-both v [] = ground (
    arith,
    keep-nil (λ x. is_zero (both v x)),
    keep-nil (λ x. is_zero (c v x)),
    keep-nil (λ x. is_zero (d v x)),
  )
  keep-both v (x ∷ xs) = ground (
    arith,
    keep-cons (λ y. is_zero (both v y)) x xs,
    keep-cons (λ y. is_zero (c v y)) x xs,
    keep-cons (λ y. is_zero (d v y)) x (class c v xs),
    keep-both v xs,
  )

  -- A stable sort by `c`, sorted by `c` and then `d`, is a stable sort by both.
  pub IsStableSort-refine :
      {xs mid ys : List A}
      → IsStableSort c xs mid
      → IsStableSort both mid ys
      → IsStableSort both xs ys
  IsStableSort-refine {xs} {mid} s t = record {
    ascends = t.ascends;
    classes =
        λ v. t.classes v ∙ keep-both v mid ∙ ap (class d v) (s.classes v) ∙ sym (keep-both v xs);
  }

module _ {ℓ κ} {A : Type ℓ} {c d : A → A → ℤ} (o : IsOrder c) (p : IsOrder d) (P : A → Type κ)
    (sort : List A → List A) (sorts : (g : List A) → All P g → IsStableSort d g (sort g)) where
  sort_group-IsStableSort : (g : List A) → All P g → IsStableSort d g (sort_group sort g)
  sort_group-IsStableSort [] h = IsStableSort-refl d [] tt
  sort_group-IsStableSort (x ∷ []) h = IsStableSort-refl d (x ∷ []) (tt, tt)
  sort_group-IsStableSort (x ∷ y ∷ g) h =
      let many : leb (length (x ∷ y ∷ g)) 1 ≡ false = ground arith in rw many (sorts (x ∷ y ∷ g) h)

  -- A group, by both orders.
  group-IsStableSort :
      (start : A) (g : List A)
      → All P g
      → All (λ x. is_zero (c start x) ≡ true) g
      → IsStableSort (both c d) g (sort_group sort g)
  group-IsStableSort start g h e =
      IsStableSort-agree p (λ x. is_zero (c start x))
        (λ x y q r. ground (arith, cmp_zero_trans o start x y q, r))
        (λ v x q z. ground (arith, cmp_zero_sym o v x, cmp_zero_trans o start x v q)) e
        (sort_group-IsStableSort g h)

  below_next :
      (start item x : A)
      → is_pos (c start item) ≡ false
      → is_zero (c start item) ≡ false
      → is_zero (c start x) ≡ true
      → (y : A) → is_pos (c item y) ≡ false
      → is_pos (both c d x y) ≡ false
  below_next start item x le n e y k = ground (
    arith,
    o.flip start item,
    o.flip item start,
    o.flip start x,
    o.flip x start,
    o.flip x y,
    o.flip y x,
    o.flip start y,
    o.flip y start,
    o.trans start item y,
    o.trans y x start,
    o.trans item y start,
    o.trans x start y,
  )

  le_self : (x : A) → is_pos (c x x) ≡ false
  le_self x = ground (arith, cmp_self o x)

  group_loop-IsStableSort :
      (start : A) (group items : List A)
      → All P (start ∷ group)
      → All P items
      → All (λ x. is_zero (c start x) ≡ true) (start ∷ group)
      → Ascends c (start ∷ items)
      → IsStableSort
          (both c d)
          ((start ∷ group) ++ items)
          (group_loop (λ x y. is_zero (c x y)) sort start group items)
  unfolding group_loop
  group_loop-IsStableSort start group [] h k e s =
      subst (λ t. IsStableSort (both c d) (start ∷ t) (sort_group sort (start ∷ group)))
        (sym (append-nil group)) (group-IsStableSort start (start ∷ group) h e)
  group_loop-IsStableSort start group (item ∷ items) h (q, k) e ((le, b), (b', s)) =
      elim (Bool-cases (is_zero (c start item))) [
        | inl z ↦
            rw (z, group_loop)
              (subst
                (λ t.
                  IsStableSort (both c d) t
                    (group_loop (λ x y. is_zero (c x y)) sort start (group ++ (item ∷ [])) items))
                (append_assoc (start ∷ group) (item ∷ []) items)
                (group_loop-IsStableSort start (group ++ (item ∷ [])) items
                  (All-append P (start ∷ group) (item ∷ []) h (q, tt)) k
                  (All-append (λ x. is_zero (c start x) ≡ true) (start ∷ group) (item ∷ []) e
                    (z, tt))
                  (b, s)))
        | inr n ↦
            rw (n, group_loop)
              (IsStableSort-append (IsOrder-or_else o p)
                (group-IsStableSort start (start ∷ group) h e)
                (group_loop-IsStableSort item [] items (q, tt) k (cmp_self o item, tt) (b', s))
                (All-map_imp (λ x. is_zero (c start x) ≡ true)
                  (λ x. All (IsLe (both c d) x) (item ∷ items))
                  (λ x z.
                    All-map_imp (IsLe c item) (IsLe (both c d) x) (below_next start item x le n z)
                      (item ∷ items) (le_self item, b'))
                  (start ∷ group) e))
      ]

  pub sort_groups-IsStableSort :
      (items : List A)
      → Ascends c items
      → All P items
      → IsStableSort (both c d) items (sort_groups (λ x y. is_zero (c x y)) sort items)
  unfolding sort_groups
  sort_groups-IsStableSort [] s h = IsStableSort-refl (both c d) [] tt
  sort_groups-IsStableSort (x ∷ items) s (q, h) =
      group_loop-IsStableSort x [] items (q, tt) h (cmp_self o x, tt) s
