-- ===== src/Radix/Insertion.antt =====
-- The binary insertion sort of src/radix.c is a stable sort.
use Prim.Native.Nat.{ℕ, zero, suc, ◌+◌, ◌-◌, ◌/◌, ◌≤◌, ◌<◌}
use mathlib.Core.Path.{subst}
use rank.Base.{
  ◌≡◌, refl, sym, ap, ◌∙◌, true, false, inl, inr, Bool-cases, some, List, [], ◌∷◌, ◌++◌, append-nil,
  append_assoc, arith, ℤ, is_neg, is_zero, ltb, length, get_elem?, take, drop, IsOrder, All,
  All-map_imp, keep-nil, keep-cons, keep-append, keep_none,
}
use rank.Sort.Stable.{IsLe, Ascends, class, IsStableSort}
use rank.Radix.{find_place, insert_at, insertion_loop, insertion_sort}

pub insert_at-All {ℓ κ} :
    {A : Type ℓ} (P : A → Type κ) (i : ℕ) (line : A) (xs : List A)
    → P line
    → All P xs
    → All P (insert_at i line xs)
insert_at-All P zero line xs p h = (p, h)
insert_at-All P (suc i) line [] p h = (p, tt)
insert_at-All P (suc i) line (x ∷ xs) p (q, h) = (q, insert_at-All P i line xs p h)

some_inj {ℓ} : {A : Type ℓ} {x y : A} → some x ≡ some y → x ≡ y
some_inj e = cc

module _ {ℓ} {A : Type ℓ} {compare : A → A → ℤ} (o : IsOrder compare) where
  -- In an ascending list, the elements up to a place are at most the one there, and those from it
  -- on at least.
  up_to-IsLe :
      (xs : List A) (i : ℕ) (v : A)
      → Ascends compare xs
      → get_elem? xs i ≡ some v
      → All (λ x. IsLe compare x v) (take (suc i) xs)
  up_to-IsLe [] i v s e = absurd (cc)
  up_to-IsLe (x ∷ xs) zero v s e = (ground (arith, o.flip v v), tt)
  up_to-IsLe (x ∷ xs) (suc i) v (b, s) e = (at_place xs i b e, up_to-IsLe xs i v s e)
    where
      at_place :
          (ys : List A) (j : ℕ)
          → All (IsLe compare x) ys
          → get_elem? ys j ≡ some v
          → IsLe compare x v
      at_place [] j h e' = absurd (cc)
      at_place (y ∷ ys) zero (h, hs) e' = ground arith
      at_place (y ∷ ys) (suc j) (h, hs) e' = at_place ys j hs e'

  from-IsLe :
      (xs : List A) (i : ℕ) (v : A)
      → Ascends compare xs
      → get_elem? xs i ≡ some v
      → All (IsLe compare v) (drop i xs)
  from-IsLe [] i v s e = absurd (cc)
  from-IsLe (x ∷ xs) zero v (b, s) e =
      let same : x ≡ v = some_inj e in
      subst (λ w. All (IsLe compare w) (x ∷ xs)) same (ground (arith, o.flip x x), b)
  from-IsLe (x ∷ xs) (suc i) v (b, s) e = from-IsLe xs i v s e

  -- What the binary search keeps: the items in front of `left` are at most the line, and the items
  -- from `right` on are greater.
  IsAbove : A → A → Type 0
  IsAbove line x = is_neg (compare line x) ≡ true

  IsAtMost : A → A → Type 0
  IsAtMost line x = is_neg (compare line x) ≡ false

  up_to-IsAtMost :
      (line : A) (xs : List A) (i : ℕ) (v : A)
      → Ascends compare xs
      → get_elem? xs i ≡ some v
      → is_neg (compare line v) ≡ false
      → All (IsAtMost line) (take (suc i) xs)
  unfolding IsAtMost
  up_to-IsAtMost line xs i v s e h =
      All-map_imp (λ x. IsLe compare x v) (IsAtMost line)
        (λ x k.
          ground
            (arith, o.flip v line, o.flip x line, o.trans x v line, o.flip line v, o.flip line x))
        (take (suc i) xs) (up_to-IsLe xs i v s e)

  from-IsAbove :
      (line : A) (xs : List A) (i : ℕ) (v : A)
      → Ascends compare xs
      → get_elem? xs i ≡ some v
      → is_neg (compare line v) ≡ true
      → All (IsAbove line) (drop i xs)
  unfolding IsAbove
  from-IsAbove line xs i v s e h =
      All-map_imp (IsLe compare v) (IsAbove line)
        (λ x k.
          ground
            (arith, o.flip v line, o.flip x line, o.trans v x line, o.flip line v, o.flip line x))
        (drop i xs) (from-IsLe xs i v s e)

  Placed : A → List A → ℕ → Type 0
  Placed line xs i = All (IsAtMost line) (take i xs) × All (IsAbove line) (drop i xs)

  has_elem : (xs : List A) (i : ℕ) → i < length xs → (v : A) × (get_elem? xs i ≡ some v)
  has_elem [] i h = absurd (omega arith)
  has_elem (x ∷ xs) zero h = (x, refl)
  has_elem (x ∷ xs) (suc i) h = has_elem xs i (omega arith)

  find_place-Placed :
      (fuel : ℕ) (line : A) (xs : List A) (left right : ℕ)
      → Ascends compare xs
      → right ≤ length xs
      → left ≤ right
      → right ≤ left + fuel
      → All (IsAtMost line) (take left xs)
      → All (IsAbove line) (drop right xs)
      → Placed line xs (find_place compare fuel line xs left right)
  unfolding find_place Placed
  find_place-Placed zero line xs left right s r l f below above =
      let same : right ≡ left = omega arith in
      (below, subst (λ i. All (IsAbove line) (drop i xs)) same above)
  find_place-Placed (suc fuel) line xs left right s r l f below above =
      elim (Bool-cases (ltb left right)) [
        | inr done ↦
            let same : right ≡ left = ground arith in
            rw done (below, subst (λ i. All (IsAbove line) (drop i xs)) same above)
        | inl go ↦
            let mid = left + (right - left) / 2 in
            let hi : mid < right = ground arith in
            let (v, e) = has_elem xs mid (omega arith) in
            elim (Bool-cases (is_neg (compare line v))) [
              | inl b ↦
                  rw (go, e, b)
                    (find_place-Placed fuel line xs left mid s (omega arith) (omega arith)
                      (omega arith) below (from-IsAbove line xs mid v s e b))
              | inr n ↦
                  rw (go, e, n)
                    (find_place-Placed fuel line xs (suc mid) right s r (omega arith) (omega arith)
                      (up_to-IsAtMost line xs mid v s e n) above)
            ]
      ]

  -- An item put in its place leaves the items ascending,
  insert_at-Ascends :
      (i : ℕ) (line : A) (xs : List A)
      → Ascends compare xs
      → Placed line xs i
      → Ascends compare (insert_at i line xs)
  unfolding Placed IsAtMost IsAbove
  insert_at-Ascends zero line xs s (below, above) =
      (All-map_imp (IsAbove line) (IsLe compare line) (λ x k. ground (arith, k)) xs above, s)
  insert_at-Ascends (suc i) line [] s h = (tt, tt)
  insert_at-Ascends (suc i) line (x ∷ xs) (b, s) ((le, below), above) = (
    insert_at-All (IsLe compare x) i line xs (ground (arith, o.flip x line, o.flip line x)) b,
    insert_at-Ascends i line xs s (below, above),
  )

  -- and comes last in its class.
  insert_at-class :
      (v : A) (i : ℕ) (line : A) (xs : List A)
      → All (IsAbove line) (drop i xs)
      → class compare v (insert_at i line xs) ≡ class compare v xs ++ class compare v (line ∷ [])
  unfolding IsAbove
  insert_at-class v zero line xs above = elim (Bool-cases (is_zero (compare v line))) [
    | inl same ↦
        let none_left : class compare v xs ≡ [] =
          keep_none (λ z. is_zero (compare v z)) xs
            (All-map_imp (IsAbove line) _
              (λ z k. ground (
                arith,
                k,
                same,
                o.flip v z,
                o.flip z v,
                o.flip line z,
                o.flip z line,
                o.flip line v,
                o.flip v line,
                o.trans z v line,
              ))
              xs above) in
        ground (
          arith,
          none_left,
          keep-cons (λ z. is_zero (compare v z)) line xs,
          keep-cons (λ z. is_zero (compare v z)) line [],
          keep-nil (λ z. is_zero (compare v z)),
        )
    | inr other ↦ ground (
      arith,
      keep-cons (λ z. is_zero (compare v z)) line xs,
      append-nil (class compare v xs),
      keep-cons (λ z. is_zero (compare v z)) line [],
      keep-nil (λ z. is_zero (compare v z)),
    )
  ]
  insert_at-class v (suc i) line [] above = rw (keep-nil (λ z. is_zero (compare v z))) refl
  insert_at-class v (suc i) line (x ∷ xs) above = ground (
    arith,
    keep-cons (λ z. is_zero (compare v z)) x xs,
    keep-cons (λ z. is_zero (compare v z)) x (insert_at i line xs),
    insert_at-class v i line xs above,
  )

  loop-IsStableSort :
      (xs rest : List A)
      → Ascends compare xs
      → Ascends compare (insertion_loop compare xs rest)
        × ((v : A)
            → class compare v (insertion_loop compare xs rest)
              ≡ class compare v xs ++ class compare v rest)
  unfolding insertion_loop Placed
  loop-IsStableSort xs [] s =
      (s, λ v. rw (keep-nil (λ z. is_zero (compare v z))) (sym (append-nil _)))
  loop-IsStableSort xs (line ∷ rest) s =
      let i = find_place compare (length xs) line xs 0 (length xs) in
      let placed : Placed line xs i =
        find_place-Placed (length xs) line xs 0 (length xs) s (omega arith) (omega arith)
          (omega arith) tt (above_end xs) in
      let ih =
        loop-IsStableSort (insert_at i line xs) rest (insert_at-Ascends i line xs s placed) in
      (ih.0, λ v. ih.1 v ∙ moved v i placed.1)
    where
      above_end : (ys : List A) → All (IsAbove line) (drop (length ys) ys)
      above_end [] = tt
      above_end (y ∷ ys) = above_end ys

      moved :
          (v : A) (i : ℕ)
          → All (IsAbove line) (drop i xs)
          → class compare v (insert_at i line xs) ++ class compare v rest
            ≡ class compare v xs ++ class compare v (line ∷ rest)
      moved v i above =
          ap (λ c. c ++ class compare v rest) (insert_at-class v i line xs above)
          ∙ append_assoc (class compare v xs) (class compare v (line ∷ [])) (class compare v rest)
          ∙ ap (λ c. class compare v xs ++ c)
              (sym (keep-append (λ z. is_zero (compare v z)) (line ∷ []) rest))

  -- For every comparison function that is a total preorder, the binary insertion sort returns an
  -- ascending list that holds each class of equal items in input order.
  pub insertion_sort-IsStableSort :
      (items : List A) → IsStableSort compare items (insertion_sort compare items)
  unfolding insertion_sort
  insertion_sort-IsStableSort [] = record { ascends = tt; classes = λ v. refl }
  insertion_sort-IsStableSort (line ∷ rest) =
      let sorted = loop-IsStableSort (line ∷ []) rest (tt, tt) in
      record {
        ascends = sorted.0;
        classes = λ v. sorted.1 v ∙ sym (keep-append (λ z. is_zero (compare v z)) (line ∷ []) rest);
      }
