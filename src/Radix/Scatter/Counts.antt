-- ===== src/Radix/Scatter/Counts.antt =====
-- The counts of a counting sort are the sizes of the buckets.
use Prim.Native.Nat.{ℕ, zero, suc, ◌+◌, ◌<◌}
use rank.Base.{
  ◌≡◌, refl, sym, ap, ap₂, ◌∙◌, false, List, [], ◌∷◌, arith, ◌==◌, length, All, keep, keep-nil,
  keep-cons,
}
use rank.Radix.Scatter.{increment, count_loop}

unfoldable pub sum : List ℕ → ℕ
sum [] = 0
sum (n ∷ array) = n + sum array

pub length-increment : (array : List ℕ) (b : ℕ) → length (increment array b) ≡ length array
length-increment [] b = refl
length-increment (n ∷ array) zero = refl
length-increment (n ∷ array) (suc b) = ap suc (length-increment array b)

sum-increment :
    (array : List ℕ) (b : ℕ) → b < length array → sum (increment array b) ≡ suc (sum array)
unfolding sum
sum-increment [] b h = absurd (omega arith)
sum-increment (n ∷ array) zero h = omega arith
sum-increment (n ∷ array) (suc b) h = omega (arith, sum-increment array b (omega arith))

module _ {ℓ} {A : Type ℓ} (bucket : A → ℕ) where
  -- The elements of bucket `b`, in their order.
  abbrev pub layer : ℕ → List A → List A
  layer b items = keep (λ x. bucket x == b) items

  -- `array` with the sizes of the buckets from `k` on added.
  unfoldable pub add_sizes : ℕ → List ℕ → List A → List ℕ
  add_sizes k [] items = []
  add_sizes k (n ∷ array) items = (n + length (layer k items)) ∷ add_sizes (suc k) array items

  add_sizes-nil : (k : ℕ) (array : List ℕ) → add_sizes k array [] ≡ array
  unfolding add_sizes
  add_sizes-nil k [] = refl
  add_sizes-nil k (n ∷ array) =
      ap₂ ◌∷◌ (ground (arith, keep-nil (λ x. bucket x == k))) (add_sizes-nil (suc k) array)

  pub layer-here :
      (x : A) (items : List A) → layer (bucket x) (x ∷ items) ≡ x ∷ layer (bucket x) items
  layer-here x items = ground (arith, keep-cons (λ y. bucket y == bucket x) x items)

  pub layer-other :
      (x : A) (items : List A) (b : ℕ)
      → (bucket x == b) ≡ false
      → layer b (x ∷ items) ≡ layer b items
  layer-other x items b h = ground (arith, keep-cons (λ y. bucket y == b) x items)

  -- An element of an earlier bucket adds nothing.
  add_sizes-later :
      (k : ℕ) (array : List ℕ) (x : A) (items : List A)
      → bucket x < k
      → add_sizes k array (x ∷ items) ≡ add_sizes k array items
  unfolding add_sizes
  add_sizes-later k [] x items h = refl
  add_sizes-later k (n ∷ array) x items h =
      ap₂ ◌∷◌ (ap (λ l. n + length l) (layer-other x items k (ground arith)))
        (add_sizes-later (suc k) array x items (omega arith))

  add_sizes-increment :
      (k b : ℕ) (array : List ℕ) (x : A) (items : List A)
      → bucket x ≡ k + b
      → b < length array
      → add_sizes k (increment array b) items ≡ add_sizes k array (x ∷ items)
  unfolding add_sizes
  add_sizes-increment k b [] x items e h = absurd (omega arith)
  add_sizes-increment k zero (n ∷ array) x items e h =
      let here : bucket x ≡ k = omega arith in
      let size : length (layer k (x ∷ items)) ≡ suc (length (layer k items)) =
        ground (arith, keep-cons (λ y. bucket y == k) x items) in
      ap₂ ◌∷◌ (omega (arith, size)) (sym (add_sizes-later (suc k) array x items (omega arith)))
  add_sizes-increment k (suc b) (n ∷ array) x items e h =
      ap₂ ◌∷◌ (ap (λ l. n + length l) (sym (layer-other x items k (ground arith))))
        (add_sizes-increment (suc k) b array x items (omega arith) (omega arith))

  pub count_loop-add_sizes :
      (items : List A) (array : List ℕ)
      → All (λ x. bucket x < length array) items
      → count_loop bucket items array ≡ add_sizes 0 array items
  unfolding count_loop
  count_loop-add_sizes [] array h = sym (add_sizes-nil 0 array)
  count_loop-add_sizes (x ∷ items) array (p, h) =
      count_loop-add_sizes items (increment array (bucket x))
        (rw (length-increment array (bucket x)) h)
      ∙ add_sizes-increment 0 (bucket x) array x items (omega arith) p

  -- The sizes of the buckets add up to the number of elements.
  pub sum-add_sizes :
      (items : List A) (array : List ℕ)
      → All (λ x. bucket x < length array) items
      → sum (add_sizes 0 array items) ≡ sum array + length items
  sum-add_sizes [] array h = ap sum (add_sizes-nil 0 array) ∙ omega arith
  sum-add_sizes (x ∷ items) array (p, h) =
      ap sum (sym (add_sizes-increment 0 (bucket x) array x items (omega arith) p))
      ∙ sum-add_sizes items (increment array (bucket x)) (rw (length-increment array (bucket x)) h)
      ∙ omega (arith, sum-increment array (bucket x) p)
