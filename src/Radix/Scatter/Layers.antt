-- ===== src/Radix/Scatter/Layers.antt =====
-- `counts`, `starts` and the scatter of src/radix.c together: the buckets one behind the other.
use Prim.Native.Nat.{ℕ, zero, suc, ◌+◌, ◌<◌}
use mathlib.Core.Path.{subst}
use rank.Base.{
  ◌≡◌, refl, sym, ap, ap₂, ◌∙◌, List, [], ◌∷◌, ◌++◌, arith, length, length-take, length-drop, take,
  drop, take-append-drop, All,
}
use rank.Radix.Scatter.{zeros, starts_loop, count_loop, scatter}
use rank.Radix.Scatter.Counts.{layer, add_sizes, sum, count_loop-add_sizes, sum-add_sizes}
use rank.Radix.Scatter.Blocks.{Block, flat, nexts, Fits, filled, scatter-filled}

module _ {ℓ} {A : Type ℓ} where
  -- `aux` before the scatter: a block of each count, with nothing written.
  abbrev cut : List ℕ → List A → List (Block A)
  cut [] aux = []
  cut (count ∷ counts) aux = ([], take count aux) ∷ cut counts (drop count aux)

  nil_of_length : (aux : List A) → length aux ≡ 0 → aux ≡ []
  nil_of_length [] h = refl
  nil_of_length (x ∷ aux) h = absurd (omega arith)

  flat-cut :
      (counts : List ℕ) (aux : List A) → sum counts ≡ length aux → flat (cut counts aux) ≡ aux
  unfolding sum
  flat-cut [] aux h = sym (nil_of_length aux (omega arith))
  flat-cut (count ∷ counts) aux h =
      ap (λ l. take count aux ++ l)
        (flat-cut counts (drop count aux) (omega (arith, length-drop count aux)))
      ∙ take-append-drop count aux

  nexts-cut :
      (start : ℕ) (counts : List ℕ) (aux : List A)
      → sum counts ≡ length aux
      → nexts start (cut counts aux) ≡ starts_loop start counts
  unfolding sum starts_loop
  nexts-cut start [] aux h = refl
  nexts-cut start (count ∷ counts) aux h = ap₂ ◌∷◌ (omega arith) (
      ap (λ s. nexts s (cut counts (drop count aux))) (omega (arith, length-take count aux))
      ∙ nexts-cut (start + count) counts (drop count aux) (omega (arith, length-drop count aux)))

  length-cut : (counts : List ℕ) (aux : List A) → length (cut counts aux) ≡ length counts
  length-cut [] aux = refl
  length-cut (count ∷ counts) aux = ap suc (length-cut counts (drop count aux))

length-zeros : (n : ℕ) → length (zeros n) ≡ n
length-zeros zero = refl
length-zeros (suc n) = ap suc (length-zeros n)

sum-zeros : (n : ℕ) → sum (zeros n) ≡ 0
unfolding sum
sum-zeros zero = refl
sum-zeros (suc n) = omega (arith, sum-zeros n)

module _ {ℓ} {A : Type ℓ} (bucket : A → ℕ) where
  -- The sizes of `n` buckets from `k` on.
  abbrev pub sizes : ℕ → ℕ → List A → List ℕ
  sizes k zero items = []
  sizes k (suc n) items = length (layer bucket k items) ∷ sizes (suc k) n items

  -- `n` buckets from `k` on, one behind the other.
  abbrev pub layers : ℕ → ℕ → List A → List A
  layers k zero items = []
  layers k (suc n) items = layer bucket k items ++ layers (suc k) n items

  add_sizes-zeros :
      (k n : ℕ) (items : List A) → add_sizes bucket k (zeros n) items ≡ sizes k n items
  unfolding add_sizes
  add_sizes-zeros k zero items = refl
  add_sizes-zeros k (suc n) items = ap₂ ◌∷◌ (omega arith) (add_sizes-zeros (suc k) n items)

  length-sizes : (k n : ℕ) (items : List A) → length (sizes k n items) ≡ n
  length-sizes k zero items = refl
  length-sizes k (suc n) items = ap suc (length-sizes (suc k) n items)

  Fits-cut :
      (k n : ℕ) (items aux : List A)
      → sum (sizes k n items) ≡ length aux
      → Fits bucket k (cut (sizes k n items) aux) items
  unfolding sum
  Fits-cut k zero items aux h = tt
  Fits-cut k (suc n) items aux h = (
    omega (arith, length-take (length (layer bucket k items)) aux),
    Fits-cut (suc k) n items (drop (length (layer bucket k items)) aux)
        (omega (arith, length-drop (length (layer bucket k items)) aux)),
  )

  filled-cut :
      (k n : ℕ) (items aux : List A)
      → filled bucket k (cut (sizes k n items) aux) items ≡ layers k n items
  filled-cut k zero items aux = refl
  filled-cut k (suc n) items aux =
      ap (λ l. layer bucket k items ++ l)
        (filled-cut (suc k) n items (drop (length (layer bucket k items)) aux))

  -- The counting loop counts the buckets.
  pub count_loop-sizes :
      (n : ℕ) (items : List A)
      → All (λ x. bucket x < n) items
      → count_loop bucket items (zeros n) ≡ sizes 0 n items
  count_loop-sizes n items h =
      count_loop-add_sizes bucket items (zeros n)
        (subst (λ m. All (λ x. bucket x < m) items) (sym (length-zeros n)) h)
      ∙ add_sizes-zeros 0 n items

  sum-sizes :
      (n : ℕ) (items : List A)
      → All (λ x. bucket x < n) items
      → sum (sizes 0 n items) ≡ length items
  sum-sizes n items h =
      ap sum (sym (add_sizes-zeros 0 n items))
      ∙ sum-add_sizes bucket items (zeros n)
          (subst (λ m. All (λ x. bucket x < m) items) (sym (length-zeros n)) h)
      ∙ omega (arith, sum-zeros n)

  -- If every item's bucket is below `n`, the counts, the starts and the scatter write the items bucket by
  -- bucket, each bucket in input order, over whatever `aux` held.
  pub scatter-layers :
      (n : ℕ) (items aux : List A)
      → All (λ x. bucket x < n) items
      → length aux ≡ length items
      → scatter bucket items (starts_loop 0 (count_loop bucket items (zeros n))) aux
        ≡ layers 0 n items
  scatter-layers n items aux h e =
      let total : sum (sizes 0 n items) ≡ length aux = sum-sizes n items h ∙ sym e in
      let blocks = cut (sizes 0 n items) aux in
      let size : length blocks ≡ n = length-cut (sizes 0 n items) aux ∙ length-sizes 0 n items in
      ap₂ (scatter bucket items)
        (ap (starts_loop 0) (count_loop-sizes n items h)
          ∙ sym (nexts-cut 0 (sizes 0 n items) aux total))
        (sym (flat-cut (sizes 0 n items) aux total))
      ∙ scatter-filled bucket items blocks (subst (λ m. All (λ x. bucket x < m) items) (sym size) h)
          (Fits-cut 0 n items aux total)
      ∙ filled-cut 0 n items aux
