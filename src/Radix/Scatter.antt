-- ===== src/Radix/Scatter.antt =====
-- The counting sort by one byte that the radix sorts of src/radix.c share: `counts`, `starts` and
-- `next`, the scatter into `aux`, and the loop over the buckets. A range `items[lo..hi)` with its part of
-- `aux` is the list of its elements, and `starts` counts from `lo`.
pub mod Counts
pub mod Blocks
pub mod Layers
pub mod Pass
pub mod Order
use Prim.Native.Nat.{ℕ, zero, suc, ◌+◌, ◌-◌}
use rank.Base.{
  Bool, List, [], ◌∷◌, ◌++◌, Option, none, some, ltb, if◌then◌else◌, length, get_elem?, set, take,
  drop,
}

-- `RADIX_BUCKETS`
abbrev pub radix_buckets : ℕ
radix_buckets = 257

-- An entry of an array of numbers.
abbrev pub entry : List ℕ → ℕ → ℕ
entry [] b = 0
entry (n ∷ array) zero = n
entry (n ∷ array) (suc b) = entry array b

-- `array[b]++`
abbrev pub increment : List ℕ → ℕ → List ℕ
increment array b = set array b (suc (entry array b))

abbrev pub zeros : ℕ → List ℕ
zeros zero = []
zeros (suc n) = 0 ∷ zeros n

-- `starts`, and `next` before the scatter; `sum` is what the buckets before take.
unfoldable pub starts_loop : ℕ → List ℕ → List ℕ
starts_loop sum [] = []
starts_loop sum (count ∷ counts) = sum ∷ starts_loop (sum + count) counts

module _ {ℓ} {A : Type ℓ} (bucket : A → ℕ) where
  unfoldable pub count_loop : List A → List ℕ → List ℕ
  count_loop [] counts = counts
  count_loop (x ∷ items) counts = count_loop items (increment counts (bucket x))

  -- `aux[next[b]++] = items[i]`
  unfoldable pub scatter : List A → List ℕ → List A → List A
  scatter [] next aux = aux
  scatter (x ∷ items) next aux =
      scatter items (increment next (bucket x)) (set aux (entry next (bucket x)) x)

-- The loop over the buckets: each with more than one element is sorted in place.
unfoldable pub bucket_loop {ℓ} :
    {A : Type ℓ} → (List A → List A) → List ℕ → List ℕ → List A → List A
bucket_loop sort (start ∷ starts) (count ∷ counts) items = bucket_loop sort starts counts (
    if ltb 1 count
    then take start items ++ (sort (take count (drop start items)) ++ drop (start + count) items)
    else items)
bucket_loop sort _ _ items = items

abbrev pub behind_first : List ℕ → List ℕ
behind_first [] = []
behind_first (n ∷ array) = array

-- One level of a radix sort: `sort` is the recursive call on a bucket, and bucket 0 is left as it is.
-- `memcpy` makes `items` what `aux` holds.
unfoldable pub radix_pass {ℓ} :
    {A : Type ℓ} → (A → ℕ) → (List A → List A) → List A → List A → List A
unfolding count_loop starts_loop scatter bucket_loop
radix_pass bucket sort items aux =
    let counts = count_loop bucket items (zeros radix_buckets) in
    let starts = starts_loop 0 counts in
    bucket_loop sort (behind_first starts) (behind_first counts) (scatter bucket items starts aux)
