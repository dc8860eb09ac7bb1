-- ===== src/Radix/Keys.antt =====
-- The key radix sort of src/radix.c on one key: `key_radix_range` and what it calls. `text` is the span
-- of the key in an item.
pub mod Prefix
pub mod Skip
pub mod Laws
pub mod Reversed
use Prim.Native.Nat.{ℕ, zero, suc, ◌+◌, ◌-◌}
use rank.Base.{
  Bool, true, false, ◌&&◌, ◌||◌, List, [], ◌∷◌, ℤ, neg, leb, ltb, ◌==◌, if◌then◌else◌, length, drop,
  Bytes,
}
use rank.Radix.{compare_from_depth, insertion_sort}
use rank.Radix.Scatter.{
  radix_buckets, zeros, starts_loop, count_loop, scatter, bucket_loop, behind_first, radix_pass,
}
use rank.Radix.Scatter.Counts.{sum}
use rank.Radix.Range.{depth_limit, text_bucket}

-- `KEY_RADIX_INSERTION_THRESHOLD`
abbrev pub key_threshold : ℕ
key_threshold = 48

-- `while (pos < common_limit && first[pos] == key[pos]) pos++`, over what is behind `depth`: the number
-- of rounds, at most `n`.
unfoldable pub common : ℕ → Bytes → Bytes → ℕ
common (suc n) (x ∷ a) (y ∷ b) = let rest = common n a b in if x == y then suc rest else 0
common _ _ _ = 0

abbrev pub lower : ℕ → ℕ → ℕ
lower a b = if ltb a b then a else b

-- `compare_key_from_depth`
unfoldable pub compare_key_from_depth : Bool → ℕ → Bytes → Bytes → ℤ
unfolding compare_from_depth
compare_key_from_depth reverse depth a b =
    let result = compare_from_depth depth a b in if reverse then neg result else result

-- The loop of `skip_key_common_prefix_lcp` over the keys behind the first, and the tests behind it.
unfoldable pub lcp_loop : ℕ → Bytes → List Bytes → ℕ → Bool → ℕ
unfolding common
lcp_loop depth first [] limit same_len =
    if limit == length first && same_len then depth_limit else limit
lcp_loop depth first (key ∷ keys) limit same_len =
    let common_limit = lower (length key) limit in
    let pos = depth + common (common_limit - depth) (drop depth first) (drop depth key) in
    let rest = lcp_loop depth first keys pos (same_len && length key == length first) in
    if pos == depth then depth else rest

unfoldable pub skip_key_common_prefix_lcp : ℕ → List Bytes → ℕ
unfolding lcp_loop
skip_key_common_prefix_lcp depth [] = depth
skip_key_common_prefix_lcp depth (first ∷ keys) =
    let limit = lower (length first) depth_limit in
    if leb (length (first ∷ keys)) key_threshold || leb depth_limit depth
    then depth
    else if leb limit depth
    then depth
    else lcp_loop depth first keys limit true

-- `starts` where the buckets are laid out from the last to the first: a bucket starts behind all later
-- ones.
unfoldable pub starts_down : List ℕ → List ℕ
unfolding sum
starts_down [] = []
starts_down (count ∷ counts) = sum counts ∷ starts_down counts

-- A level of the sort, of which `sort` is the recursive call.
unfoldable pub key_pass {ℓ} :
    {A : Type ℓ} → Bool → (A → ℕ) → (List A → List A) → List A → List A → List A
unfolding radix_pass count_loop scatter bucket_loop starts_down
key_pass false bucket sort items aux = radix_pass bucket sort items aux
key_pass true bucket sort items aux =
    let counts = count_loop bucket items (zeros radix_buckets) in
    let starts = starts_down counts in
    bucket_loop sort (behind_first starts) (behind_first counts) (scatter bucket items starts aux)

abbrev pub texts {ℓ} : {A : Type ℓ} → (A → Bytes) → List A → List Bytes
texts text [] = []
texts text (x ∷ items) = text x ∷ texts text items

module _ {ℓ} {A : Type ℓ} (text : A → Bytes) (reverse : Bool) where
  unfoldable pub key_insertion_range : ℕ → List A → List A
  unfolding insertion_sort compare_key_from_depth
  key_insertion_range depth items =
      insertion_sort (λ a b. compare_key_from_depth reverse depth (text a) (text b)) items

  -- `key_radix_range` behind the skip; `sort` is the recursive call on a bucket.
  unfoldable pub key_level : (ℕ → List A → List A) → ℕ → List A → List A → List A
  unfolding key_insertion_range key_pass
  key_level sort depth items aux =
      elim (leb (length items) key_threshold || leb depth_limit depth) [
        | true ↦ key_insertion_range depth items
        | false ↦ key_pass reverse (λ x. text_bucket depth (text x)) (sort (suc depth)) items aux
      ]

  -- `key_radix_range`; the fuel is at least what is left to the depth limit.
  unfoldable pub key_range : ℕ → ℕ → List A → List A → List A
  unfolding skip_key_common_prefix_lcp key_insertion_range key_level
  key_range zero start items aux = key_insertion_range start items
  key_range (suc fuel) start items aux =
      key_level (λ depth r. key_range fuel depth r r)
        (skip_key_common_prefix_lcp start (texts text items)) items aux

  unfoldable pub key_radix_range : ℕ → List A → List A → List A
  unfolding key_range
  key_radix_range depth items aux = key_range depth_limit depth items aux
