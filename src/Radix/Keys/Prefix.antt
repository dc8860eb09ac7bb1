-- ===== src/Radix/Keys/Prefix.antt =====
-- What `skip_key_common_prefix_lcp` of src/radix.c returns: a depth up to which all keys agree, or the
-- depth limit, if all keys are equal.
use Prim.Native.Nat.{ℕ, zero, suc, ◌+◌, ◌-◌, ◌≤◌, ◌<◌}
use mathlib.Core.Path.{subst}
use rank.Base.{
  ◌≡◌, refl, sym, ap, ap₂, ◌∙◌, Bool, true, false, ◌&&◌, ◌⊎◌, inl, inr, Bool-cases, List, [], ◌∷◌,
  arith, ◌==◌, length, take, drop, length-drop, All, Bytes,
}
use rank.Radix.Range.{depth_limit}
use rank.Radix.Keys.{common, lower, lcp_loop}

-- The text starts with the prefix.
unfoldable pub starts : Bytes → Bytes → Bool
starts [] text = true
starts (c ∷ prefix) [] = false
starts (c ∷ prefix) (d ∷ text) = c == d && starts prefix text

common-starts : (n : ℕ) (a b : Bytes) → starts (take (common n a b) a) b ≡ true
unfolding common starts
common-starts zero a b = refl
common-starts (suc n) [] b = refl
common-starts (suc n) (x ∷ a) [] = refl
common-starts (suc n) (x ∷ a) (y ∷ b) = elim (Bool-cases (x == y)) [
  | inl e ↦ rw (e, common) (rw e (common-starts n a b))
  | inr d ↦ rw (d, common) refl
]

common-le : (n : ℕ) (a b : Bytes) → common n a b ≤ n
unfolding common
common-le zero a b = omega arith
common-le (suc n) [] b = omega arith
common-le (suc n) (x ∷ a) [] = omega arith
common-le (suc n) (x ∷ a) (y ∷ b) = ground (arith, common-le n a b)

pub starts-take :
    (m n : ℕ) (a b : Bytes) → m ≤ n → starts (take n a) b ≡ true → starts (take m a) b ≡ true
unfolding starts
starts-take zero n a b h s = refl
starts-take (suc m) zero a b h s = absurd (omega arith)
starts-take (suc m) (suc n) [] b h s = refl
starts-take (suc m) (suc n) (x ∷ a) [] h s = s
starts-take (suc m) (suc n) (x ∷ a) (y ∷ b) h s = ground (arith, starts-take m n a b (omega arith))

-- A text of the prefix's length that starts with it is the prefix.
starts_whole :
    (a b : Bytes) (n : ℕ) → length a ≤ n → length b ≡ length a → starts (take n a) b ≡ true → b ≡ a
unfolding starts
starts_whole [] [] n h e s = refl
starts_whole [] (y ∷ b) n h e s = absurd (omega arith)
starts_whole (x ∷ a) [] n h e s = absurd (omega arith)
starts_whole (x ∷ a) (y ∷ b) zero h e s = absurd (omega arith)
starts_whole (x ∷ a) (y ∷ b) (suc n) h e s =
    let same : x ≡ y = ground arith in
    ap₂ ◌∷◌ (sym same) (starts_whole a b n (omega arith) (omega arith) (ground arith))

module _ (depth : ℕ) (first : Bytes) where
  -- All keys agree with the first up to `r`.
  abbrev pub AgreeTo : ℕ → Bytes → Type 0
  AgreeTo r key = starts (take (r - depth) (drop depth first)) (drop depth key) ≡ true

  -- The key is the first one, from the depth on.
  abbrev pub IsFirst : Bytes → Type 0
  IsFirst key = (drop depth key ≡ drop depth first) × (length key ≡ length first)

  pub agree_depth : (keys : List Bytes) → All (AgreeTo depth) keys
  unfolding starts
  agree_depth [] = tt
  agree_depth (key ∷ keys) =
      let none_behind : depth - depth ≡ 0 = omega arith in (rw none_behind refl, agree_depth keys)

  unfoldable pub Outcome : ℕ → Bool → List Bytes → ℕ → Type 0
  Outcome limit same keys r =
      ((depth ≤ r) × (r ≤ limit) × All (AgreeTo r) keys)
      ⊎ ((r ≡ depth_limit) × (limit ≡ length first) × (same ≡ true) × All IsFirst keys)

  pub lcp_loop-Outcome :
      (keys : List Bytes) (limit : ℕ) (same : Bool)
      → depth < limit
      → limit ≤ length first
      → Outcome limit same keys (lcp_loop depth first keys limit same)
  unfolding lcp_loop Outcome
  lcp_loop-Outcome [] limit same h k = elim (Bool-cases (limit == length first && same)) [
    | inl e ↦ rw e (inr (refl, ground arith, ground arith, tt))
    | inr n ↦ rw n (inl (omega arith, omega arith, tt))
  ]
  lcp_loop-Outcome (key ∷ keys) limit same h k =
      let n = lower (length key) limit - depth in
      let c = common n (drop depth first) (drop depth key) in
      let le : c ≤ n = common-le n (drop depth first) (drop depth key) in
      let here : starts (take c (drop depth first)) (drop depth key) ≡ true =
        common-starts n (drop depth first) (drop depth key) in
      elim (Bool-cases (depth + c == depth)) [
        | inl stop ↦
            let e : lcp_loop depth first (key ∷ keys) limit same ≡ depth = ground arith in
            subst (Outcome limit same (key ∷ keys)) (sym e)
              (inl (omega arith, omega arith, agree_depth (key ∷ keys)))
        | inr go ↦
            let e : lcp_loop depth first (key ∷ keys) limit same
                ≡ lcp_loop depth first keys (depth + c) (same && length key == length first) =
              ground arith in
            subst (Outcome limit same (key ∷ keys)) (sym e) (
              step c (ground arith) (ground arith) here (
                lcp_loop-Outcome keys (depth + c) (same && length key == length first)
                  (ground arith) (ground arith)))
      ]
    where
      step :
          (c : ℕ)
          → depth < depth + c
          → depth + c ≤ limit
          → starts (take c (drop depth first)) (drop depth key) ≡ true
          → Outcome
              (depth + c)
              (same && length key == length first)
              keys
              (lcp_loop depth first keys (depth + c) (same && length key == length first))
          → Outcome limit same
              (key ∷ keys)
              (lcp_loop depth first keys (depth + c) (same && length key == length first))
      step c lo hi here (inl (a, b, agree)) = inl (
        a,
        omega arith,
        (starts-take _ c (drop depth first) (drop depth key) (omega arith) here, agree),
      )
      step c lo hi here (inr (r, l, s, firsts)) =
          let size : length key ≡ length first = ground arith in
          inr (
            r,
            omega arith,
            ground arith,
            (
              (
                starts_whole (drop depth first) (drop depth key) c
                    (omega (arith, length-drop depth first))
                    (length-drop depth key
                      ∙ ap (λ m. m - depth) size
                      ∙ sym (length-drop depth first))
                    here,
                size,
              ),
              firsts,
            ),
          )
