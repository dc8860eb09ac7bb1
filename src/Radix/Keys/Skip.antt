-- ===== src/Radix/Keys/Skip.antt =====
-- `skip_key_common_prefix_lcp` of src/radix.c on the keys of a range, and the byte order behind what it
-- skips.
use Prim.Native.Nat.{ℕ, zero, suc, ◌+◌, ◌-◌, ◌≤◌}
use rank.Base.{
  ◌≡◌, refl, sym, ap, ◌∙◌, true, false, ◌||◌, inl, inr, Bool-cases, List, [], ◌∷◌, arith, leb,
  length, take, drop, length-take, length-drop, is_neg, All, Bytes,
}
use rank.Locale.Lex.{lex}
use rank.Radix.{depth_loop, compare_from_depth}
use rank.Radix.Range.{depth_limit}
use rank.Radix.Keys.{lower, skip_key_common_prefix_lcp, key_threshold, texts}
use rank.Radix.Keys.Prefix.{starts, AgreeTo, IsFirst, Outcome, lcp_loop-Outcome}

starts_self : (n : ℕ) (a : Bytes) → starts (take n a) a ≡ true
unfolding starts
starts_self zero a = refl
starts_self (suc n) [] = refl
starts_self (suc n) (x ∷ a) = ground (arith, starts_self n a)

-- What has been skipped: a prefix that all items share behind `depth`; or, at the depth limit, all there
-- is, where all keys are equal and none is longer than the limit.
pub data Skipped {ℓ} {A : Type ℓ} (text : A → Bytes) (depth : ℕ) (items : List A) (r : ℕ)
    : Type ℓ where
  shared :
      (prefix : Bytes)
      → (r ≡ depth + length prefix)
      → All (λ x. starts prefix (drop depth (text x)) ≡ true) items
      → Skipped text depth items r
  equal :
      (whole : Bytes) (size : ℕ)
      → (r ≡ depth_limit)
      → size ≤ depth_limit
      → All (λ x. (drop depth (text x) ≡ whole) × (length (text x) ≡ size)) items
      → Skipped text depth items r

module _ {ℓ} {A : Type ℓ} (text : A → Bytes) where
  All-texts :
      (P : Bytes → Type 0) (items : List A) → All P (texts text items) → All (λ x. P (text x)) items
  All-texts P [] h = tt
  All-texts P (x ∷ items) (p, h) = (p, All-texts P items h)

  shared_none : (depth : ℕ) (items : List A) → Skipped text depth items depth
  shared_none depth items = shared [] (omega arith) (all items)
    where
      all : (l : List A) → All (λ x. starts [] (drop depth (text x)) ≡ true) l
      all [] = tt
      all (x ∷ l) = (unfold starts in refl, all l)

  Outcome-Skipped :
      (depth limit r : ℕ) (x : A) (items : List A)
      → limit ≤ length (text x)
      → limit ≤ depth_limit
      → Outcome depth (text x) limit true (texts text items) r
      → Skipped text depth (x ∷ items) r
  unfolding Outcome
  Outcome-Skipped depth limit r x items h k (inl (a, b, agree)) =
      let prefix = take (r - depth) (drop depth (text x)) in
      let size : length prefix ≡ r - depth =
        omega (arith, length-take (r - depth) (drop depth (text x)), length-drop depth (text x)) in
      shared prefix (omega (arith, size)) (
        starts_self (r - depth) (drop depth (text x)),
        All-texts (AgreeTo depth (text x) r) items agree,
      )
  Outcome-Skipped depth limit r x items h k (inr (e, l, s, firsts)) =
      equal (drop depth (text x)) (length (text x)) e (omega arith)
        ((refl, refl), All-texts (IsFirst depth (text x)) items firsts)

  pub skip-Skipped :
      (depth : ℕ) (items : List A)
      → Skipped text depth items (skip_key_common_prefix_lcp depth (texts text items))
  unfolding skip_key_common_prefix_lcp
  skip-Skipped depth [] = shared_none depth []
  skip-Skipped depth (x ∷ items) =
      let limit = lower (length (text x)) depth_limit in
      elim (Bool-cases
        (leb (suc (length (texts text items))) key_threshold || leb depth_limit depth)) [
          | inl small ↦ rw small (shared_none depth (x ∷ items))
          | inr large ↦ elim (Bool-cases (leb limit depth)) [
            | inl ended ↦ rw (large, ended) (shared_none depth (x ∷ items))
            | inr going ↦
                rw (large, going)
                  (Outcome-Skipped depth limit _ x items (ground arith) (ground arith) (
                    lcp_loop-Outcome depth (text x) (texts text items) limit true (ground arith)
                      (ground arith)))
          ]
        ]

drop-nil : (n : ℕ) → drop {A = ℕ} n [] ≡ []
drop-nil zero = refl
drop-nil (suc n) = refl

pub drop-drop : (m n : ℕ) (l : Bytes) → drop (m + n) l ≡ drop n (drop m l)
drop-drop zero n l = ap (λ k. drop k l) (omega arith)
drop-drop (suc m) n [] = drop-nil (suc m + n) ∙ sym (drop-nil n)
drop-drop (suc m) n (x ∷ l) =
    let e : suc m + n ≡ suc (m + n) = omega arith in ap (λ k. drop k (x ∷ l)) e ∙ drop-drop m n l

-- A shared prefix decides nothing.
pub starts-lex :
    (p a b : Bytes)
    → starts p a ≡ true
    → starts p b ≡ true
    → lex (drop (length p) a) (drop (length p) b) ≡ lex a b
unfolding starts lex
starts-lex [] a b h k = refl
starts-lex (c ∷ p) [] b h k = absurd (cc)
starts-lex (c ∷ p) (x ∷ a) [] h k = absurd (cc)
starts-lex (c ∷ p) (x ∷ a) (y ∷ b) h k = ground (arith, starts-lex p a b)

pub starts-le : (p a : Bytes) → starts p a ≡ true → length p ≤ length a
unfolding starts
starts-le [] a h = omega arith
starts-le (c ∷ p) [] h = absurd (cc)
starts-le (c ∷ p) (x ∷ a) h = ground (arith, starts-le p a)

drop_all : (n : ℕ) (l : Bytes) → length l ≤ n → drop n l ≡ []
drop_all zero [] h = refl
drop_all zero (x ∷ l) h = absurd (omega arith)
drop_all (suc n) [] h = refl
drop_all (suc n) (x ∷ l) h = drop_all n l (omega arith)

-- Behind the end of two texts of one length no item is found smaller.
pub compare_from_depth-ended :
    (depth : ℕ) (a b : Bytes)
    → length a ≤ depth
    → length b ≡ length a
    → is_neg (compare_from_depth depth a b) ≡ false
unfolding compare_from_depth depth_loop
compare_from_depth-ended depth a b h e =
    rw (drop_all depth a h, drop_all depth b (omega arith)) (ground arith)
