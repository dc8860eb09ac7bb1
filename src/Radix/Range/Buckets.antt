-- ===== src/Radix/Range/Buckets.antt =====
-- The byte order behind a depth, and the buckets of the byte at it.
use Prim.Native.Nat.{ℕ, zero, suc, ◌≤◌, ◌<◌}
use rank.Base.{
  ◌≡◌, refl, sym, ◌∙◌, Bool, true, false, inl, inr, Bool-cases, List, [], ◌∷◌, arith, length, drop,
  ℤ, is_pos, is_neg, is_zero, IsOrder, All, All-map_imp, keep-nil, keep-cons, keep_none, Bytes,
}
use rank.Locale.Lex.{lex}
use rank.Sort.Stable.{IsLe, Ascends, class, IsStableSort}
use rank.Sort.Append.{All-IsStableSort}
use rank.Radix.Scatter.{radix_buckets}
use rank.Radix.Range.{byte_bucket, text_bucket}

-- A stable sort by one order is one by another that agrees with it on the elements, if nothing else is
-- equal to an element.
module _ {ℓ} {A : Type ℓ} {c d : A → A → ℤ} (o : IsOrder c) (p : A → Bool)
    (agree : (x y : A) → p x ≡ true → p y ≡ true → c x y ≡ d x y)
    (apart : (v x : A) → p x ≡ true → is_zero (d v x) ≡ true → p v ≡ true) where
  Ascends-agree : (xs : List A) → All (λ x. p x ≡ true) xs → Ascends c xs → Ascends d xs
  Ascends-agree [] h s = tt
  Ascends-agree (x ∷ xs) (e, h) (b, s) = (below xs h b, Ascends-agree xs h s)
    where
      below : (ys : List A) → All (λ y. p y ≡ true) ys → All (IsLe c x) ys → All (IsLe d x) ys
      below [] h' b' = tt
      below (y ∷ ys) (q, h') (le, b') = (ground (arith, agree x y e q), below ys h' b')

  class-agree :
      (v : A) (xs : List A) → p v ≡ true → All (λ x. p x ≡ true) xs → class c v xs ≡ class d v xs
  class-agree v [] e h = keep-nil (λ x. is_zero (c v x)) ∙ sym (keep-nil (λ x. is_zero (d v x)))
  class-agree v (x ∷ xs) e (q, h) = ground (
    arith,
    keep-cons (λ y. is_zero (c v y)) x xs,
    keep-cons (λ y. is_zero (d v y)) x xs,
    agree v x e q,
    class-agree v xs e h,
  )

  class-apart : (v : A) (xs : List A) → p v ≡ false → All (λ x. p x ≡ true) xs → class d v xs ≡ []
  class-apart v xs e h =
      keep_none (λ x. is_zero (d v x)) xs
        (All-map_imp (λ x. p x ≡ true) (λ x. is_zero (d v x) ≡ false)
          (λ x q. ground (arith, apart v x)) xs h)

  pub IsStableSort-agree :
      {xs ys : List A} → All (λ x. p x ≡ true) xs → IsStableSort c xs ys → IsStableSort d xs ys
  IsStableSort-agree {xs} {ys} h s =
      let h' : All (λ x. p x ≡ true) ys = All-IsStableSort o (λ x. p x ≡ true) s h in
      record {
        ascends = Ascends-agree ys h' s.ascends;
        classes = λ v. elim (Bool-cases (p v)) [
          | inl e ↦ sym (class-agree v ys e h') ∙ s.classes v ∙ class-agree v xs e h
          | inr n ↦ class-apart v ys n h' ∙ sym (class-apart v xs n h)
        ];
      }

pub bucket-lex : (a b : Bytes) → byte_bucket a < byte_bucket b → is_neg (lex a b) ≡ true
unfolding lex
bucket-lex [] [] h = absurd (omega arith)
bucket-lex [] (y ∷ b) h = refl
bucket-lex (x ∷ a) [] h = absurd (omega arith)
bucket-lex (x ∷ a) (y ∷ b) h = ground arith

abbrev pub rest : Bytes → Bytes
rest [] = []
rest (c ∷ text) = text

pub drop-suc : (n : ℕ) (text : Bytes) → drop (suc n) text ≡ rest (drop n text)
drop-suc zero [] = refl
drop-suc zero (c ∷ text) = refl
drop-suc (suc n) [] = refl
drop-suc (suc n) (c ∷ text) = drop-suc n text

-- In one bucket the next byte decides.
pub rest-lex :
    (a b : Bytes)
    → 1 ≤ byte_bucket a
    → byte_bucket a ≡ byte_bucket b
    → lex (rest a) (rest b) ≡ lex a b
unfolding lex
rest-lex [] b h e = absurd (omega arith)
rest-lex (x ∷ a) [] h e = absurd (omega arith)
rest-lex (x ∷ a) (y ∷ b) h e = ground arith

pub reaches_next : (n : ℕ) (text : Bytes) → 1 ≤ text_bucket n text → suc n ≤ length text
reaches_next zero [] h = absurd (omega arith)
reaches_next zero (c ∷ text) h = omega arith
reaches_next (suc n) [] h = absurd (omega arith)
reaches_next (suc n) (c ∷ text) h = omega (arith, reaches_next n text h)

-- `text[i] < 256`
abbrev pub IsByte : ℕ → Type 0
IsByte c = c < 256

pub bucket-lt : (text : Bytes) → All IsByte text → byte_bucket text < radix_buckets
bucket-lt [] h = omega arith
bucket-lt (c ∷ text) (b, h) = omega arith

pub lex_ends : (a b : Bytes) → byte_bucket a ≡ 0 → byte_bucket b ≡ 0 → is_pos (lex a b) ≡ false
unfolding lex
lex_ends [] [] h k = refl
lex_ends [] (y ∷ b) h k = refl
lex_ends (x ∷ a) b h k = absurd (omega arith)
