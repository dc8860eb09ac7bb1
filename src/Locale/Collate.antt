-- ===== src/Locale/Collate.antt =====
-- `rank_locale_compare` of src/locale.c is a total preorder whenever the locale's `strcoll` is one.
use mathlib.Core.Path.{subst}
use rank.Base.{
  ℕ, zero, suc, ◌≡◌, refl, sym, Bool, true, false, List, [], ◌∷◌, arith, ℤ, pos, is_pos, is_neg,
  is_zero, IsOrder, IsOrder-on, IsOrder-eq, cmp_self, if◌then◌else◌, length, Bytes,
}
use rank.Locale.{memcmp, Locale, segments, collate_segments, rank_locale_compare}
use rank.Locale.Lex.{lex, lex-IsOrder, compare_bytes-lex}

module _ {strcoll : Bytes → Bytes → ℤ} (o : IsOrder strcoll) where
  collate-flip :
      (a b : List Bytes)
      → is_pos (collate_segments strcoll a b) ≡ is_neg (collate_segments strcoll b a)
  unfolding collate_segments
  collate-flip [] [] = refl
  collate-flip [] (y ∷ b) = refl
  collate-flip (x ∷ a) [] = refl
  collate-flip (x ∷ a) (y ∷ b) = ground (arith, o.flip x y, o.flip y x, collate-flip a b)

  collate_trans :
      (a b c : List Bytes)
      → is_pos (collate_segments strcoll a b) ≡ false
      → is_pos (collate_segments strcoll b c) ≡ false
      → is_pos (collate_segments strcoll a c) ≡ false
  unfolding collate_segments
  collate_trans [] b [] h k = refl
  collate_trans [] b (z ∷ c) h k = refl
  collate_trans (x ∷ a) [] c h k = ground arith
  collate_trans (x ∷ a) (y ∷ b) [] h k = ground arith
  collate_trans (x ∷ a) (y ∷ b) (z ∷ c) h k = ground (
    arith,
    o.flip x y,
    o.flip y x,
    o.flip y z,
    o.flip z y,
    o.flip x z,
    o.flip z x,
    o.trans x y z,
    o.trans z x y,
    o.trans y z x,
    collate_trans a b c,
  )

  collate-IsOrder : IsOrder (collate_segments strcoll)
  collate-IsOrder = record { flip = collate-flip; trans = collate_trans }

  collate_self : (a : List Bytes) → collate_segments strcoll a a ≡ pos 0
  unfolding collate_segments
  collate_self [] = refl
  collate_self (x ∷ a) = ground (arith, cmp_self o x, collate_self a)

-- Equal bytes: what the short cut of `rank_locale_compare` tests.
memcmp_zero :
    (n : ℕ) (a b : Bytes) → n ≡ length a → n ≡ length b → is_zero (memcmp n a b) ≡ true → a ≡ b
unfolding memcmp
memcmp_zero n [] [] p q h = refl
memcmp_zero n [] (y ∷ b) p q h = absurd (omega arith)
memcmp_zero n (x ∷ a) [] p q h = absurd (omega arith)
memcmp_zero zero (x ∷ a) (y ∷ b) p q h = absurd (omega arith)
memcmp_zero (suc n) (x ∷ a) (y ∷ b) p q h = ground (arith, memcmp_zero n a b)

length_zero : (a b : Bytes) → length a ≡ length b → length a ≡ 0 → a ≡ b
length_zero [] [] p q = refl
length_zero [] (y ∷ b) p q = absurd (omega arith)
length_zero (x ∷ a) b p q = absurd (omega arith)

-- What `rank_locale_compare` computes, without its short cut.
abbrev pub collation : Locale → Bytes → Bytes → ℤ
collation loc a b =
    if loc.identity then lex a b else collate_segments loc.strcoll (segments [] a) (segments [] b)

module _ (loc : Locale) (o : IsOrder loc.strcoll) where
  collate_equal :
      (a b : Bytes) → a ≡ b → collate_segments loc.strcoll (segments [] a) (segments [] b) ≡ pos 0
  collate_equal a b e =
      subst (λ t. collate_segments loc.strcoll (segments [] a) (segments [] t) ≡ pos 0) e
        (collate_self o (segments [] a))

  -- The byte comparison before the collation changes no result, and under the identity locale the
  -- order is the byte order.
  pub rank_locale_compare-collation :
      (a b : Bytes) → rank_locale_compare loc a b ≡ collation loc a b
  unfolding rank_locale_compare
  rank_locale_compare-collation a b = ground (
    arith,
    compare_bytes-lex a b,
    collate_equal a b,
    memcmp_zero (length a) a b refl,
    length_zero a b,
  )

  collation-IsOrder : (b : Bool) → loc.identity ≡ b → IsOrder (collation loc)
  collation-IsOrder true e =
      subst
        (λ t. IsOrder (λ x y.
          if t then lex x y else collate_segments loc.strcoll (segments [] x) (segments [] y)))
        (sym e) lex-IsOrder
  collation-IsOrder false e =
      subst
        (λ t. IsOrder (λ x y.
          if t then lex x y else collate_segments loc.strcoll (segments [] x) (segments [] y)))
        (sym e) (IsOrder-on (segments []) (collate-IsOrder o))

  -- For every locale whose `strcoll` is a total preorder, `rank_locale_compare` is one, whatever
  -- NUL bytes the lines hold.
  pub rank_locale_compare-IsOrder : IsOrder (rank_locale_compare loc)
  rank_locale_compare-IsOrder =
      IsOrder-eq (λ a b. rank_locale_compare-collation a b) (collation-IsOrder loc.identity refl)
