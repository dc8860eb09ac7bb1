-- ===== src/Locale/Lex.antt =====
-- The byte order of src/locale.c is the lexicographic order of byte strings, a prefix first.
use rank.Base.{
  ℕ, zero, suc, ◌≡◌, refl, true, false, [], ◌∷◌, arith, ℤ, pos, negsuc, is_pos, is_neg, is_zero,
  three_way, unit_sign, or_else, IsOrder, ltb, if◌then◌else◌, length, Bytes,
}
use rank.Locale.{memcmp, compare_bytes}

-- The lexicographic order, by recursion on both strings.
unfoldable pub lex : Bytes → Bytes → ℤ
lex [] [] = pos 0
lex [] (y ∷ b) = negsuc 0
lex (x ∷ a) [] = pos 1
lex (x ∷ a) (y ∷ b) = or_else (three_way x y) (lex a b)

lex-flip : (a b : Bytes) → is_pos (lex a b) ≡ is_neg (lex b a)
unfolding lex
lex-flip [] [] = refl
lex-flip [] (y ∷ b) = refl
lex-flip (x ∷ a) [] = refl
lex-flip (x ∷ a) (y ∷ b) = ground (arith, lex-flip a b)

lex_trans :
    (a b c : Bytes) → is_pos (lex a b) ≡ false → is_pos (lex b c) ≡ false → is_pos (lex a c) ≡ false
unfolding lex
lex_trans [] b [] h k = refl
lex_trans [] b (z ∷ c) h k = refl
lex_trans (x ∷ a) [] c h k = ground arith
lex_trans (x ∷ a) (y ∷ b) [] h k = ground arith
lex_trans (x ∷ a) (y ∷ b) (z ∷ c) h k = ground (arith, lex_trans a b c)

pub lex-IsOrder : IsOrder lex
lex-IsOrder = record { flip = lex-flip; trans = lex_trans }

-- Equal in the byte order is equal.
pub lex_zero : (a b : Bytes) → is_zero (lex a b) ≡ true → a ≡ b
unfolding lex
lex_zero [] [] h = refl
lex_zero [] (y ∷ b) h = ground arith
lex_zero (x ∷ a) [] h = ground arith
lex_zero (x ∷ a) (y ∷ b) h = ground (arith, lex_zero a b)

pub lex_self : (a : Bytes) → lex a a ≡ pos 0
unfolding lex
lex_self [] = refl
lex_self (x ∷ a) = ground (arith, lex_self a)

abbrev shorter : Bytes → Bytes → ℕ
shorter a b = if ltb (length a) (length b) then length a else length b

abbrev finish : ℤ → Bytes → Bytes → ℤ
finish r a b = if is_zero r then three_way (length a) (length b) else unit_sign r

memcmp-lex : (n : ℕ) (a b : Bytes) → n ≡ shorter a b → finish (memcmp n a b) a b ≡ lex a b
unfolding memcmp lex
memcmp-lex n [] [] h = ground arith
memcmp-lex n [] (y ∷ b) h = ground arith
memcmp-lex n (x ∷ a) [] h = ground arith
memcmp-lex zero (x ∷ a) (y ∷ b) h = ground arith
memcmp-lex (suc n) (x ∷ a) (y ∷ b) h = ground (arith, memcmp-lex n a b)

-- `compare_bytes` is the lexicographic order of byte strings.
pub compare_bytes-lex : (a b : Bytes) → compare_bytes a b ≡ lex a b
unfolding compare_bytes
compare_bytes-lex a b = ground (arith, memcmp-lex (shorter a b) a b refl)
