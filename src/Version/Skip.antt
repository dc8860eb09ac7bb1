-- ===== src/Version/Skip.antt =====
-- The loop of `version_reverse_compare` over bytes that are no digits, against an order of the texts in
-- front of the first digits.
use rank.Base.{
  ℕ, ◌+◌, ◌≡◌, refl, Bool, true, false, not, ◌||◌, List, [], ◌∷◌, arith, ℤ, pos, negsuc, is_pos,
  is_neg, is_zero, three_way, or_else, sign, IsOrder, ◌==◌, if◌then◌else◌, Bytes,
}
use rank.Numeric.{digit}
use rank.Version.{version_order, sub_ℤ, Skipped, differ, arrived, skip_on, skip_text, ascii_alpha}

-- The rank of a byte that is no digit: '~' below the end of the text, all others above it.
abbrev pub text_rank : ℕ → ℕ
text_rank byte = if ascii_alpha byte then byte else if byte == b'~' then 0 else byte + 256

-- The ranks of the bytes in front of the first digit, and the text from there.
unfoldable pub text_of : Bytes → List ℕ
text_of [] = []
text_of (c ∷ s) = if digit c then [] else text_rank c ∷ text_of s

unfoldable pub after_text : Bytes → Bytes
after_text [] = []
after_text (c ∷ s) = if digit c then c ∷ s else after_text s

-- Rank 0 is below the end of a text.
unfoldable pub compare_text : List ℕ → List ℕ → ℤ
compare_text [] [] = pos 0
compare_text [] (y ∷ v) = if y == 0 then pos 1 else negsuc 0
compare_text (x ∷ u) [] = if x == 0 then negsuc 0 else pos 1
compare_text (x ∷ u) (y ∷ v) = or_else (three_way x y) (compare_text u v)

text-flip : (u v : List ℕ) → is_pos (compare_text u v) ≡ is_neg (compare_text v u)
unfolding compare_text
text-flip [] [] = refl
text-flip [] (y ∷ v) = ground arith
text-flip (x ∷ u) [] = ground arith
text-flip (x ∷ u) (y ∷ v) = ground (arith, text-flip u v)

text_trans :
    (u v w : List ℕ)
    → is_pos (compare_text u v) ≡ false
    → is_pos (compare_text v w) ≡ false
    → is_pos (compare_text u w) ≡ false
unfolding compare_text
text_trans [] v [] h k = refl
text_trans [] [] (z ∷ w) h k = k
text_trans [] (y ∷ v) (z ∷ w) h k = ground arith
text_trans (x ∷ u) [] [] h k = h
text_trans (x ∷ u) [] (z ∷ w) h k = ground arith
text_trans (x ∷ u) (y ∷ v) [] h k = ground arith
text_trans (x ∷ u) (y ∷ v) (z ∷ w) h k = ground (arith, text_trans u v w)

pub compare_text-IsOrder : IsOrder compare_text
compare_text-IsOrder = record { flip = text-flip; trans = text_trans }

-- What the loop returns is told by `compare_text`.
abbrev pub Told : Skipped → ℤ → Bytes → Bytes → Type 0
Told (differ r) z a b = (sign r ≡ sign z) × (is_zero z ≡ false)
Told (arrived a' b') z a b = (is_zero z ≡ true) × (a' ≡ a) × (b' ≡ b)

abbrev difference : Bytes → Bytes → ℤ
difference a b = sub_ℤ (version_order a) (version_order b)

difference_texts :
    (x y : ℕ) (a b : Bytes)
    → digit x ≡ false
    → digit y ≡ false
    → sign (difference (x ∷ a) (y ∷ b)) ≡ three_way (text_rank x) (text_rank y)
unfolding version_order
difference_texts x y a b h k = ground arith

difference_left :
    (x y : ℕ) (a b : Bytes)
    → digit x ≡ true
    → digit y ≡ false
    → sign (difference (x ∷ a) (y ∷ b)) ≡ (if text_rank y == 0 then pos 1 else negsuc 0)
unfolding version_order
difference_left x y a b h k = ground arith

difference_right :
    (x y : ℕ) (a b : Bytes)
    → digit x ≡ false
    → digit y ≡ true
    → sign (difference (x ∷ a) (y ∷ b)) ≡ (if text_rank x == 0 then negsuc 0 else pos 1)
unfolding version_order
difference_right x y a b h k = ground arith

difference_end :
    (y : ℕ) (b : Bytes)
    → digit y ≡ false
    → (sign (difference [] (y ∷ b)) ≡ (if text_rank y == 0 then pos 1 else negsuc 0))
      × (sign (difference (y ∷ b) []) ≡ (if text_rank y == 0 then negsuc 0 else pos 1))
unfolding version_order
difference_end y b k = (ground arith, ground arith)

zero_of_sign : (r z : ℤ) → sign r ≡ z → is_zero r ≡ is_zero z
zero_of_sign r z e = ground arith

-- A round that stops with a difference of the sign of `z`.
round_differs :
    (r z : ℤ) (a b a' b' : Bytes) (rest : Skipped)
    → sign r ≡ z
    → is_zero z ≡ false
    → (t : ℤ) → t ≡ z
    → Told (skip_on true r a b rest) t a' b'
round_differs r z a b a' b' rest e n t f = ground arith

module _ (r : ℤ) (rx ry : ℕ) (u v : List ℕ) (a b a' b' : Bytes) (rest : Skipped)
    (ih : Told rest (compare_text u v) a' b') where
  both_text :
      sign r ≡ three_way rx ry
      → (t : Bool) → is_zero (three_way rx ry) ≡ t
      → Told (skip_on true r a b rest) (compare_text (rx ∷ u) (ry ∷ v)) a' b'
  unfolding compare_text
  both_text e true z = ground arith
  both_text e false z = ground arith

  -- One round, with what the heads of both texts are as variables.
  round-Told :
      (dx dy : Bool)
      → (dx ≡ false → dy ≡ false → sign r ≡ three_way rx ry)
      → (dx ≡ true → dy ≡ false → sign r ≡ (if ry == 0 then pos 1 else negsuc 0))
      → (dx ≡ false → dy ≡ true → sign r ≡ (if rx == 0 then negsuc 0 else pos 1))
      → Told
          (skip_on (not dx || not dy) r a b rest)
          (compare_text (if dx then [] else rx ∷ u) (if dy then [] else ry ∷ v))
          (if dx then a else a')
          (if dy then b else b')
  round-Told true true h k l = unfold compare_text in (refl, refl, refl)
  round-Told true false h k l =
      unfold compare_text in round_differs r _ a b a b' rest (k refl refl) (ground arith) _ refl
  round-Told false true h k l =
      unfold compare_text in round_differs r _ a b a' b rest (l refl refl) (ground arith) _ refl
  round-Told false false h k l = both_text (h refl refl) (is_zero (three_way rx ry)) refl

-- The loop over text stops with a difference of the sign of `compare_text`, or behind both texts,
-- when `compare_text` finds them equal.
pub skip_text-Told :
    (a b : Bytes)
    → Told (skip_text a b) (compare_text (text_of a) (text_of b)) (after_text a) (after_text b)
unfolding skip_text text_of after_text
skip_text-Told [] [] = unfold compare_text in (refl, refl, refl)
skip_text-Told [] (y ∷ b) =
    round-Told (difference [] (y ∷ b)) 1 (text_rank y) [] (text_of b) [] (y ∷ b) [] (after_text b)
      (skip_text [] b) (skip_text-Told [] b) true (digit y) (λ e. absurd (cc))
      (λ _ e. (difference_end y b e).0) (λ e. absurd (cc))
skip_text-Told (x ∷ a) [] =
    round-Told (difference (x ∷ a) []) (text_rank x) 1 (text_of a) [] (x ∷ a) [] (after_text a) []
      (skip_text a []) (skip_text-Told a []) (digit x) true (λ _ e. absurd (cc))
      (λ _ e. absurd (cc)) (λ e _. (difference_end x a e).1)
skip_text-Told (x ∷ a) (y ∷ b) =
    round-Told (difference (x ∷ a) (y ∷ b)) (text_rank x) (text_rank y) (text_of a) (text_of b)
      (x ∷ a) (y ∷ b) (after_text a) (after_text b) (skip_text a b) (skip_text-Told a b) (digit x)
      (digit y) (difference_texts x y a b) (difference_left x y a b) (difference_right x y a b)
