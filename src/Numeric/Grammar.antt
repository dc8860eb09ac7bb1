-- ===== src/Numeric/Grammar.antt =====
-- The texts that `rank_numeric_parse` of src/numeric.c reads as numbers.
use rank.Base.{
  ℕ, ◌≡◌, ◌≢◌, refl, ap, ◌∙◌, Bool, true, false, ◌||◌, Option, none, some, [], ◌∷◌, ◌++◌,
  append-nil, arith, Bytes, All,
}
use rank.Numeric.{
  digit, is_blank, not_empty, any_nonzero, take_digits, drop_digits, skip_zeros, fraction,
  skip_sign, sign_negative, skip_blanks, rank_numeric_parse,
}
use rank.Numeric.Digits.{IsDigit}
use rank.Numeric.Value.{IsTrimmed}

-- A numeral as a user writes it.
pub record Numeral : Type 0 where
  pub blanks : Bytes
  pub sign : Option Bool
  pub zeros : Bytes
  pub whole : Bytes
  pub point : Option Bytes

-- `some true` is a minus sign.
abbrev pub sign_bytes : Option Bool → Bytes
sign_bytes none = []
sign_bytes (some true) = b'-' ∷ []
sign_bytes (some false) = b'+' ∷ []

abbrev pub point_bytes : Option Bytes → Bytes
point_bytes none = []
point_bytes (some digits) = b'.' ∷ digits

abbrev pub decimals : Option Bytes → Bytes
decimals none = []
decimals (some digits) = digits

abbrev pub is_minus : Option Bool → Bool
is_minus none = false
is_minus (some minus) = minus

-- The numeral with the text behind it.
abbrev pub spell : Numeral → Bytes → Bytes
spell n rest =
    n.blanks ++ (sign_bytes n.sign ++ (n.zeros ++ (n.whole ++ (point_bytes n.point ++ rest))))

-- The text behind the numeral does not go on with it.
abbrev pub Ends : Option Bytes → Bytes → Type 0
Ends p [] = Unit
Ends none (c ∷ rest) = (digit c ≡ false) × (c ≢ b'.')
Ends (some digits) (c ∷ rest) = digit c ≡ false

pub record IsNumeral (n : Numeral) : Type 0 where
  pub blanks_ok : All (λ c. is_blank c ≡ true) n.blanks
  pub zeros_ok : All (λ c. c ≡ b'0') n.zeros
  pub whole_ok : All IsDigit n.whole
  pub whole_trimmed : IsTrimmed n.whole
  pub point_ok : All IsDigit (decimals n.point)
  pub some_digit : n.zeros ++ n.whole ≢ []

skip_blanks-append :
    (s t : Bytes) → All (λ c. is_blank c ≡ true) s → skip_blanks (s ++ t) ≡ skip_blanks t
unfolding skip_blanks
skip_blanks-append [] t h = refl
skip_blanks-append (c ∷ s) t (e, h) = ground (arith, skip_blanks-append s t h)

take_digits-append : (s t : Bytes) → All IsDigit s → take_digits (s ++ t) ≡ s ++ take_digits t
unfolding take_digits
take_digits-append [] t h = refl
take_digits-append (c ∷ s) t (e, h) = ground (arith, take_digits-append s t h)

drop_digits-append : (s t : Bytes) → All IsDigit s → drop_digits (s ++ t) ≡ drop_digits t
unfolding drop_digits
drop_digits-append [] t h = refl
drop_digits-append (c ∷ s) t (e, h) = ground (arith, drop_digits-append s t h)

skip_zeros-append : (s t : Bytes) → All (λ c. c ≡ b'0') s → skip_zeros (s ++ t) ≡ skip_zeros t
unfolding skip_zeros
skip_zeros-append [] t h = refl
skip_zeros-append (c ∷ s) t (e, h) = ground (arith, skip_zeros-append s t h)

-- What follows the integer digits.
tail_take :
    (p : Option Bytes) (rest : Bytes) → Ends p rest → take_digits (point_bytes p ++ rest) ≡ []
unfolding take_digits
tail_take none [] h = refl
tail_take none (c ∷ rest) h = ground arith
tail_take (some digits) rest h = ground arith

tail_drop :
    (p : Option Bytes) (rest : Bytes)
    → Ends p rest
    → drop_digits (point_bytes p ++ rest) ≡ point_bytes p ++ rest
unfolding drop_digits
tail_drop none [] h = refl
tail_drop none (c ∷ rest) h = ground arith
tail_drop (some digits) rest h = ground arith

tail_zeros :
    (w : Bytes) (p : Option Bytes) (rest : Bytes)
    → IsTrimmed w
    → Ends p rest
    → skip_zeros (w ++ (point_bytes p ++ rest)) ≡ w ++ (point_bytes p ++ rest)
unfolding skip_zeros
tail_zeros (c ∷ w) p rest t h = ground arith
tail_zeros [] none [] t h = refl
tail_zeros [] none (c ∷ rest) t h = ground arith
tail_zeros [] (some digits) rest t h = ground arith

stop_take : (rest d : Bytes) → Ends (some d) rest → take_digits rest ≡ []
unfolding take_digits
stop_take [] d h = refl
stop_take (c ∷ rest) d h = ground arith

fraction_point :
    (p : Option Bytes) (rest : Bytes)
    → All IsDigit (decimals p)
    → Ends p rest
    → fraction (point_bytes p ++ rest) ≡ decimals p
unfolding fraction
fraction_point none [] d h = refl
fraction_point none (c ∷ rest) d h = ground arith
fraction_point (some digits) rest d h =
    take_digits-append digits rest d
    ∙ ap (λ t. digits ++ t) (stop_take rest digits h)
    ∙ append-nil digits

-- The first byte behind the blanks: a sign or a digit.
module _ (n : Numeral) (v : IsNumeral n) (rest : Bytes) where
  abbrev body : Bytes
  body = n.zeros ++ (n.whole ++ (point_bytes n.point ++ rest))

  head-IsDigit :
      (s t u : Bytes)
      → All (λ c. c ≡ b'0') s
      → All IsDigit t
      → s ++ t ≢ []
      → (c : ℕ) × (r : Bytes) × (s ++ (t ++ u) ≡ c ∷ r) × IsDigit c
  head-IsDigit [] [] u hs ht ne = absurd (ne refl)
  head-IsDigit [] (c ∷ t) u hs (d, ht) ne = (c, t ++ u, refl, d)
  head-IsDigit (c ∷ s) t u (e, hs) ht ne = (c, s ++ (t ++ u), refl, omega arith)

  signed_start :
      (sg : Option Bool) (s : Bytes) (c : ℕ) (r : Bytes)
      → s ≡ c ∷ r
      → IsDigit c
      → (skip_blanks (sign_bytes sg ++ s) ≡ sign_bytes sg ++ s)
        × (sign_negative (sign_bytes sg ++ s) ≡ is_minus sg)
        × (skip_sign (sign_bytes sg ++ s) ≡ s)
  unfolding skip_blanks sign_negative skip_sign
  signed_start none [] c r e d = absurd (cc)
  signed_start (some true) [] c r e d = absurd (cc)
  signed_start (some false) [] c r e d = absurd (cc)
  signed_start none (b ∷ s) c r e d = ground arith
  signed_start (some true) (b ∷ s) c r e d = ground arith
  signed_start (some false) (b ∷ s) c r e d = ground arith

  module _ (ends : Ends n.point rest) where
    behind_sign : skip_sign (skip_blanks (spell n rest)) ≡ body
    behind_sign =
        let (c, r, e, d) =
          head-IsDigit n.zeros n.whole (point_bytes n.point ++ rest) v.zeros_ok v.whole_ok
            v.some_digit in
        let (keeps, _, skips) = signed_start n.sign body c r e d in
        ap skip_sign (skip_blanks-append n.blanks (sign_bytes n.sign ++ body) v.blanks_ok ∙ keeps)
        ∙ skips

    sign_read : sign_negative (skip_blanks (spell n rest)) ≡ is_minus n.sign
    sign_read =
        let (c, r, e, d) =
          head-IsDigit n.zeros n.whole (point_bytes n.point ++ rest) v.zeros_ok v.whole_ok
            v.some_digit in
        let (keeps, minus, _) = signed_start n.sign body c r e d in
        ap sign_negative
          (skip_blanks-append n.blanks (sign_bytes n.sign ++ body) v.blanks_ok ∙ keeps)
        ∙ minus

    start_eq :
        skip_zeros (skip_sign (skip_blanks (spell n rest)))
        ≡ n.whole ++ (point_bytes n.point ++ rest)
    start_eq =
        ap skip_zeros behind_sign
        ∙ skip_zeros-append n.zeros (n.whole ++ (point_bytes n.point ++ rest)) v.zeros_ok
        ∙ tail_zeros n.whole n.point rest v.whole_trimmed ends

    whole_read : take_digits (n.whole ++ (point_bytes n.point ++ rest)) ≡ n.whole
    whole_read =
        take_digits-append n.whole (point_bytes n.point ++ rest) v.whole_ok
        ∙ ap (λ t. n.whole ++ t) (tail_take n.point rest ends)
        ∙ append-nil n.whole

    fraction_read :
        fraction (drop_digits (n.whole ++ (point_bytes n.point ++ rest))) ≡ decimals n.point
    fraction_read =
        ap fraction (
          drop_digits-append n.whole (point_bytes n.point ++ rest) v.whole_ok
          ∙ tail_drop n.point rest ends)
        ∙ fraction_point n.point rest v.point_ok ends

-- A numeral, blanks and a sign and superfluous zeros in front of it, is read back as its sign, its
-- digits before and its digits behind the point, if it has a digit before the point and the text
-- behind it does not go on with it; the flag says whether a digit is not '0'.
pub rank_numeric_parse-spell :
    (n : Numeral) (rest : Bytes)
    → IsNumeral n
    → Ends n.point rest
    → rank_numeric_parse (spell n rest) ≡ record {
      negative = is_minus n.sign;
      int_digits = n.whole;
      frac_digits = decimals n.point;
      nonzero = not_empty n.whole || any_nonzero (decimals n.point);
    }
unfolding rank_numeric_parse
rank_numeric_parse-spell n rest v ends =
    rw
      (
        start_eq n v rest ends,
        sign_read n v rest ends,
        whole_read n v rest ends,
        fraction_read n v rest ends,
      )
      refl
