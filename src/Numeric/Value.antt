-- ===== src/Numeric/Value.antt =====
-- The `-n` comparison of src/numeric.c against the numbers that the texts stand for.
use Prim.Native.Nat.{ℕ, ◌+◌, ◌-◌, ◌*◌, ◌≤◌, ◌<◌, max}
use rank.Base.{
  ◌≡◌, ◌≢◌, refl, sym, ap, ap₂, ◌∙◌, true, false, ◌||◌, [], ◌∷◌, ◌++◌, arith, ℤ, pos, negsuc,
  is_neg, is_pos, sub_ℕ, three_way, or_else, IsOrder, if◌then◌else◌, length, length-append, Bytes,
  All, All-append,
}
use rank.Numeric.{
  NumericValue, not_empty, any_nonzero, take_digits, skip_zeros, fraction, drop_digits, skip_sign,
  skip_blanks, compare_int_digits, compare_frac_digits, compare_magnitude, rank_numeric_parse,
  rank_numeric_compare_values, rank_numeric_compare,
}
use rank.Numeric.Digits.{
  IsDigit, value, pad, length-pad, pad-IsDigit, take_digits-IsDigit, value-lex, value_longer,
  compare_int_digits-lex, compare_frac_digits-lex, lex-append, any_nonzero-append, any_nonzero-pad,
  value_nonzero, value_zero,
}

-- No superfluous zero in front.
abbrev pub IsTrimmed : Bytes → Type 0
IsTrimmed [] = Unit
IsTrimmed (c ∷ s) = c ≢ b'0'

-- What `rank_numeric_parse` makes of any text.
pub record IsNumeric (v : NumericValue) : Type 0 where
  pub int_ok : All IsDigit v.int_digits
  pub frac_ok : All IsDigit v.frac_digits
  pub trimmed : IsTrimmed v.int_digits
  pub flag : v.nonzero ≡ (not_empty v.int_digits || any_nonzero v.frac_digits)

fraction-IsDigit : (s : Bytes) → All IsDigit (fraction s)
unfolding fraction
fraction-IsDigit [] = tt
fraction-IsDigit (c ∷ s) = ground (arith, take_digits-IsDigit s)

pub skip_zeros-IsTrimmed : (s : Bytes) → IsTrimmed (take_digits (skip_zeros s))
unfolding skip_zeros take_digits
skip_zeros-IsTrimmed [] = tt
skip_zeros-IsTrimmed (c ∷ s) = ground (arith, skip_zeros-IsTrimmed s)

-- Every text is parsed to digit spans with no leading zero and the flag that they call for.
pub rank_numeric_parse-IsNumeric : (text : Bytes) → IsNumeric (rank_numeric_parse text)
unfolding rank_numeric_parse
rank_numeric_parse-IsNumeric text = record {
  int_ok = take_digits-IsDigit (skip_zeros (skip_sign (skip_blanks text)));
  frac_ok = fraction-IsDigit (drop_digits (skip_zeros (skip_sign (skip_blanks text))));
  trimmed = skip_zeros-IsTrimmed (skip_sign (skip_blanks text));
  flag = refl;
}

-- The digits of `v` with `k` places behind the point, and the number that they spell: the
-- absolute value of `v`, in units of 10 to the power -k.
abbrev pub places : ℕ → NumericValue → Bytes
places k v = v.int_digits ++ pad k v.frac_digits

abbrev pub decimal : ℕ → NumericValue → ℕ
decimal k v = value 0 (places k v)

abbrev pub signed : ℕ → NumericValue → ℤ
signed k v = if v.negative then sub_ℕ 0 (decimal k v) else pos (decimal k v)

-- The order of the integers.
abbrev pub compare_ℤ : ℤ → ℤ → ℤ
compare_ℤ (pos m) (pos n) = three_way m n
compare_ℤ (pos m) (negsuc n) = pos 1
compare_ℤ (negsuc m) (pos n) = negsuc 0
compare_ℤ (negsuc m) (negsuc n) = three_way n m

module _ (k : ℕ) (v : NumericValue) (w : IsNumeric v) (h : length v.frac_digits ≤ k) where
  places-IsDigit : All IsDigit (places k v)
  places-IsDigit =
      All-append IsDigit v.int_digits (pad k v.frac_digits) w.int_ok (pad-IsDigit k _ w.frac_ok)

  any_nonzero_trimmed : (s : Bytes) → IsTrimmed s → any_nonzero s ≡ not_empty s
  unfolding any_nonzero
  any_nonzero_trimmed [] t = refl
  any_nonzero_trimmed (c ∷ s) t = ground arith

  any_nonzero-places : any_nonzero (places k v) ≡ v.nonzero
  any_nonzero-places = ground (
    arith,
    any_nonzero-append v.int_digits (pad k v.frac_digits),
    any_nonzero-pad k v.frac_digits,
    any_nonzero_trimmed v.int_digits w.trimmed,
    w.flag,
  )

  decimal_pos : v.nonzero ≡ true → 0 < decimal k v
  decimal_pos e = value_nonzero (places k v) places-IsDigit (any_nonzero-places ∙ e)

  decimal_zero : v.nonzero ≡ false → decimal k v ≡ 0
  decimal_zero e = value_zero (places k v) (any_nonzero-places ∙ e)

-- More integer digits, a greater number.
longer_greater :
    (s t u v : Bytes)
    → length s < length t
    → length u ≡ length v
    → All IsDigit (s ++ u)
    → All IsDigit t
    → IsTrimmed t
    → value 0 (s ++ u) < value 0 (t ++ v)
longer_greater s [] u v h e d d' r = absurd (omega arith)
longer_greater s (c ∷ t) u v h e d d' r =
    value_longer (0 * 10 + (c - b'0')) (s ++ u) (t ++ v)
      (omega (arith, length-append s u, length-append t v)) d (ground (arith, d'.0))

module _ (k : ℕ) (a b : NumericValue) (va : IsNumeric a) (vb : IsNumeric b)
    (ha : length a.frac_digits ≤ k) (hb : length b.frac_digits ≤ k) where
  same_length :
      length a.int_digits ≡ length b.int_digits
      → three_way (decimal k a) (decimal k b)
        ≡ or_else
            (compare_int_digits a.int_digits b.int_digits)
            (compare_frac_digits a.frac_digits b.frac_digits)
  same_length e =
      value-lex 0 (places k a) (places k b)
        (omega (
          arith,
          length-append a.int_digits (pad k a.frac_digits),
          length-append b.int_digits (pad k b.frac_digits),
          length-pad k a.frac_digits,
          length-pad k b.frac_digits,
        ))
        (places-IsDigit k a va ha) (places-IsDigit k b vb hb)
      ∙ lex-append a.int_digits b.int_digits _ _ e
      ∙ ap₂ or_else (sym (compare_int_digits-lex _ _ e)) (sym (compare_frac_digits-lex k _ _ ha hb))

  pads : length (pad k a.frac_digits) ≡ length (pad k b.frac_digits)
  pads = length-pad k a.frac_digits ∙ sym (length-pad k b.frac_digits)

  -- Comparing the digit spans compares the absolute values.
  compare_magnitude-decimal : compare_magnitude a b ≡ three_way (decimal k a) (decimal k b)
  unfolding compare_magnitude
  compare_magnitude-decimal = ground (
    arith,
    same_length,
    longer_greater a.int_digits b.int_digits _ _ _ pads (places-IsDigit k a va ha) vb.int_ok
        vb.trimmed,
    longer_greater b.int_digits a.int_digits _ _ _ (sym pads) (places-IsDigit k b vb hb) va.int_ok
        va.trimmed,
  )

  -- The sign and the flags turn it into a comparison of the numbers.
  compare_values-signed : rank_numeric_compare_values a b ≡ compare_ℤ (signed k a) (signed k b)
  unfolding rank_numeric_compare_values
  compare_values-signed = ground (
    arith,
    compare_magnitude-decimal,
    decimal_pos k a va ha,
    decimal_pos k b vb hb,
    decimal_zero k a va ha,
    decimal_zero k b vb hb,
  )

-- `rank_numeric_compare` is the order of the signed decimal numbers that the two texts start with,
-- written in any unit 10^-k that is fine enough for both fractions.
pub rank_numeric_compare-signed :
    (a b : Bytes) (k : ℕ)
    → length (rank_numeric_parse a).frac_digits ≤ k
    → length (rank_numeric_parse b).frac_digits ≤ k
    → rank_numeric_compare a b
      ≡ compare_ℤ (signed k (rank_numeric_parse a)) (signed k (rank_numeric_parse b))
unfolding rank_numeric_compare
rank_numeric_compare-signed a b k h h' =
    compare_values-signed k (rank_numeric_parse a) (rank_numeric_parse b)
      (rank_numeric_parse-IsNumeric a) (rank_numeric_parse-IsNumeric b) h h'

compare_ℤ-IsOrder : IsOrder compare_ℤ
compare_ℤ-IsOrder = record { flip = λ a b. ground arith; trans = λ a b c p q. ground arith }

abbrev scale : Bytes → ℕ
scale a = length (rank_numeric_parse a).frac_digits

numeric-flip : (a b : Bytes) → is_pos (rank_numeric_compare a b) ≡ is_neg (rank_numeric_compare b a)
numeric-flip a b =
    let k = max (scale a) (scale b) in
    let x = signed k (rank_numeric_parse a) in
    let y = signed k (rank_numeric_parse b) in
    ap is_pos (rank_numeric_compare-signed a b k (omega arith) (omega arith))
    ∙ compare_ℤ-IsOrder.flip x y
    ∙ ap is_neg (sym (rank_numeric_compare-signed b a k (omega arith) (omega arith)))

numeric_trans :
    (a b c : Bytes)
    → is_pos (rank_numeric_compare a b) ≡ false
    → is_pos (rank_numeric_compare b c) ≡ false
    → is_pos (rank_numeric_compare a c) ≡ false
numeric_trans a b c p q =
    let k = max (scale a) (max (scale b) (scale c)) in
    let x = signed k (rank_numeric_parse a) in
    let y = signed k (rank_numeric_parse b) in
    let z = signed k (rank_numeric_parse c) in
    ap is_pos (rank_numeric_compare-signed a c k (omega arith) (omega arith))
    ∙ compare_ℤ-IsOrder.trans x y z
        (sym (ap is_pos (rank_numeric_compare-signed a b k (omega arith) (omega arith))) ∙ p)
        (sym (ap is_pos (rank_numeric_compare-signed b c k (omega arith) (omega arith))) ∙ q)

-- `rank_numeric_compare` is a total preorder on all texts.
pub rank_numeric_compare-IsOrder : IsOrder rank_numeric_compare
rank_numeric_compare-IsOrder = record { flip = numeric-flip; trans = numeric_trans }
