-- ===== src/Numeric/Long.antt =====
-- The `-g` and `-h` orders of src/numeric.c, over the `long double` of the platform.
use Prim.Native.Nat.{ℕ, zero, suc}
use rank.Base.{
  ◌≡◌, Bool, true, false, not, ◌||◌, none, some, [], ◌∷◌, arith, ℤ, pos, negsuc, is_pos, is_neg,
  IsOrder, ltb, ◌==◌, if◌then◌else◌, get_elem?, Bytes,
}

-- `long double` and what the program uses of it: `<`, `isnan`, 0, the product with 1024, and
-- `strtold`, which returns the value and the number of bytes that it used.
pub record LongDouble : Type 1 where
  pub D : Type 0
  pub less : D → D → Bool
  pub isnan : D → Bool
  pub zero_value : D
  pub times_1024 : D → D
  pub strtold : Bytes → D × ℕ

-- IEEE 754: numbers that are no NaN are totally preordered by `<`, 0 is one, and the product of one
-- with 1024 is one.
pub record IsIeee (L : LongDouble) : Type 0 where
  pub asym : (x y : L.D) → L.less x y ≡ true → L.less y x ≡ false
  pub connected :
      (x y z : L.D)
      → L.isnan y ≡ false
      → L.less y x ≡ false
      → L.less z y ≡ false
      → L.less z x ≡ false
  pub zero_number : L.isnan L.zero_value ≡ false
  pub times_number : (x : L.D) → L.isnan x ≡ false → L.isnan (L.times_1024 x) ≡ false

-- The text as `strtold` sees it: up to the first NUL.
unfoldable pub c_string : Bytes → Bytes
c_string [] = []
c_string (c ∷ text) = if c == 0 then [] else c ∷ c_string text

-- `human_suffix_power`
unfoldable pub human_suffix_power : ℕ → ℕ
human_suffix_power byte =
    if byte == b'K' || byte == b'k'
    then 1
    else if byte == b'M'
    then 2
    else if byte == b'G'
    then 3
    else if byte == b'T'
    then 4
    else if byte == b'P'
    then 5
    else if byte == b'E'
    then 6
    else if byte == b'Z'
    then 7
    else if byte == b'Y'
    then 8
    else if byte == b'R'
    then 9
    else if byte == b'Q'
    then 10
    else 0

-- `*endptr`: the byte at the place where `strtold` stopped, or the NUL behind the text.
abbrev pub byte_at : Bytes → ℕ → ℕ
byte_at text i = elim (get_elem? text i) [ none ↦ 0 | some c ↦ c ]

module _ (L : LongDouble) where
  open L use {D, less, isnan, zero_value, times_1024, strtold}

  pub record GeneralValue : Type 0 where
    pub number : D
    pub kind : ℕ

  unfoldable pub rank_general_numeric_parse : Bytes → GeneralValue
  rank_general_numeric_parse text =
      let (x, used) = strtold (c_string text) in
      if used == 0
      then record { number = zero_value; kind = 0 }
      else if isnan x
      then record { number = x; kind = 1 }
      else record { number = x; kind = 2 }

  unfoldable pub rank_general_numeric_compare_values : GeneralValue → GeneralValue → ℤ
  rank_general_numeric_compare_values a b =
      if ltb a.kind b.kind
      then negsuc 0
      else if ltb b.kind a.kind
      then pos 1
      else if not (a.kind == 2)
      then pos 0
      else if less a.number b.number
      then negsuc 0
      else if less b.number a.number
      then pos 1
      else pos 0

  -- `while (power > 0) { value *= 1024; power--; }`
  unfoldable pub scale_human : ℕ → D → D
  scale_human zero x = x
  scale_human (suc power) x = scale_human power (times_1024 x)

  unfoldable pub rank_human_numeric_parse : Bytes → D
  unfolding human_suffix_power scale_human
  rank_human_numeric_parse text =
      let (x, used) = strtold (c_string text) in
      if used == 0 || isnan x
      then zero_value
      else scale_human (human_suffix_power (byte_at (c_string text) used)) x

  unfoldable pub rank_human_numeric_compare_values : D → D → ℤ
  rank_human_numeric_compare_values a b =
      if less a b then negsuc 0 else if less b a then pos 1 else pos 0

-- What `strtold` makes of a text.
pub data Reading (D : Type 0) : Type 0 where
  no_number : Reading D
  nan : Reading D
  value_of : D → Reading D

abbrev pub reading : (L : LongDouble) → Bytes → Reading L.D
reading L text =
    let (x, used) = L.strtold (c_string text) in
    if used == 0 then no_number else if L.isnan x then nan else value_of x

-- The order of readings.
abbrev pub general_order : (L : LongDouble) → Reading L.D → Reading L.D → ℤ
general_order L no_number no_number = pos 0
general_order L no_number nan = negsuc 0
general_order L no_number (value_of y) = negsuc 0
general_order L nan no_number = pos 1
general_order L nan nan = pos 0
general_order L nan (value_of y) = negsuc 0
general_order L (value_of x) no_number = pos 1
general_order L (value_of x) nan = pos 1
general_order L (value_of x) (value_of y) =
    if L.less x y then negsuc 0 else if L.less y x then pos 1 else pos 0

module _ {L : LongDouble} (ieee : IsIeee L) where
  open L use {D, less, isnan, zero_value, times_1024, strtold}

  numbers_flip :
      (x y : D)
      → is_pos (rank_human_numeric_compare_values L x y)
        ≡ is_neg (rank_human_numeric_compare_values L y x)
  unfolding rank_human_numeric_compare_values
  numbers_flip x y = ground (arith, ieee.asym x y, ieee.asym y x)

  numbers_trans :
      (x y z : D)
      → isnan y ≡ false
      → is_pos (rank_human_numeric_compare_values L x y) ≡ false
      → is_pos (rank_human_numeric_compare_values L y z) ≡ false
      → is_pos (rank_human_numeric_compare_values L x z) ≡ false
  unfolding rank_human_numeric_compare_values
  numbers_trans x y z n h k = ground (
    arith,
    ieee.asym x y,
    ieee.asym y x,
    ieee.asym y z,
    ieee.asym z y,
    ieee.asym x z,
    ieee.asym z x,
    ieee.connected x y z n,
  )

  scale_human-number : (p : ℕ) (x : D) → isnan x ≡ false → isnan (scale_human L p x) ≡ false
  unfolding scale_human
  scale_human-number zero x h = h
  scale_human-number (suc p) x h = scale_human-number p (times_1024 x) (ieee.times_number x h)

  -- The value of a `-h` key is never a NaN.
  pub rank_human_numeric_parse-number :
      (text : Bytes) → isnan (rank_human_numeric_parse L text) ≡ false
  unfolding rank_human_numeric_parse
  rank_human_numeric_parse-number text =
      let (x, used) = strtold (c_string text) in
      ground (
        arith,
        ieee.zero_number,
        scale_human-number (human_suffix_power (byte_at (c_string text) used)) x,
      )

  -- On IEEE numbers the `-h` comparison of two texts is a total preorder.
  pub rank_human_numeric_compare-IsOrder : IsOrder (λ a b.
      rank_human_numeric_compare_values L
        (rank_human_numeric_parse L a)
        (rank_human_numeric_parse L b))
  rank_human_numeric_compare-IsOrder = record {
    flip = λ a b. numbers_flip (rank_human_numeric_parse L a) (rank_human_numeric_parse L b);
    trans = λ a b c.
        numbers_trans (rank_human_numeric_parse L a) (rank_human_numeric_parse L b)
          (rank_human_numeric_parse L c) (rank_human_numeric_parse-number b);
  }

  rank_general_numeric_parse-IsGeneral :
      (text : Bytes)
      → (rank_general_numeric_parse L text).kind ≡ 2
      → isnan (rank_general_numeric_parse L text).number ≡ false
  unfolding rank_general_numeric_parse
  rank_general_numeric_parse-IsGeneral text h = ground arith

  general_flip :
      (v w : GeneralValue L)
      → is_pos (rank_general_numeric_compare_values L v w)
        ≡ is_neg (rank_general_numeric_compare_values L w v)
  unfolding rank_general_numeric_compare_values
  general_flip v w = ground (arith, ieee.asym v.number w.number, ieee.asym w.number v.number)

  general_trans :
      (u v w : GeneralValue L)
      → (v.kind ≡ 2 → isnan v.number ≡ false)
      → is_pos (rank_general_numeric_compare_values L u v) ≡ false
      → is_pos (rank_general_numeric_compare_values L v w) ≡ false
      → is_pos (rank_general_numeric_compare_values L u w) ≡ false
  unfolding rank_general_numeric_compare_values
  general_trans u v w n h k = ground (
    arith,
    n,
    ieee.asym u.number v.number,
    ieee.asym v.number u.number,
    ieee.asym v.number w.number,
    ieee.asym w.number v.number,
    ieee.asym u.number w.number,
    ieee.asym w.number u.number,
    ieee.connected u.number v.number w.number,
  )

  rank_general_numeric_compare-IsOrder : IsOrder (λ a b.
      rank_general_numeric_compare_values L
        (rank_general_numeric_parse L a)
        (rank_general_numeric_parse L b))
  rank_general_numeric_compare-IsOrder = record {
    flip = λ a b. general_flip (rank_general_numeric_parse L a) (rank_general_numeric_parse L b);
    trans = λ a b c.
        general_trans (rank_general_numeric_parse L a) (rank_general_numeric_parse L b)
          (rank_general_numeric_parse L c) (rank_general_numeric_parse-IsGeneral b);
  }

  rank_general_numeric_compare-general_order :
      (a b : Bytes)
      → rank_general_numeric_compare_values L
          (rank_general_numeric_parse L a)
          (rank_general_numeric_parse L b)
        ≡ general_order L (reading L a) (reading L b)
  unfolding rank_general_numeric_compare_values rank_general_numeric_parse
  rank_general_numeric_compare-general_order a b = ground arith

  -- On IEEE numbers the `-g` comparison of two texts is a total preorder. Texts that `strtold` reads no
  -- number from are equal and come first, then come the texts that it reads a NaN from, equal among
  -- themselves, and then the others, by the values that it returns.
  pub rank_general_numeric_compare-classes :
      IsOrder (λ a b.
        rank_general_numeric_compare_values L
          (rank_general_numeric_parse L a)
          (rank_general_numeric_parse L b))
      × ((a b : Bytes)
          → rank_general_numeric_compare_values L
              (rank_general_numeric_parse L a)
              (rank_general_numeric_parse L b)
            ≡ general_order L (reading L a) (reading L b))
  rank_general_numeric_compare-classes =
      (rank_general_numeric_compare-IsOrder, rank_general_numeric_compare-general_order)
