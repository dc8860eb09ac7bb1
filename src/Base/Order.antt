-- ===== src/Base/Order.antt =====
-- What a sort needs of its comparison function: a total preorder, told by the sign of the result.
use mathlib.Core.Path.{◌≡◌}
use mathlib.Core.Bool.{true, false}
use native.Mathlib.Omega.{arith}
use rank.Base.Tests.{if◌then◌else◌}
use rank.Base.Int.{ℤ, is_neg, is_pos, is_zero, neg, sign, three_way, is_pos-neg, is_neg-neg}

pub record IsOrder {ℓ} {A : Type ℓ} (cmp : A → A → ℤ) : Type ℓ where
  pub flip : (a b : A) → is_pos (cmp a b) ≡ is_neg (cmp b a)
  pub trans :
      (a b c : A) → is_pos (cmp a b) ≡ false → is_pos (cmp b c) ≡ false → is_pos (cmp a c) ≡ false

-- `r = first; if (r != 0) return r; return second;`
abbrev pub or_else : ℤ → ℤ → ℤ
or_else r s = if is_zero r then s else r

pub or_else-nonpos : (r s : ℤ) → is_pos r ≡ false → is_pos s ≡ false → is_pos (or_else r s) ≡ false
or_else-nonpos r s p q = ground arith

module _ {ℓ} {A : Type ℓ} {cmp : A → A → ℤ} (o : IsOrder cmp) where
  pub cmp_self : (a : A) → is_zero (cmp a a) ≡ true
  cmp_self a = ground (arith, o.flip a a)

  -- Equality in the order is symmetric.
  pub cmp_zero_sym : (a b : A) → is_zero (cmp a b) ≡ is_zero (cmp b a)
  cmp_zero_sym a b = ground (arith, o.flip a b, o.flip b a)

  -- Equal values compare alike with any third value.
  pub cmp_zero_trans :
      (a b c : A) → is_zero (cmp a b) ≡ true → is_zero (cmp b c) ≡ is_zero (cmp a c)
  cmp_zero_trans a b c h = ground (
    arith,
    o.flip a b,
    o.flip b a,
    o.flip b c,
    o.flip c b,
    o.flip a c,
    o.flip c a,
    o.trans a b c,
    o.trans b a c,
    o.trans c a b,
    o.trans c b a,
  )

  pub lt_of_lt_of_le :
      (a b c : A) → is_pos (cmp b a) ≡ true → is_pos (cmp b c) ≡ false → is_pos (cmp c a) ≡ true
  lt_of_lt_of_le a b c h k = ground (arith, o.trans b c a)

  pub IsOrder-neg : IsOrder (λ a b. neg (cmp a b))
  IsOrder-neg = record {
    flip = λ a b. ground (arith, is_pos-neg (cmp a b), is_neg-neg (cmp b a), o.flip b a);
    trans = λ a b c p q. ground (
      arith,
      is_pos-neg (cmp a b),
      is_pos-neg (cmp b c),
      is_pos-neg (cmp a c),
      o.flip b a,
      o.flip c b,
      o.flip c a,
      o.trans c b a,
    );
  }

-- Comparing by a key.
pub IsOrder-on {ℓ κ} :
    {A : Type ℓ} {B : Type κ} {cmp : B → B → ℤ} (f : A → B)
    → IsOrder cmp
    → IsOrder (λ a b. cmp (f a) (f b))
IsOrder-on f o = record {
  flip = λ a b. o.flip (f a) (f b);
  trans = λ a b c. o.trans (f a) (f b) (f c);
}

-- Comparing by two functions in turn.
module _ {ℓ} {A : Type ℓ} {c d : A → A → ℤ} (o : IsOrder c) (p : IsOrder d) where
  or_else-flip : (x y : A) → is_pos (or_else (c x y) (d x y)) ≡ is_neg (or_else (c y x) (d y x))
  or_else-flip x y = ground (arith, o.flip x y, o.flip y x, p.flip x y)

  or_else_trans :
      (x y z : A)
      → is_pos (or_else (c x y) (d x y)) ≡ false
      → is_pos (or_else (c y z) (d y z)) ≡ false
      → is_pos (or_else (c x z) (d x z)) ≡ false
  or_else_trans x y z h k = ground (
    arith,
    o.flip x y,
    o.flip y x,
    o.flip y z,
    o.flip z y,
    o.flip x z,
    o.flip z x,
    o.trans x y z,
    o.trans z x y,
    o.trans y z x,
    p.trans x y z,
  )

  pub IsOrder-or_else : IsOrder (λ x y. or_else (c x y) (d x y))
  IsOrder-or_else = record { flip = or_else-flip; trans = or_else_trans }

pub IsOrder-three_way : IsOrder three_way
IsOrder-three_way = record { flip = λ a b. ground arith; trans = λ a b c p q. ground arith }

-- A comparison function that always returns what an order returns is an order.
pub IsOrder-eq {ℓ} :
    {A : Type ℓ} {c d : A → A → ℤ} → ((a b : A) → c a b ≡ d a b) → IsOrder d → IsOrder c
IsOrder-eq e o = record {
  flip = λ a b. ground (arith, e a b, e b a, o.flip a b);
  trans = λ a b x p q. ground (arith, e a b, e b x, e a x, o.trans a b x);
}

pub is_pos_of_sign : (r s : ℤ) → sign r ≡ sign s → is_pos r ≡ is_pos s
is_pos_of_sign r s e = ground arith

pub is_neg_of_sign : (r s : ℤ) → sign r ≡ sign s → is_neg r ≡ is_neg s
is_neg_of_sign r s e = ground arith

-- So is one whose results have the signs of an order's.
pub IsOrder-sign {ℓ} :
    {A : Type ℓ} {c d : A → A → ℤ}
    → ((a b : A) → sign (c a b) ≡ sign (d a b))
    → IsOrder d
    → IsOrder c
IsOrder-sign {c} {d} e o = record {
  flip = λ a b. ground (
    arith,
    is_pos_of_sign (c a b) (d a b) (e a b),
    is_neg_of_sign (c b a) (d b a) (e b a),
    o.flip a b,
  );
  trans = λ a b x p q. ground (
    arith,
    is_pos_of_sign (c a b) (d a b) (e a b),
    is_pos_of_sign (c b x) (d b x) (e b x),
    is_pos_of_sign (c a x) (d a x) (e a x),
    o.trans a b x,
  );
}
