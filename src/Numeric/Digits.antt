-- ===== src/Numeric/Digits.antt =====
-- Digit strings and the numbers that they spell; why comparing digits compares numbers.
use Prim.Native.Nat.{ℕ, zero, suc, ◌+◌, ◌-◌, ◌*◌, ◌≤◌, ◌<◌}
use rank.Base.{
  ◌≡◌, refl, ap, true, false, ◌||◌, inl, inr, Bool-cases, ==→eq, [], ◌∷◌, ◌++◌, arith, three_way,
  or_else, ◌==◌, length, Bytes, All,
}
use rank.Locale.Lex.{lex}
use rank.Numeric.{any_nonzero, take_digits, compare_int_digits, compare_frac_digits}

abbrev pub IsDigit : ℕ → Type 0
IsDigit byte = (b'0' ≤ byte) × (byte ≤ b'9')

-- The number that `s` spells behind the digits of `n`.
abbrev pub value : ℕ → Bytes → ℕ
value n [] = n
value n (c ∷ s) = value (n * 10 + (c - b'0')) s

-- `s` followed by zeros up to `k` bytes.
abbrev pub pad : ℕ → Bytes → Bytes
pad zero s = []
pad (suc k) [] = b'0' ∷ pad k []
pad (suc k) (c ∷ s) = c ∷ pad k s

pub length-pad : (k : ℕ) (s : Bytes) → length (pad k s) ≡ k
length-pad zero s = refl
length-pad (suc k) [] = ap suc (length-pad k [])
length-pad (suc k) (c ∷ s) = ap suc (length-pad k s)

pub pad-IsDigit : (k : ℕ) (s : Bytes) → All IsDigit s → All IsDigit (pad k s)
pad-IsDigit zero s h = tt
pad-IsDigit (suc k) [] h = (omega arith, pad-IsDigit k [] tt)
pad-IsDigit (suc k) (c ∷ s) (d, h) = (d, pad-IsDigit k s h)

pub take_digits-IsDigit : (s : Bytes) → All IsDigit (take_digits s)
unfolding take_digits
take_digits-IsDigit [] = tt
take_digits-IsDigit (c ∷ s) = ground (arith, take_digits-IsDigit s)

pub value-append : (n : ℕ) (s t : Bytes) → value n (s ++ t) ≡ value (value n s) t
value-append n [] t = refl
value-append n (c ∷ s) t = value-append (n * 10 + (c - b'0')) s t

-- A greater prefix stays greater, whatever digits follow.
pub value_mono :
    (m n : ℕ) (s t : Bytes) → length s ≡ length t → All IsDigit s → m < n → value m s < value n t
value_mono m n [] [] e h lt = lt
value_mono m n [] (d ∷ t) e h lt = absurd (omega arith)
value_mono m n (c ∷ s) [] e h lt = absurd (omega arith)
value_mono m n (c ∷ s) (d ∷ t) e (dc, h) lt =
    value_mono (m * 10 + (c - b'0')) (n * 10 + (d - b'0')) s t (omega arith) h (omega arith)

-- Among digit strings of one length the lexicographic order is the order of the numbers.
pub value-lex :
    (n : ℕ) (s t : Bytes)
    → length s ≡ length t
    → All IsDigit s
    → All IsDigit t
    → three_way (value n s) (value n t) ≡ lex s t
unfolding lex
value-lex n [] [] e h k = ground arith
value-lex n [] (d ∷ t) e h k = absurd (omega arith)
value-lex n (c ∷ s) [] e h k = absurd (omega arith)
value-lex n (c ∷ s) (d ∷ t) e (dc, h) (dd, k) =
    let m = n * 10 + (c - b'0') in
    let m' = n * 10 + (d - b'0') in
    ground (arith, value_mono m m' s t, value_mono m' m t s, value-lex m s t)

-- A longer string with a positive prefix is greater.
pub value_longer :
    (n : ℕ) (s t : Bytes) → length s ≤ length t → All IsDigit s → 0 < n → value 0 s < value n t
value_longer n s [] e h lt = value_mono 0 n s [] (omega arith) h lt
value_longer n s (d ∷ t) e h lt = elim (Bool-cases (length s == suc (length t))) [
  | inl same ↦ value_mono 0 n s (d ∷ t) (==→eq _ _ same) h lt
  | inr less ↦ value_longer (n * 10 + (d - b'0')) s t (ground arith) h (omega arith)
]

-- The loops of `compare_magnitude` against the lexicographic order.
pub compare_int_digits-lex : (s t : Bytes) → length s ≡ length t → compare_int_digits s t ≡ lex s t
unfolding compare_int_digits lex
compare_int_digits-lex [] [] e = refl
compare_int_digits-lex [] (d ∷ t) e = absurd (omega arith)
compare_int_digits-lex (c ∷ s) [] e = absurd (omega arith)
compare_int_digits-lex (c ∷ s) (d ∷ t) e = ground (arith, compare_int_digits-lex s t)

pub compare_frac_digits-lex :
    (k : ℕ) (s t : Bytes)
    → length s ≤ k
    → length t ≤ k
    → compare_frac_digits s t ≡ lex (pad k s) (pad k t)
unfolding compare_frac_digits lex
compare_frac_digits-lex zero [] [] h h' = refl
compare_frac_digits-lex zero (c ∷ s) t h h' = absurd (omega arith)
compare_frac_digits-lex zero [] (d ∷ t) h h' = absurd (omega arith)
compare_frac_digits-lex (suc k) [] [] h h' =
    ground (arith, compare_frac_digits-lex k [] [] (omega arith) (omega arith))
compare_frac_digits-lex (suc k) [] (d ∷ t) h h' =
    ground (arith, compare_frac_digits-lex k [] t (omega arith) (omega arith))
compare_frac_digits-lex (suc k) (c ∷ s) [] h h' =
    ground (arith, compare_frac_digits-lex k s [] (omega arith) (omega arith))
compare_frac_digits-lex (suc k) (c ∷ s) (d ∷ t) h h' =
    ground (arith, compare_frac_digits-lex k s t (omega arith) (omega arith))

pub lex-append :
    (s t u v : Bytes) → length s ≡ length t → lex (s ++ u) (t ++ v) ≡ or_else (lex s t) (lex u v)
unfolding lex
lex-append [] [] u v e = refl
lex-append [] (d ∷ t) u v e = absurd (omega arith)
lex-append (c ∷ s) [] u v e = absurd (omega arith)
lex-append (c ∷ s) (d ∷ t) u v e = ground (arith, lex-append s t u v)

-- A digit string spells 0 exactly if it holds no digit but '0'.
pub any_nonzero-append : (s t : Bytes) → any_nonzero (s ++ t) ≡ (any_nonzero s || any_nonzero t)
unfolding any_nonzero
any_nonzero-append [] t = refl
any_nonzero-append (c ∷ s) t = ground (arith, any_nonzero-append s t)

pub any_nonzero-pad : (k : ℕ) (s : Bytes) → length s ≤ k → any_nonzero (pad k s) ≡ any_nonzero s
unfolding any_nonzero
any_nonzero-pad zero [] h = refl
any_nonzero-pad zero (c ∷ s) h = absurd (omega arith)
any_nonzero-pad (suc k) [] h = any_nonzero-pad k [] (omega arith)
any_nonzero-pad (suc k) (c ∷ s) h = ground (arith, any_nonzero-pad k s)

value_pos : (n : ℕ) (s : Bytes) → 0 < n → 0 < value n s
value_pos n [] h = h
value_pos n (c ∷ s) h = value_pos (n * 10 + (c - b'0')) s (omega arith)

pub value_nonzero : (s : Bytes) → All IsDigit s → any_nonzero s ≡ true → 0 < value 0 s
unfolding any_nonzero
value_nonzero [] h e = ground arith
value_nonzero (c ∷ s) (d, h) e = elim (Bool-cases (c == b'0')) [
  | inl z ↦ let e' : c ≡ b'0' = ==→eq _ _ z in rw e' (value_nonzero s h (ground arith))
  | inr nz ↦ value_pos (0 * 10 + (c - b'0')) s (ground arith)
]

pub value_zero : (s : Bytes) → any_nonzero s ≡ false → value 0 s ≡ 0
unfolding any_nonzero
value_zero [] e = refl
value_zero (c ∷ s) e = let e' : c ≡ b'0' = ground arith in rw e' (value_zero s (ground arith))
