-- ===== src/Version/Number.antt =====
-- The digit loops of `version_reverse_compare`, against the numbers that the digits spell.
use Prim.Native.Nat.{ℕ, ◌-◌, ◌*◌, ◌+◌, ◌<◌}
use rank.Base.{
  ◌≡◌, refl, sym, ap₂, ◌∙◌, true, false, inl, inr, Bool-cases, [], ◌∷◌, arith, ℤ, pos, negsuc,
  is_zero, sub_ℕ, three_way, or_else, sign, ltb, if◌then◌else◌, length, Bytes, All,
}
use rank.Locale.Lex.{lex}
use rank.Numeric.{digit, skip_zeros, take_digits, drop_digits}
use rank.Numeric.Digits.{IsDigit, value, value-lex, value_longer, take_digits-IsDigit}
use rank.Numeric.Value.{IsTrimmed, skip_zeros-IsTrimmed}
use rank.Version.{run_digits, digits_outcome, at_digit}

-- The outcome of the digit loop from `d` on, over digit runs `s` and `t`.
abbrev by_runs : ℤ → Bytes → Bytes → ℤ
by_runs d s t =
    if ltb (length s) (length t)
    then negsuc 0
    else if ltb (length t) (length s)
    then pos 1
    else or_else (sign d) (lex s t)

by_runs-cons :
    (x y : ℕ) (d : ℤ) (s t : Bytes)
    → by_runs (if is_zero d then sub_ℕ x y else d) s t ≡ by_runs d (x ∷ s) (y ∷ t)
unfolding lex
by_runs-cons x y d s t = ground arith

run_digits-by_runs :
    (a b : Bytes) (d : ℤ)
    → sign (digits_outcome (run_digits a b d)) ≡ by_runs d (take_digits a) (take_digits b)
unfolding run_digits take_digits
run_digits-by_runs [] [] d = unfold lex in ground arith
run_digits-by_runs [] (y ∷ b) d = unfold lex in ground arith
run_digits-by_runs (x ∷ a) [] d = unfold lex in ground arith
run_digits-by_runs (x ∷ a) (y ∷ b) d = elim (Bool-cases (digit x)) [
  | inl dx ↦ elim (Bool-cases (digit y)) [
    | inl dy ↦
        rw (dx, dy)
          (run_digits-by_runs a b (if is_zero d then sub_ℕ x y else d)
            ∙ by_runs-cons x y d (take_digits a) (take_digits b))
    | inr ny ↦ rw (dx, ny) (unfold lex in ground arith)
  ]
  | inr nx ↦ elim (Bool-cases (digit y)) [
    | inl dy ↦ rw (nx, dy) (unfold lex in ground arith)
    | inr ny ↦ rw (nx, ny) (unfold lex in ground arith)
  ]
]

-- Digit runs with no leading zero compare as their numbers.
by_runs-value :
    (s t : Bytes)
    → All IsDigit s
    → All IsDigit t
    → IsTrimmed s
    → IsTrimmed t
    → by_runs (pos 0) s t ≡ three_way (value 0 s) (value 0 t)
by_runs-value s t h k u v =
    ground (arith, value-lex 0 s t, trimmed_longer s t h k v, trimmed_longer t s k h u)
  where
    trimmed_longer :
        (s t : Bytes)
        → All IsDigit s
        → All IsDigit t
        → IsTrimmed t
        → length s < length t
        → value 0 s < value 0 t
    trimmed_longer s [] h k v lt = absurd (omega arith)
    trimmed_longer s (c ∷ t) h k v lt =
        value_longer (0 * 10 + (c - b'0')) s t (omega arith) h (ground (arith, k.0))

-- The number that the digits in front spell.
abbrev pub number_of : Bytes → ℕ
number_of s = value 0 (take_digits s)

skip_zeros_number : (s : Bytes) → number_of (skip_zeros s) ≡ number_of s
unfolding skip_zeros take_digits
skip_zeros_number [] = refl
skip_zeros_number (c ∷ s) = ground (arith, skip_zeros_number s)

skip_zeros_drop : (s : Bytes) → drop_digits (skip_zeros s) ≡ drop_digits s
unfolding skip_zeros drop_digits
skip_zeros_drop [] = refl
skip_zeros_drop (c ∷ s) = ground (arith, skip_zeros_drop s)

-- The sign of the digit loops behind the skipped zeros is the order of the numbers.
pub run_digits-number :
    (a b : Bytes)
    → sign (digits_outcome (run_digits (skip_zeros a) (skip_zeros b) (pos 0)))
      ≡ three_way (number_of a) (number_of b)
run_digits-number a b =
    run_digits-by_runs (skip_zeros a) (skip_zeros b) (pos 0)
    ∙ by_runs-value _ _ (take_digits-IsDigit (skip_zeros a)) (take_digits-IsDigit (skip_zeros b))
        (skip_zeros-IsTrimmed a) (skip_zeros-IsTrimmed b)
    ∙ ap₂ three_way (skip_zeros_number a) (skip_zeros_number b)

run_digits_drop :
    (a b : Bytes) (d : ℤ)
    → (drop_digits (run_digits a b d).1 ≡ drop_digits a)
      × (drop_digits (run_digits a b d).2 ≡ drop_digits b)
unfolding run_digits drop_digits
run_digits_drop [] b d = (refl, refl)
run_digits_drop (x ∷ a) [] d = (refl, refl)
run_digits_drop (x ∷ a) (y ∷ b) d =
    ground (arith, run_digits_drop a b (if is_zero d then sub_ℕ x y else d))

drop_digits_stop : (s : Bytes) → at_digit s ≡ false → drop_digits s ≡ s
unfolding drop_digits
drop_digits_stop [] h = refl
drop_digits_stop (c ∷ s) h = ground arith

-- When the numbers are equal both loops stop behind them.
pub run_digits_rest :
    (a b : Bytes)
    → is_zero (digits_outcome (run_digits (skip_zeros a) (skip_zeros b) (pos 0))) ≡ true
    → ((run_digits (skip_zeros a) (skip_zeros b) (pos 0)).1 ≡ drop_digits a)
      × ((run_digits (skip_zeros a) (skip_zeros b) (pos 0)).2 ≡ drop_digits b)
run_digits_rest a b h =
    let run = run_digits (skip_zeros a) (skip_zeros b) (pos 0) in
    let (p, q) = run_digits_drop (skip_zeros a) (skip_zeros b) (pos 0) in
    (
      sym (drop_digits_stop run.1 (ground arith)) ∙ p ∙ skip_zeros_drop a,
      sym (drop_digits_stop run.2 (ground arith)) ∙ q ∙ skip_zeros_drop b,
    )
