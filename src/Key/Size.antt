-- ===== src/Key/Size.antt =====
-- `parse_size` of src/key.c reads decimal numbers exactly, and refuses those that `size_t` cannot hold.
use Prim.Native.Nat.{ℕ, ◌+◌, ◌-◌, ◌*◌, ◌≤◌, ◌<◌}
use rank.Base.{
  ◌≡◌, ◌≢◌, refl, Bool, true, false, none, some, [], ◌∷◌, ◌++◌, arith, Bytes, All, if◌then◌else◌,
  inl, inr, Bool-cases, ◌&&◌, leb,
}
use rank.Numeric.{not_empty}
use rank.Numeric.Digits.{IsDigit, value}
use rank.Key.{size_max, is_digit, size_loop, parse_size}

-- The text behind a number does not go on with it.
abbrev pub Stops : Bytes → Type 0
Stops [] = Unit
Stops (c ∷ rest) = is_digit c ≡ false

-- Digits that follow make a number no smaller.
value_grows : (digits : Bytes) (start : ℕ) → start ≤ value start digits
value_grows [] start = omega arith
value_grows (d ∷ digits) start =
    let next = start * 10 + (d - b'0') in omega (arith, value_grows digits next)

size_loop-Stops :
    (rest : Bytes) (n : ℕ) (any : Bool) → Stops rest → size_loop rest n any ≡ some (n, any, rest)
unfolding size_loop
size_loop-Stops [] n any h = refl
size_loop-Stops (c ∷ rest) n any h = ground arith

abbrev any_digit : Bytes → Bool → Bool
any_digit [] any = any
any_digit (c ∷ s) any = true

size_loop_fits :
    (s rest : Bytes) (n : ℕ) (any : Bool)
    → All IsDigit s
    → Stops rest
    → value n s ≤ size_max
    → size_loop (s ++ rest) n any ≡ some (value n s, any_digit s any, rest)
unfolding size_loop
size_loop_fits [] rest n any h st fits = size_loop-Stops rest n any st
size_loop_fits (c ∷ []) rest n any (d, h) st fits =
    let m = n * 10 + (c - b'0') in ground (arith, size_loop_fits [] rest m true h st fits)
size_loop_fits (c ∷ b ∷ s) rest n any (d, h) st fits =
    let m = n * 10 + (c - b'0') in
    ground (arith, size_loop_fits (b ∷ s) rest m true h st fits, value_grows (b ∷ s) m)

size_loop_overflow :
    (s rest : Bytes) (n : ℕ) (any : Bool)
    → All IsDigit s
    → n ≤ size_max
    → size_max < value n s
    → size_loop (s ++ rest) n any ≡ none
unfolding size_loop
size_loop_overflow [] rest n any h k big = absurd (omega arith)
size_loop_overflow (c ∷ s) rest n any (d, h) k big =
    let m = n * 10 + (c - b'0') in ground (arith, size_loop_overflow s rest m true h)

-- A digit string that stands for a number of at most `SIZE_MAX` is read as that number, and the
-- text behind it is left; one that stands for a greater number is refused, and so is a text that
-- starts with no digit.
pub parse_size-value :
    (s rest : Bytes)
    → All IsDigit s
    → Stops rest
    → (s ≢ [] → value 0 s ≤ size_max → parse_size (s ++ rest) ≡ some (value 0 s, rest))
      × (size_max < value 0 s → parse_size (s ++ rest) ≡ none)
      × (s ≡ [] → parse_size (s ++ rest) ≡ none)
unfolding parse_size
parse_size-value [] rest h st = (
  λ ne _. absurd (ne refl),
  λ big. absurd (omega arith),
  λ _. ground (arith, size_loop-Stops rest 0 false st),
)
parse_size-value (c ∷ s) rest h st = (
  λ _ fits. ground (arith, size_loop_fits (c ∷ s) rest 0 false h st fits),
  λ big. ground (arith, size_loop_overflow (c ∷ s) rest 0 false h),
  λ e. absurd (cc),
)

-- A digit string, up to its end or to a byte that is no digit, is read as its number, if it is not
-- empty and `size_t` can hold the number; else it is refused.
pub parse_size-decimal :
    (s rest : Bytes)
    → All IsDigit s
    → Stops rest
    → parse_size (s ++ rest)
      ≡ (if not_empty s && leb (value 0 s) size_max then some (value 0 s, rest) else none)
parse_size-decimal [] rest h st = (parse_size-value [] rest h st).2 refl
parse_size-decimal (c ∷ s) rest h st = elim (Bool-cases (leb (value 0 (c ∷ s)) size_max)) [
  | inl fits ↦ rw fits ((parse_size-value (c ∷ s) rest h st).0 (λ e. absurd (cc)) (ground arith))
  | inr big ↦ rw big ((parse_size-value (c ∷ s) rest h st).1 (ground arith))
]
