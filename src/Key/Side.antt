-- ===== src/Key/Side.antt =====
-- A position of a key definition as it is written, and how `parse_pos` of src/key.c reads it.
use Prim.Native.Nat.{ℕ, ◌≤◌, ◌<◌}
use rank.Base.{◌≡◌, ◌≢◌, refl, false, Option, none, some, [], ◌∷◌, ◌++◌, arith, Bytes, All}
use rank.Numeric.Digits.{IsDigit, value}
use rank.Key.Size.{Stops, parse_size-value}
use rank.Key.{ok, size_max, is_digit, parse_character, Position, parse_pos}
use rank.Key.Modifiers.{Among, letters, All-Among, EndsModifiers}

-- A number as its digits, that `size_t` can hold.
pub record IsSize (s : Bytes) : Type 0 where
  pub all_digits : All IsDigit s
  pub one_digit : s ≢ []
  pub fits : value 0 s ≤ size_max

abbrev pub IsSize? : Option Bytes → Type 0
IsSize? none = Unit
IsSize? (some s) = IsSize s

abbrev pub character_bytes : Option Bytes → Bytes
character_bytes none = []
character_bytes (some s) = b'.' ∷ s

abbrev pub character_of : Option Bytes → Option ℕ
character_of none = none
character_of (some s) = some (value 0 s)

-- What may stand behind a position: a modifier, a comma or nothing.
abbrev pub EndsPosition : Bytes → Type 0
EndsPosition [] = Unit
EndsPosition (c ∷ rest) = (is_digit c ≡ false) × (c ≢ b'.')

ends-Stops : (rest : Bytes) → EndsPosition rest → Stops rest
ends-Stops [] h = tt
ends-Stops (c ∷ rest) h = h.0

parse_character_lem :
    (ch : Option Bytes) (rest : Bytes)
    → IsSize? ch
    → EndsPosition rest
    → parse_character (character_bytes ch ++ rest) ≡ ok (character_of ch, rest)
unfolding parse_character
parse_character_lem none [] h e = refl
parse_character_lem none (c ∷ rest) h e = ground arith
parse_character_lem (some s) rest h e =
    ground (arith, (parse_size-value s rest h.all_digits (ends-Stops rest e)).0 h.one_digit h.fits)

character-Stops :
    (ch : Option Bytes) (rest : Bytes) → EndsPosition rest → Stops (character_bytes ch ++ rest)
character-Stops none rest e = ends-Stops rest e
character-Stops (some s) rest e = refl

parse_pos_lem :
    (f : Bytes) (ch : Option Bytes) (rest : Bytes)
    → IsSize f
    → 0 < value 0 f
    → IsSize? ch
    → EndsPosition rest
    → parse_pos (f ++ (character_bytes ch ++ rest))
      ≡ ok (record { field = value 0 f; character = character_of ch; rest = rest })
unfolding parse_pos
parse_pos_lem f ch rest h p hc e = ground (
  arith,
  parse_character_lem ch rest hc e,
  (parse_size-value f (character_bytes ch ++ rest) h.all_digits (character-Stops ch rest e)).0
      h.one_digit h.fits,
)

-- A position with its modifiers, as it is written.
pub record Side : Type 0 where
  pub digits : Bytes
  pub offset : Option Bytes
  pub mods : Bytes

pub record IsSide (s : Side) : Type 0 where
  pub digits_ok : IsSize s.digits
  pub digits_pos : 0 < value 0 s.digits
  pub offset_ok : IsSize? s.offset
  pub mods_ok : All (λ c. Among c letters) s.mods

abbrev pub side_bytes : Side → Bytes → Bytes
side_bytes s rest = s.digits ++ (character_bytes s.offset ++ (s.mods ++ rest))

abbrev pub position_of : Side → Bytes → Position
position_of s rest = record {
  field = value 0 s.digits;
  character = character_of s.offset;
  rest = s.mods ++ rest;
}

mods-EndsPosition :
    (mods rest : Bytes)
    → All (λ c. Among c letters) mods
    → EndsModifiers rest
    → EndsPosition (mods ++ rest)
mods-EndsPosition [] [] h e = tt
mods-EndsPosition [] (c ∷ rest) h e = ground arith
mods-EndsPosition (c ∷ mods) rest (m, h) e =
    All-Among (λ d. (is_digit d ≡ false) × (d ≢ b'.')) c letters
      (
        (refl, omega arith),
        (
          (refl, omega arith),
          (
            (refl, omega arith),
            (
              (refl, omega arith),
              (
                (refl, omega arith),
                (
                  (refl, omega arith),
                  (
                    (refl, omega arith),
                    (
                      (refl, omega arith),
                      ((refl, omega arith), ((refl, omega arith), ((refl, omega arith), tt))),
                    ),
                  ),
                ),
              ),
            ),
          ),
        ),
      )
      m

pub side_read :
    (s : Side) (rest : Bytes)
    → IsSide s
    → EndsModifiers rest
    → parse_pos (side_bytes s rest) ≡ ok (position_of s rest)
side_read s rest h e =
    parse_pos_lem s.digits s.offset (s.mods ++ rest) h.digits_ok h.digits_pos h.offset_ok
      (mods-EndsPosition s.mods rest h.mods_ok e)
