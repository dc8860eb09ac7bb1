-- ===== src/Key/Parse.antt =====
-- `rank_key_parse` of src/key.c against the way that key definitions are written.
use Prim.Native.Nat.{◌<◌}
use rank.Base.{
  ◌≡◌, ◌⊎◌, refl, true, false, inl, inr, Option, none, some, [], ◌∷◌, ◌++◌, arith, Bytes, All,
}
use rank.Numeric.Digits.{IsDigit, value}
use rank.Key.Size.{Stops, parse_size-value}
use rank.Key.{
  KeyDef, ok, err, size_max, parse_pos, parse_modifiers, blank_key, with_start, with_end,
  parse_end_pos, parse_end, rank_key_parse, invalid_field,
}
use rank.Key.Modifiers.{EndsModifiers, with_modifiers, parse_modifiers_lem}
use rank.Key.Side.{Side, IsSide, side_bytes, position_of, side_read}

abbrev pub key_bytes : Side → Option Side → Bytes
key_bytes s none = side_bytes s []
key_bytes s (some e) = side_bytes s (b',' ∷ side_bytes e [])

-- The key that the text describes: the fields and characters that are written, with the modifiers.
abbrev pub start_fields : Side → KeyDef
start_fields s = elim s.offset [
  | none ↦ record blank_key { start_field = value 0 s.digits }
  | some ch ↦ record blank_key {
    start_field = value 0 s.digits;
    start_char = value 0 ch;
    has_start_char = true;
  }
]

abbrev pub end_fields : Side → KeyDef → KeyDef
end_fields e key = elim e.offset [
  | none ↦ record key {
    has_end = true;
    end_field = value 0 e.digits;
    end_char = 0;
    has_end_char = false;
  }
  | some ch ↦ record key {
    has_end = true;
    end_field = value 0 e.digits;
    end_char = value 0 ch;
    has_end_char = true;
  }
]

abbrev pub start_of : Side → KeyDef
start_of s = with_modifiers s.mods false (start_fields s)

abbrev pub key_of : Side → Option Side → KeyDef
key_of s none = start_of s
key_of s (some e) = with_modifiers e.mods true (end_fields e (start_of s))

with_start-position_of :
    (s : Side) (rest : Bytes) → with_start blank_key (position_of s rest) ≡ start_fields s
with_start-position_of s rest = by_offset s.offset
  where
    by_offset :
        (offset : Option Bytes)
        → (let t : Side = record { digits = s.digits; offset = offset; mods = s.mods } in
            with_start blank_key (position_of t rest) ≡ start_fields t)
    by_offset none = refl
    by_offset (some ch) = refl

with_end-position_of :
    (e : Side) (key : KeyDef) (rest : Bytes) → with_end key (position_of e rest) ≡ end_fields e key
with_end-position_of e key rest = by_offset e.offset
  where
    by_offset :
        (offset : Option Bytes)
        → (let t : Side = record { digits = e.digits; offset = offset; mods = e.mods } in
            with_end key (position_of t rest) ≡ end_fields t key)
    by_offset none = refl
    by_offset (some ch) = refl

abbrev pub IsSide? : Option Side → Type 0
IsSide? none = Unit
IsSide? (some s) = IsSide s

module _ (s : Side) (hs : IsSide s) where
  start_mods :
      (rest : Bytes)
      → EndsModifiers rest
      → parse_modifiers (s.mods ++ rest) false (with_start blank_key (position_of s rest))
        ≡ ok (start_of s, rest)
  start_mods rest e =
      rw (with_start-position_of s rest)
        (parse_modifiers_lem s.mods rest false (start_fields s) hs.mods_ok e)

  end_read :
      (key : KeyDef)
      → parse_end_pos key (side_bytes s []) ≡ ok (with_modifiers s.mods true (end_fields s key))
  unfolding parse_end_pos
  end_read key = ground (
    arith,
    side_read s [] hs tt,
    with_end-position_of s key [],
    parse_modifiers_lem s.mods [] true (end_fields s key) hs.mods_ok tt,
  )

-- A key definition, written as a start position with modifiers and, behind a comma, an end position
-- with modifiers, is read as the key that it describes, if the field numbers are positive and
-- every number fits into `size_t`.
pub rank_key_parse_lem :
    (s : Side) (e : Option Side)
    → IsSide s
    → IsSide? e
    → rank_key_parse (key_bytes s e) ≡ ok (key_of s e)
unfolding rank_key_parse parse_end
rank_key_parse_lem s none hs he = ground (arith, side_read s [] hs tt, start_mods s hs [] tt)
rank_key_parse_lem s (some e) hs he = ground (
  arith,
  side_read s (b',' ∷ side_bytes e []) hs refl,
  start_mods s hs (b',' ∷ side_bytes e []) refl,
  end_read e he (start_of s),
)

-- A text that no field number can be read from.
parse_pos-invalid_field :
    (f rest : Bytes)
    → All IsDigit f
    → Stops rest
    → (value 0 f ≡ 0) ⊎ (size_max < value 0 f)
    → parse_pos (f ++ rest) ≡ err invalid_field
unfolding parse_pos
parse_pos-invalid_field [] rest h st bad = ground (arith, (parse_size-value [] rest h st).2 refl)
parse_pos-invalid_field (c ∷ f) rest h st (inl z) =
    ground (arith, (parse_size-value (c ∷ f) rest h st).0 (cc) (omega arith))
parse_pos-invalid_field (c ∷ f) rest h st (inr big) =
    ground (arith, (parse_size-value (c ∷ f) rest h st).1 big)

-- What stands in front of a field number: nothing, or a start position and a comma.
abbrev pub behind_start : Option Side → Bytes → Bytes
behind_start none text = text
behind_start (some s) text = side_bytes s (b',' ∷ text)

-- A field number that is 0, that is missing or that `size_t` cannot hold is refused, at the start of a
-- key definition and, behind a start position that can be read and a comma, at its end.
pub rank_key_parse-invalid_field :
    (start : Option Side) (f rest : Bytes)
    → IsSide? start
    → All IsDigit f
    → Stops rest
    → (value 0 f ≡ 0) ⊎ (size_max < value 0 f)
    → rank_key_parse (behind_start start (f ++ rest)) ≡ err invalid_field
unfolding rank_key_parse parse_end parse_end_pos
rank_key_parse-invalid_field none f rest hs h st bad =
    ground (arith, parse_pos-invalid_field f rest h st bad)
rank_key_parse-invalid_field (some s) f rest hs h st bad = ground (
  arith,
  side_read s (b',' ∷ (f ++ rest)) hs refl,
  start_mods s hs (b',' ∷ (f ++ rest)) refl,
  parse_pos-invalid_field f rest h st bad,
)
