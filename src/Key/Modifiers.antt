-- ===== src/Key/Modifiers.antt =====
-- `parse_modifiers` of src/key.c against what its letters stand for.
use mathlib.Core.Path.{subst}
use Prim.Native.Nat.{ℕ}
use rank.Base.{
  ◌≡◌, ◌⊎◌, refl, sym, Bool, true, false, inl, inr, ◌||◌, Option, none, some, [], ◌∷◌, ◌++◌, arith,
  ◌==◌, if◌then◌else◌, Bytes, All,
}
use rank.Key.{
  SortMode, numeric, general_numeric, human_numeric, month, version, random, ModeFlags, KeyDef, ok,
  modifier, parse_modifiers,
}

-- The letter occurs.
abbrev pub has : ℕ → Bytes → Bool
has c [] = false
has c (d ∷ mods) = d == c || has c mods

-- The ordering mode that a letter names.
abbrev pub mode_of : ℕ → Option SortMode
mode_of c =
    if c == b'n'
    then some numeric
    else if c == b'g'
    then some general_numeric
    else if c == b'h'
    then some human_numeric
    else if c == b'M'
    then some month
    else if c == b'V'
    then some version
    else if c == b'R'
    then some random
    else none

abbrev pub or_mode : Option SortMode → SortMode → SortMode
or_mode none m = m
or_mode (some m) m' = m

-- The last mode wins.
abbrev pub last_mode : Bytes → SortMode → SortMode
last_mode [] m = m
last_mode (c ∷ mods) m = last_mode mods (or_mode (mode_of c) m)

abbrev pub letters : Bytes
letters = b'b' ∷ b'd' ∷ b'f' ∷ b'i' ∷ b'r' ∷ b'n' ∷ b'g' ∷ b'h' ∷ b'M' ∷ b'V' ∷ b'R' ∷ []

-- One of the bytes.
abbrev pub Among : ℕ → Bytes → Type 0
Among c [] = ⊥
Among c (d ∷ ds) = (c ≡ d) ⊎ Among c ds

-- What the letters ask for: a flag is set if its letter occurs, anywhere and any number of times.
abbrev pub with_flags : Bytes → ModeFlags → ModeFlags
with_flags mods m = record {
  flag_numeric = has b'n' mods || m.flag_numeric;
  flag_general = has b'g' mods || m.flag_general;
  flag_human = has b'h' mods || m.flag_human;
  flag_month = has b'M' mods || m.flag_month;
  flag_version = has b'V' mods || m.flag_version;
  flag_random = has b'R' mods || m.flag_random;
}

abbrev pub with_modifiers : Bytes → Bool → KeyDef → KeyDef
with_modifiers mods end_pos key = record key {
  ignore_start_blanks =
      if end_pos then key.ignore_start_blanks else has b'b' mods || key.ignore_start_blanks;
  ignore_end_blanks =
      if end_pos then has b'b' mods || key.ignore_end_blanks else key.ignore_end_blanks;
  ignore_case = has b'f' mods || key.ignore_case;
  dictionary_order = has b'd' mods || key.dictionary_order;
  ignore_nonprinting = has b'i' mods || key.ignore_nonprinting;
  reverse = has b'r' mods || key.reverse;
  sort_mode = last_mode mods key.sort_mode;
  mode_flags = with_flags mods key.mode_flags;
}

-- The end of the modifiers.
abbrev pub EndsModifiers : Bytes → Type 0
EndsModifiers [] = Unit
EndsModifiers (c ∷ rest) = c ≡ b','

abbrev Sets : Bool → ℕ → Type 0
Sets end_pos c =
    (key : KeyDef) → modifier c end_pos key ≡ some (with_modifiers (c ∷ []) end_pos key)

letters_set : (end_pos : Bool) → All (Sets end_pos) letters
unfolding modifier
letters_set true = (
  λ k. refl,
  (
    λ k. refl,
    (
      λ k. refl,
      (
        λ k. refl,
        (
          λ k. refl,
          (λ k. refl, (λ k. refl, (λ k. refl, (λ k. refl, (λ k. refl, (λ k. refl, tt)))))),
        ),
      ),
    ),
  ),
)
letters_set false = (
  λ k. refl,
  (
    λ k. refl,
    (
      λ k. refl,
      (
        λ k. refl,
        (
          λ k. refl,
          (λ k. refl, (λ k. refl, (λ k. refl, (λ k. refl, (λ k. refl, (λ k. refl, tt)))))),
        ),
      ),
    ),
  ),
)

pub All-Among : (P : ℕ → Type 0) (c : ℕ) (ds : Bytes) → All P ds → Among c ds → P c
All-Among P c [] h m = elim m [ ]
All-Among P c (d ∷ ds) (p, h) (inl e) = subst P (sym e) p
All-Among P c (d ∷ ds) (p, h) (inr m) = All-Among P c ds h m

or_swap : (x y z : Bool) → (y || ((x || false) || z)) ≡ ((x || y) || z)
or_swap x y z = ground arith

flags_swap :
    (c : ℕ) (mods : Bytes) (m : ModeFlags)
    → with_flags mods (with_flags (c ∷ []) m) ≡ with_flags (c ∷ mods) m
flags_swap c mods m = λ i. record {
  flag_numeric = or_swap (c == b'n') (has b'n' mods) m.flag_numeric i;
  flag_general = or_swap (c == b'g') (has b'g' mods) m.flag_general i;
  flag_human = or_swap (c == b'h') (has b'h' mods) m.flag_human i;
  flag_month = or_swap (c == b'M') (has b'M' mods) m.flag_month i;
  flag_version = or_swap (c == b'V') (has b'V' mods) m.flag_version i;
  flag_random = or_swap (c == b'R') (has b'R' mods) m.flag_random i;
}

blanks_swap :
    (b : Bool) (x y z : Bool)
    → (if b
        then (y || (if b then (x || false) || z else z))
        else (if b then (x || false) || z else z))
      ≡ (if b then (x || y) || z else z)
blanks_swap b x y z = ground arith

blanks_swap' :
    (b : Bool) (x y z : Bool)
    → (if b
        then (if b then z else (x || false) || z)
        else (y || (if b then z else (x || false) || z)))
      ≡ (if b then z else (x || y) || z)
blanks_swap' b x y z = ground arith

modifiers_swap :
    (c : ℕ) (mods : Bytes) (end_pos : Bool) (key : KeyDef)
    → with_modifiers mods end_pos (with_modifiers (c ∷ []) end_pos key)
      ≡ with_modifiers (c ∷ mods) end_pos key
modifiers_swap c mods end_pos key = λ i. record key {
  ignore_start_blanks = blanks_swap' end_pos (c == b'b') (has b'b' mods) key.ignore_start_blanks i;
  ignore_end_blanks = blanks_swap end_pos (c == b'b') (has b'b' mods) key.ignore_end_blanks i;
  ignore_case = or_swap (c == b'f') (has b'f' mods) key.ignore_case i;
  dictionary_order = or_swap (c == b'd') (has b'd' mods) key.dictionary_order i;
  ignore_nonprinting = or_swap (c == b'i') (has b'i' mods) key.ignore_nonprinting i;
  reverse = or_swap (c == b'r') (has b'r' mods) key.reverse i;
  sort_mode = last_mode (c ∷ mods) key.sort_mode;
  mode_flags = flags_swap c mods key.mode_flags i;
}

modifiers_nil : (end_pos : Bool) (key : KeyDef) → with_modifiers [] end_pos key ≡ key
modifiers_nil true key = refl
modifiers_nil false key = refl

not_comma : (c : ℕ) → Among c letters → (c == b',') ≡ false
not_comma c m =
    All-Among (λ d. (d == b',') ≡ false) c letters
      ((refl, (refl, (refl, (refl, (refl, (refl, (refl, (refl, (refl, (refl, (refl, tt)))))))))))) m

-- The letters `bdfirnghMVR`, in any order and repeated at will, up to a comma or the end of the
-- text, set exactly what they stand for: a flag for each letter that occurs, the last mode, and
-- `b` on the side that is being read.
pub parse_modifiers_lem :
    (mods rest : Bytes) (end_pos : Bool) (key : KeyDef)
    → All (λ c. Among c letters) mods
    → EndsModifiers rest
    → parse_modifiers (mods ++ rest) end_pos key ≡ ok (with_modifiers mods end_pos key, rest)
unfolding parse_modifiers
parse_modifiers_lem [] [] end_pos key h stop = rw (modifiers_nil end_pos key)
parse_modifiers_lem [] (c ∷ rest) end_pos key h stop = rw (stop, modifiers_nil end_pos key) refl
parse_modifiers_lem (c ∷ mods) rest end_pos key (m, h) stop = ground (
  arith,
  not_comma c m,
  All-Among (Sets end_pos) c letters (letters_set end_pos) m key,
  parse_modifiers_lem mods rest end_pos (with_modifiers (c ∷ []) end_pos key) h stop,
  modifiers_swap c mods end_pos key,
)
