-- ===== src/Options/Keys.antt =====
-- Key inheritance and the compatibility test of src/options.c.
use Prim.Native.Nat.{ℕ, ◌+◌, ◌≤◌}
use rank.Base.{
  ◌≡◌, ◌↔◌, refl, ◌⊎◌, inl, inr, Bool, true, false, ◌||◌, Option, none, some, List, [], ◌∷◌, arith,
  leb, if◌then◌else◌, Bytes, All,
}
use rank.Key.{
  SortMode, byte, numeric, general_numeric, human_numeric, month, version, random, ModeFlags,
  KeyDef,
}
use rank.Options.{
  Options, is_byte, has_own, inherit, apply_defaults, rank_options_apply_key_defaults, bit,
  mode_set_compatible, check_keys, first_diagnostic, rank_options_check_ordering,
}

-- What inheritance leaves alone.
pub record SameSpan (k l : KeyDef) : Type 0 where
  pub start_field : k.start_field ≡ l.start_field
  pub start_char : k.start_char ≡ l.start_char
  pub end_field : k.end_field ≡ l.end_field
  pub end_char : k.end_char ≡ l.end_char
  pub has_start_char : k.has_start_char ≡ l.has_start_char
  pub has_end : k.has_end ≡ l.has_end
  pub has_end_char : k.has_end_char ≡ l.has_end_char

-- The key was given no ordering option.
abbrev pub NoOption : KeyDef → Type 0
NoOption key =
    (key.sort_mode ≡ byte)
    × (key.mode_flags.flag_numeric ≡ false)
    × (key.mode_flags.flag_general ≡ false)
    × (key.mode_flags.flag_human ≡ false)
    × (key.mode_flags.flag_month ≡ false)
    × (key.mode_flags.flag_version ≡ false)
    × (key.mode_flags.flag_random ≡ false)
    × (key.ignore_case ≡ false)
    × (key.dictionary_order ≡ false)
    × (key.ignore_nonprinting ≡ false)
    × (key.ignore_start_blanks ≡ false)
    × (key.ignore_end_blanks ≡ false)
    × (key.reverse ≡ false)

-- The ordering options of `result` are the global ones.
abbrev pub TakesAll : Options → KeyDef → Type 0
TakesAll options result =
    (result.sort_mode ≡ options.sort_mode)
    × (result.mode_flags ≡ options.mode_flags)
    × (result.ignore_case ≡ options.ignore_case)
    × (result.dictionary_order ≡ options.dictionary_order)
    × (result.ignore_nonprinting ≡ options.ignore_nonprinting)
    × (result.ignore_start_blanks ≡ options.ignore_leading_blanks)
    × (result.ignore_end_blanks ≡ options.ignore_leading_blanks)
    × (result.reverse ≡ options.reverse)

-- A key without an option takes all of them, and one with an option none.
abbrev pub Inherits : Options → KeyDef → KeyDef → Type 0
Inherits options key result =
    SameSpan result key
    × ((NoOption key × TakesAll options result) ⊎ ((¬ NoOption key) × (result ≡ key)))

-- `P` holds of the elements of two lists at the same places, and the lists are of one length.
abbrev pub Zip : (KeyDef → KeyDef → Type 0) → List KeyDef → List KeyDef → Type 0
Zip P [] [] = Unit
Zip P [] (l ∷ ls) = ⊥
Zip P (k ∷ ks) [] = ⊥
Zip P (k ∷ ks) (l ∷ ls) = P k l × Zip P ks ls

abbrev default_of : Options → KeyDef → Bool → KeyDef
default_of options key own = if own then key else inherit options key

same_span :
    (options : Options) (key : KeyDef) (own : Bool) → SameSpan (default_of options key own) key
same_span options key true = record {
  start_field = refl;
  start_char = refl;
  end_field = refl;
  end_char = refl;
  has_start_char = refl;
  has_end = refl;
  has_end_char = refl;
}
same_span options key false = record {
  start_field = refl;
  start_char = refl;
  end_field = refl;
  end_char = refl;
  has_start_char = refl;
  has_end = refl;
  has_end_char = refl;
}

is_byte-byte : (mode : SortMode) → (is_byte mode ≡ true) ↔ (mode ≡ byte)
is_byte-byte byte = (λ e. refl, λ e. refl)
is_byte-byte numeric = (λ e. absurd (cc), λ e. absurd (cc))
is_byte-byte general_numeric = (λ e. absurd (cc), λ e. absurd (cc))
is_byte-byte human_numeric = (λ e. absurd (cc), λ e. absurd (cc))
is_byte-byte month = (λ e. absurd (cc), λ e. absurd (cc))
is_byte-byte version = (λ e. absurd (cc), λ e. absurd (cc))
is_byte-byte random = (λ e. absurd (cc), λ e. absurd (cc))

-- The test of the loop finds the keys with an option.
no_option : (key : KeyDef) → (has_own key ≡ false) ↔ NoOption key
no_option key =
    let mode = is_byte-byte key.sort_mode in
    (
      λ e. (
        mode.0 (ground arith),
        ground arith,
        ground arith,
        ground arith,
        ground arith,
        ground arith,
        ground arith,
        ground arith,
        ground arith,
        ground arith,
        ground arith,
        ground arith,
        ground arith,
      ),
      λ (m, n, g, h, o, v, r, f, d, i, s, b, z).
          let is : is_byte key.sort_mode ≡ true = mode.1 m in ground arith,
    )

default_of-Inherits :
    (options : Options) (key : KeyDef) (own : Bool)
    → has_own key ≡ own
    → Inherits options key (default_of options key own)
default_of-Inherits options key true e = (
  same_span options key true,
  inr (λ none_given. absurd (cc (e, (no_option key).1 none_given)), refl),
)
default_of-Inherits options key false e = (
  same_span options key false,
  inl ((no_option key).0 e, (refl, refl, refl, refl, refl, refl, refl, refl)),
)

apply_defaults-Inherits :
    (options : Options) (keys : List KeyDef)
    → Zip (Inherits options) keys (apply_defaults options keys)
unfolding apply_defaults
apply_defaults-Inherits options [] = tt
apply_defaults-Inherits options (key ∷ keys) =
    (default_of-Inherits options key (has_own key) refl, apply_defaults-Inherits options keys)

-- Each key keeps its fields and characters. A key for which no mode, flag, modifier, blank option or
-- reversal is given takes all of them from the global options, and any other key stays as it is. The
-- number and the order of the keys stay the same.
pub rank_options_apply_key_defaults-Inherits :
    (options : Options)
    → Zip (Inherits options) options.keys (rank_options_apply_key_defaults options).keys
unfolding rank_options_apply_key_defaults
rank_options_apply_key_defaults-Inherits options = apply_defaults-Inherits options options.keys

abbrev pub NotBoth : Bool → Bool → Type 0
NotBoth a b = (a ≡ false) ⊎ (b ≡ false)

-- No two ordering modes: `n`, `g`, `h`, `M`, and the slot that `V`, `R`, `d` and `i` share.
abbrev pub OneMode : ModeFlags → Bool → Bool → Type 0
OneMode m dictionary nonprinting =
    let other = (m.flag_version || m.flag_random) || dictionary || nonprinting in
    NotBoth m.flag_numeric m.flag_general
    × NotBoth m.flag_numeric m.flag_human
    × NotBoth m.flag_numeric m.flag_month
    × NotBoth m.flag_numeric other
    × NotBoth m.flag_general m.flag_human
    × NotBoth m.flag_general m.flag_month
    × NotBoth m.flag_general other
    × NotBoth m.flag_human m.flag_month
    × NotBoth m.flag_human other
    × NotBoth m.flag_month other

abbrev slots : Bool → Bool → Bool → Bool → Bool → ℕ
slots n g h m o = bit n + bit g + bit h + bit m + bit o

slots_one :
    (n g h m o : Bool)
    → (slots n g h m o ≤ 1) ↔ (
        NotBoth n g
        × NotBoth n h
        × NotBoth n m
        × NotBoth n o
        × NotBoth g h
        × NotBoth g m
        × NotBoth g o
        × NotBoth h m
        × NotBoth h o
        × NotBoth m o)
slots_one n g h m o = (λ e. ground arith, λ e. ground arith)

abbrev slots_of : ModeFlags → Bool → Bool → ℕ
slots_of m dictionary nonprinting =
    slots m.flag_numeric m.flag_general m.flag_human m.flag_month
      ((m.flag_version || m.flag_random) || dictionary || nonprinting)

compatible_count :
    (n : ℕ) (letters : Bytes) → ((if leb n 1 then none else some letters) ≡ none) ↔ (n ≤ 1)
compatible_count n letters = (λ e. ground arith, λ e. ground arith)

compatible_slots :
    (m : ModeFlags) (dictionary nonprinting fold : Bool)
    → (mode_set_compatible m dictionary nonprinting fold ≡ none)
      ↔ (slots_of m dictionary nonprinting ≤ 1)
unfolding mode_set_compatible
compatible_slots m dictionary nonprinting fold =
    compatible_count (slots_of m dictionary nonprinting) _

mode_set_compatible-OneMode :
    (m : ModeFlags) (dictionary nonprinting fold : Bool)
    → (mode_set_compatible m dictionary nonprinting fold ≡ none) ↔ OneMode m dictionary nonprinting
mode_set_compatible-OneMode m dictionary nonprinting fold =
    let a = compatible_slots m dictionary nonprinting fold in
    let b =
      slots_one m.flag_numeric m.flag_general m.flag_human m.flag_month
        ((m.flag_version || m.flag_random) || dictionary || nonprinting) in
    (λ e. b.0 (a.0 e), λ e. a.1 (b.1 e))

abbrev pub KeyModes : KeyDef → Type 0
KeyModes key = OneMode key.mode_flags key.dictionary_order key.ignore_nonprinting

first_diagnostic-none :
    (r s : Option Bytes) → (first_diagnostic r s ≡ none) ↔ ((r ≡ none) × (s ≡ none))
first_diagnostic-none none s = (λ e. (refl, e), λ e. e.1)
first_diagnostic-none (some l) s = (λ e. absurd (cc), λ e. absurd (cc e.0))

check_keys-OneMode : (keys : List KeyDef) → (check_keys keys ≡ none) ↔ All KeyModes keys
unfolding check_keys
check_keys-OneMode [] = (λ _. tt, λ _. refl)
check_keys-OneMode (key ∷ keys) =
    let here =
      mode_set_compatible-OneMode key.mode_flags key.dictionary_order key.ignore_nonprinting
        key.ignore_case in
    let rest = check_keys-OneMode keys in
    let both = first_diagnostic-none _ (check_keys keys) in
    (λ e. (here.0 (both.0 e).0, rest.0 (both.0 e).1), λ e. both.1 (here.1 e.0, rest.1 e.1))

-- The ordering options are accepted exactly if neither the global options nor any key combine two of
-- the modes n, g, h, M and the slot that V, R, -d and -i share.
pub rank_options_check_ordering-OneMode :
    (options : Options)
    → (rank_options_check_ordering options ≡ none) ↔ (
        OneMode options.mode_flags options.dictionary_order options.ignore_nonprinting
        × All KeyModes options.keys)
unfolding rank_options_check_ordering
rank_options_check_ordering-OneMode options =
    let here =
      mode_set_compatible-OneMode options.mode_flags options.dictionary_order
        options.ignore_nonprinting options.ignore_case in
    let rest = check_keys-OneMode options.keys in
    let both = first_diagnostic-none _ (check_keys options.keys) in
    (λ e. (here.0 (both.0 e).0, rest.0 (both.0 e).1), λ e. both.1 (here.1 e.0, rest.1 e.1))
