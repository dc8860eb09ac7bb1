-- ===== src/Options.antt =====
-- src/options.h and src/options.c: the options that ordering depends on, the inheritance of ordering
-- options by keys, and the test for incompatible options.
pub mod Keys
use Prim.Native.Nat.{ℕ, zero, suc, ◌+◌}
use rank.Base.{
  Bool, true, false, not, ◌&&◌, ◌||◌, Option, none, some, List, [], ◌∷◌, ◌++◌, map, ltb, leb, ◌==◌,
  if◌then◌else◌, length, Bytes,
}
use rank.Key.{SortMode, byte, ModeFlags, KeyDef}

-- `enum rank_check_mode`
pub data CheckMode : Type 0 where
  check_none diagnose_first quiet : CheckMode

-- `struct rank_options`, less the names, sizes and directories that no ordering depends on.
-- `key_count` is the length of `keys`; `separator` is `field_separator` where
-- `has_field_separator` is set.
pub record Options : Type 0 where
  pub reverse : Bool
  pub stable : Bool
  pub unique : Bool
  pub merge : Bool
  pub zero_terminated : Bool
  pub ignore_leading_blanks : Bool
  pub ignore_case : Bool
  pub dictionary_order : Bool
  pub ignore_nonprinting : Bool
  pub debug : Bool
  pub check_mode : CheckMode
  pub sort_mode : SortMode
  pub mode_flags : ModeFlags
  pub separator : Option ℕ
  pub keys : List KeyDef

abbrev pub key_count : Options → ℕ
key_count options = length options.keys

abbrev pub is_byte : SortMode → Bool
is_byte byte = true
is_byte _ = false

-- `mode_flags != 0`
abbrev pub any_flag : ModeFlags → Bool
any_flag m =
    m.flag_numeric || m.flag_general || m.flag_human || m.flag_month || m.flag_version
    || m.flag_random

-- The test of `rank_options_apply_key_defaults`: the key has an ordering option of its own.
abbrev pub has_own : KeyDef → Bool
has_own key =
    not (is_byte key.sort_mode)
    || any_flag key.mode_flags
    || key.ignore_case
    || key.dictionary_order
    || key.ignore_nonprinting
    || key.ignore_start_blanks
    || key.ignore_end_blanks
    || key.reverse

abbrev pub inherit : Options → KeyDef → KeyDef
inherit options key = record key {
  sort_mode = options.sort_mode;
  mode_flags = options.mode_flags;
  ignore_case = options.ignore_case;
  dictionary_order = options.dictionary_order;
  ignore_nonprinting = options.ignore_nonprinting;
  ignore_start_blanks = options.ignore_leading_blanks;
  ignore_end_blanks = options.ignore_leading_blanks;
  reverse = options.reverse;
}

-- One round of the loop over the keys.
unfoldable pub apply_default : Options → KeyDef → KeyDef
apply_default options key = if has_own key then key else inherit options key

unfoldable pub apply_defaults : Options → List KeyDef → List KeyDef
unfolding apply_default
apply_defaults options [] = []
apply_defaults options (key ∷ keys) = apply_default options key ∷ apply_defaults options keys

unfoldable pub rank_options_apply_key_defaults : Options → Options
unfolding apply_defaults
rank_options_apply_key_defaults options = record options {
  keys = apply_defaults options options.keys;
}

abbrev pub bit : Bool → ℕ
bit true = 1
bit false = 0

abbrev pub letter : Bool → ℕ → Bytes
letter true c = c ∷ []
letter false c = []

-- `mode_set_compatible`: nothing, or the letters of the diagnostic.
unfoldable pub mode_set_compatible : ModeFlags → Bool → Bool → Bool → Option Bytes
mode_set_compatible m dictionary nonprinting fold =
    let count =
      bit m.flag_numeric
      + bit m.flag_general
      + bit m.flag_human
      + bit m.flag_month
      + bit ((m.flag_version || m.flag_random) || dictionary || nonprinting) in
    if leb count 1
    then none
    else some (
        (if dictionary then b'd' ∷ [] else letter nonprinting b'i')
        ++ (letter fold b'f'
            ++ (letter m.flag_general b'g'
                ++ (letter m.flag_human b'h'
                    ++ (letter m.flag_month b'M'
                        ++ (letter m.flag_numeric b'n'
                            ++ (letter m.flag_random b'R' ++ letter m.flag_version b'V')))))))

-- The first diagnostic ends the check.
abbrev pub first_diagnostic : Option Bytes → Option Bytes → Option Bytes
first_diagnostic (some letters) rest = some letters
first_diagnostic none rest = rest

-- The loop over the keys.
unfoldable pub check_keys : List KeyDef → Option Bytes
unfolding mode_set_compatible
check_keys [] = none
check_keys (key ∷ keys) =
    first_diagnostic
      (mode_set_compatible key.mode_flags key.dictionary_order key.ignore_nonprinting
        key.ignore_case)
      (check_keys keys)

-- `none` is `RANK_OPTIONS_OK`; else the diagnostic's letters, with the exit status for errors.
unfoldable pub rank_options_check_ordering : Options → Option Bytes
unfolding mode_set_compatible check_keys
rank_options_check_ordering options =
    first_diagnostic
      (mode_set_compatible options.mode_flags options.dictionary_order options.ignore_nonprinting
        options.ignore_case)
      (check_keys options.keys)
