-- ===== src/Check/Kind.antt =====
-- `check_fast_kind_from_options` of src/check.c: which order two records of a stream are checked by.
use Prim.Native.Nat.{ℕ}
use rank.Base.{
  Bool, true, false, not, ◌&&◌, ◌||◌, Option, none, some, List, [], ◌∷◌, ltb, ◌==◌, if◌then◌else◌,
}
use rank.Key.{SortMode, byte, random, KeyDef}
use rank.Options.{Options, is_byte}

-- `enum check_fast_kind`, where CHECK_FAST_KEY has the mode that is stored.
pub data FastKind : Type 0 where
  fast_none : FastKind
  fast_bytes : FastKind
  fast_key : SortMode → FastKind

-- A key that is one whole field.
abbrev pub is_whole_field : KeyDef → Bool
is_whole_field key =
    ltb 0 key.start_field
    && not key.has_start_char
    && key.has_end
    && key.end_field == key.start_field
    && not key.has_end_char

abbrev pub is_separated : Option ℕ → Bool
is_separated none = false
is_separated (some separator) = true

-- The `switch` over the mode of the key.
abbrev pub kind_of_mode : SortMode → KeyDef → FastKind
kind_of_mode byte key =
    if key.ignore_case || key.dictionary_order || key.ignore_nonprinting
    then fast_none
    else fast_key byte
kind_of_mode random key = fast_none
kind_of_mode mode key = fast_key mode

abbrev pub kind_of_keys : Options → List KeyDef → FastKind
kind_of_keys options [] =
    if is_byte options.sort_mode
      && not options.ignore_case
      && not options.dictionary_order
      && not options.ignore_nonprinting
      && not options.ignore_leading_blanks
    then fast_bytes
    else fast_none
kind_of_keys options (key ∷ []) =
    if not (is_whole_field key)
      || (is_separated options.separator && (key.ignore_start_blanks || key.ignore_end_blanks))
    then fast_none
    else kind_of_mode key.sort_mode key
kind_of_keys options (key ∷ next ∷ keys) = fast_none

-- `identity` is `rank_locale_collation_identity()`.
unfoldable pub check_fast_kind_from_options : Bool → Options → FastKind
check_fast_kind_from_options identity options =
    if identity then kind_of_keys options options.keys else fast_none
