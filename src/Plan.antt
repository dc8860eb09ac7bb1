-- ===== src/Plan.antt =====
-- src/plan.h and src/plan.c: which sorting routine is taken for which options.
pub mod Agrees
pub mod Keys
use Prim.Native.Nat.{ℕ, zero, suc}
use Prim.Native.String.{String}
use rank.Base.{Bool, true, false, not, ◌&&◌, ◌||◌, List, [], ◌∷◌, ltb, ◌==◌, if◌then◌else◌, length}
use rank.Key.{KeyDef}
use rank.Options.{Options, is_byte}

-- `enum rank_plan_kind`
pub data PlanKind : Type 0 where
  scalar radix_bytes radix_keys radix_transformed : PlanKind

-- `struct rank_plan`
pub record Plan : Type 0 where
  pub kind : PlanKind
  pub reason : String

abbrev pub plan : PlanKind → String → Plan
plan kind reason = record { kind = kind; reason = reason }

-- The loops of `has_text_modifiers` and `has_special_sort` over the keys.
unfoldable pub any_key_modifier : List KeyDef → Bool
any_key_modifier [] = false
any_key_modifier (key ∷ keys) =
    let rest = any_key_modifier keys in
    if key.ignore_case || key.dictionary_order || key.ignore_nonprinting then true else rest

unfoldable pub any_special_key : List KeyDef → Bool
any_special_key [] = false
any_special_key (key ∷ keys) =
    let rest = any_special_key keys in if not (is_byte key.sort_mode) then true else rest

unfoldable pub has_text_modifiers : Options → Bool
unfolding any_key_modifier
has_text_modifiers options =
    (options.ignore_case || options.dictionary_order || options.ignore_nonprinting)
    || any_key_modifier options.keys

unfoldable pub has_special_sort : Options → Bool
unfolding any_special_key
has_special_sort options = not (is_byte options.sort_mode) || any_special_key options.keys

-- `!options->keys[0].reverse && options->keys[0].sort_mode == RANK_SORT_BYTE`, where there is one key.
abbrev pub plain_key : List KeyDef → Bool
plain_key (key ∷ []) = not key.reverse && is_byte key.sort_mode
plain_key _ = false

-- The branch for text modifiers and leading blanks.
unfoldable pub modifier_plan : Bool → Options → Plan
modifier_plan identity options =
    if identity
      && is_byte options.sort_mode
      && (length options.keys == 0 && not (options.reverse && options.stable))
    then plan radix_transformed "whole-line filtered radix"
    else if identity
        && is_byte options.sort_mode
        && (length options.keys == 1
            && not options.reverse
            && not options.unique
            && plain_key options.keys)
    then plan radix_transformed
        (if options.stable then "single stable filtered key radix" else "single filtered key radix")
    else plan scalar "text modifier"

-- The branch for a collation that is not the identity.
unfoldable pub collation_plan : Options → Plan
collation_plan options =
    if is_byte options.sort_mode
      && length options.keys == 0
      && not options.reverse
      && not options.unique
    then plan radix_transformed "whole-line transformed radix"
    else if is_byte options.sort_mode
        && length options.keys == 1
        && not options.reverse
        && not options.unique
        && plain_key options.keys
    then plan radix_transformed (
        if options.stable
        then "single stable transformed key radix"
        else "single transformed key radix")
    else plan scalar "non-identity collation"

-- `forced` is whether RANK_FORCE_SCALAR is set, and `identity` the answer of
-- `rank_locale_collation_identity`.
unfoldable pub rank_plan_from_options : (forced identity : Bool) → Options → Plan
unfolding has_text_modifiers has_special_sort modifier_plan collation_plan
rank_plan_from_options forced identity options =
    if forced
    then plan scalar "forced scalar"
    else if options.debug
    then plan scalar "debug output"
    else if has_text_modifiers options
        || (length options.keys == 0 && options.ignore_leading_blanks)
    then modifier_plan identity options
    else if not identity
    then collation_plan options
    else if has_special_sort options
    then plan scalar "special comparator"
    else if ltb 0 (length options.keys)
    then plan radix_keys (
        if options.unique
        then "unique key byte radix"
        else if length options.keys == 1
        then (if options.stable then "single stable key byte radix" else "single key byte radix")
        else "multi-key byte radix")
    else plan radix_bytes "whole-line byte radix"
