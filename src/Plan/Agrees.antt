-- ===== src/Plan/Agrees.antt =====
-- The radix plans of src/plan.c are chosen only where src/cmp.c compares bytes.
use rank.Base.{◌≡◌, ◌≢◌, refl, Bool, true, false, none, arith, neg, if◌then◌else◌, length, Bytes}
use rank.Key.{SortMode, byte, numeric, general_numeric, human_numeric, month, version, random}
use rank.Options.{Options, is_byte}
use rank.Line.{Line}
use rank.Locale.{Locale, rank_locale_compare}
use rank.Locale.Lex.{lex, compare_bytes-lex}
use rank.Numeric.Long.{LongDouble}
use rank.Cmp.{
  Caches, compare_with, compare_modified_spans, rank_compare_lines_ascending, rank_compare_lines,
}
use rank.Plan.{
  radix_bytes, radix_keys, has_text_modifiers, has_special_sort, modifier_plan, collation_plan,
  rank_plan_from_options,
}

pub modifier_plan_kind :
    (identity : Bool) (options : Options)
    → ((modifier_plan identity options).kind ≢ radix_bytes)
      × ((modifier_plan identity options).kind ≢ radix_keys)
unfolding modifier_plan
modifier_plan_kind identity options = (λ e. ground arith, λ e. ground arith)

pub collation_plan_kind :
    (options : Options)
    → ((collation_plan options).kind ≢ radix_bytes) × ((collation_plan options).kind ≢ radix_keys)
unfolding collation_plan
collation_plan_kind options = (λ e. ground arith, λ e. ground arith)

-- What a radix plan over bytes tells about the options.
pub record BytePlan (identity : Bool) (options : Options) : Type 0 where
  pub no_modifiers : has_text_modifiers options ≡ false
  pub identical : identity ≡ true
  pub not_special : has_special_sort options ≡ false

pub bytes_plan :
    (forced identity : Bool) (options : Options)
    → (rank_plan_from_options forced identity options).kind ≡ radix_bytes
    → BytePlan identity options
      × (length options.keys ≡ 0)
      × (options.ignore_leading_blanks ≡ false)
unfolding rank_plan_from_options
bytes_plan forced identity options h =
    let m = (modifier_plan_kind identity options).0 in
    let c = (collation_plan_kind options).0 in
    (
      record {
        no_modifiers = ground (arith, m, c);
        identical = ground (arith, m, c);
        not_special = ground (arith, m, c);
      },
      ground (arith, m, c),
      ground (arith, m, c),
    )

pub keys_plan :
    (forced identity : Bool) (options : Options)
    → (rank_plan_from_options forced identity options).kind ≡ radix_keys
    → BytePlan identity options
unfolding rank_plan_from_options
keys_plan forced identity options h =
    let m = (modifier_plan_kind identity options).1 in
    let c = (collation_plan_kind options).1 in
    record {
      no_modifiers = ground (arith, m, c);
      identical = ground (arith, m, c);
      not_special = ground (arith, m, c);
    }

pub is_byte-true : (mode : SortMode) → is_byte mode ≡ true → mode ≡ byte
is_byte-true byte h = refl
is_byte-true numeric h = absurd (cc)
is_byte-true general_numeric h = absurd (cc)
is_byte-true human_numeric h = absurd (cc)
is_byte-true month h = absurd (cc)
is_byte-true version h = absurd (cc)
is_byte-true random h = absurd (cc)

pub compare_with-plain :
    (loc : Locale) (f d i : Bool) (a b : Bytes)
    → loc.identity ≡ true
    → f ≡ false
    → d ≡ false
    → i ≡ false
    → compare_with loc f d i a b ≡ lex a b
unfolding compare_with rank_locale_compare
compare_with-plain loc f d i a b e p q r = rw (p, q, r, e) (compare_bytes-lex a b)

module _ (L : LongDouble) (loc : Locale) (options : Options) (lines : Caches L) where
  -- Without keys, modifiers and transforms, lines compare as bytes.
  pub ascending-lex :
      BytePlan loc.identity options
      → options.ignore_leading_blanks ≡ false
      → lines.line_transforms ≡ none
      → (a b : Line) → rank_compare_lines_ascending L loc options lines a b ≡ lex a.text b.text
  unfolding rank_compare_lines_ascending compare_modified_spans
  ascending-lex p blanks no_transforms a b =
      let mode : options.sort_mode ≡ byte =
        is_byte-true options.sort_mode (unfold has_special_sort in ground (arith, p.not_special)) in
      rw (mode, no_transforms, blanks)
        (ground (
          arith,
          compare_with-plain loc options.ignore_case options.dictionary_order
              options.ignore_nonprinting a.text b.text p.identical
              (unfold has_text_modifiers in ground (arith, p.no_modifiers))
              (unfold has_text_modifiers in ground (arith, p.no_modifiers))
              (unfold has_text_modifiers in ground (arith, p.no_modifiers)),
        ))

  -- Where the plan is RADIX_BYTES and no line has a transform, the comparator is the byte order of
  -- the lines, reversed for `-r`.
  pub rank_plan_from_options-bytes :
      (forced : Bool)
      → (rank_plan_from_options forced loc.identity options).kind ≡ radix_bytes
      → lines.line_transforms ≡ none
      → (a b : Line)
      → rank_compare_lines L loc options lines a b
        ≡ (if options.reverse then neg (lex a.text b.text) else lex a.text b.text)
  unfolding rank_compare_lines
  rank_plan_from_options-bytes forced h no_transforms a b =
      let (p, no_keys, blanks) = bytes_plan forced loc.identity options h in
      let text = ascending-lex p blanks no_transforms a b in
      let plain : rank_locale_compare loc a.text b.text ≡ lex a.text b.text =
        unfold rank_locale_compare in rw p.identical (compare_bytes-lex a.text b.text) in
      ground (arith, text, plain, no_keys)
