-- ===== src/Plan/Keys.antt =====
-- The plan RADIX_KEYS of src/plan.c is chosen only where src/cmp.c compares the bytes of the keys' spans.
use Prim.Native.Nat.{ℕ, ◌+◌}
use rank.Base.{
  ◌≡◌, refl, Bool, true, false, ◌||◌, none, List, [], ◌∷◌, arith, ℤ, pos, neg, or_else, ◌==◌,
  if◌then◌else◌, length,
}
use rank.Key.{KeyDef}
use rank.Options.{Options, is_byte}
use rank.Line.{Line}
use rank.Locale.{Locale, rank_locale_compare}
use rank.Locale.Lex.{lex, compare_bytes-lex}
use rank.Numeric.Long.{LongDouble}
use rank.Cmp.{
  Caches, compare_modified_spans, compare_key, compare_keys, compare_lines_last_resort,
  rank_compare_lines,
}
use rank.Plan.{
  radix_keys, any_key_modifier, any_special_key, has_text_modifiers, has_special_sort,
  rank_plan_from_options,
}
use rank.Plan.Agrees.{
  modifier_plan_kind, collation_plan_kind, keys_plan, is_byte-true, compare_with-plain,
}

some_keys :
    (forced identity : Bool) (options : Options)
    → (rank_plan_from_options forced identity options).kind ≡ radix_keys
    → (length options.keys == 0) ≡ false
unfolding rank_plan_from_options
some_keys forced identity options h =
    ground (arith, (modifier_plan_kind identity options).1, (collation_plan_kind options).1)

module _ (L : LongDouble) (loc : Locale) (options : Options) (lines : Caches L) where
  -- Key by key the byte order of the spans, each reversed as the key says.
  unfoldable pub span_order : List KeyDef → ℕ → Line → Line → ℤ
  span_order [] k a b = pos 0
  span_order (key ∷ keys) k a b =
      let spans = lex (lines.key_spans (a.key_index + k)) (lines.key_spans (b.key_index + k)) in
      or_else (if key.reverse then neg spans else spans) (span_order keys (k + 1) a b)

  compare_key-lex :
      (key : KeyDef) (k : ℕ) (a b : Line)
      → loc.identity ≡ true
      → lines.key_transforms ≡ none
      → (key.ignore_case || key.dictionary_order || key.ignore_nonprinting) ≡ false
      → is_byte key.sort_mode ≡ true
      → compare_key L loc options lines key k a b
        ≡ lex (lines.key_spans (a.key_index + k)) (lines.key_spans (b.key_index + k))
  unfolding compare_key compare_modified_spans
  compare_key-lex key k a b e none_there plain mode =
      rw (is_byte-true key.sort_mode mode, none_there)
        (compare_with-plain loc key.ignore_case key.dictionary_order key.ignore_nonprinting
          (lines.key_spans (a.key_index + k)) (lines.key_spans (b.key_index + k)) e (ground arith)
          (ground arith) (ground arith))

  compare_keys-span_order :
      (keys : List KeyDef) (k : ℕ) (a b : Line)
      → loc.identity ≡ true
      → lines.key_transforms ≡ none
      → any_key_modifier keys ≡ false
      → any_special_key keys ≡ false
      → compare_keys L loc options lines keys k a b ≡ span_order keys k a b
  unfolding compare_keys span_order any_key_modifier any_special_key
  compare_keys-span_order [] k a b e n m s = refl
  compare_keys-span_order (key ∷ keys) k a b e n m s =
      let spans = lex (lines.key_spans (a.key_index + k)) (lines.key_spans (b.key_index + k)) in
      ground (
        arith,
        compare_key-lex key k a b e n (ground arith) (ground arith),
        compare_keys-span_order keys (k + 1) a b e n (ground arith) (ground arith),
      )

  -- Where the plan is RADIX_KEYS and no line or key has a transform, the comparator is the byte order of the
  -- key spans, key by key, each reversed as its key says; then, unless `-s` or `-u` is given, the byte
  -- order of the lines, reversed for `-r`.
  pub rank_plan_from_options-keys :
      (forced : Bool)
      → (rank_plan_from_options forced loc.identity options).kind ≡ radix_keys
      → lines.line_transforms ≡ none
      → lines.key_transforms ≡ none
      → (a b : Line)
      → rank_compare_lines L loc options lines a b
        ≡ or_else (span_order options.keys 0 a b) (
            if options.stable || options.unique
            then pos 0
            else if options.reverse
            then neg (lex a.text b.text)
            else lex a.text b.text)
  unfolding rank_compare_lines
  rank_plan_from_options-keys forced h n m a b =
      let p = keys_plan forced loc.identity options h in
      let by_keys =
        compare_keys-span_order options.keys 0 a b p.identical m
          (unfold has_text_modifiers in ground (arith, p.no_modifiers))
          (unfold has_special_sort in ground (arith, p.not_special)) in
      let last : compare_lines_last_resort L loc options lines a b ≡ lex a.text b.text =
        unfold compare_lines_last_resort in
        unfold rank_locale_compare in rw (n, p.identical) (compare_bytes-lex a.text b.text) in
      rw (some_keys forced loc.identity options h, by_keys, last) (ground arith)
