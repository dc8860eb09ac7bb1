-- ===== src/Check/Order.antt =====
-- The checks of src/check.c succeed on sorted input and on no other.
use Prim.Native.Nat.{ℕ, ◌+◌}
use rank.Base.{
  ap, length, ◌≡◌, refl, Bool, true, false, ◌||◌, ◌&&◌, inl, inr, Bool-cases, none, List, [], ◌∷◌,
  arith, ℤ, neg, is_pos, is_zero, ◌↔◌, if◌then◌else◌, All-map_imp, IsOrder, lt_of_lt_of_le,
  is_zero-neg, Bytes,
}
use rank.Locale.{compare_bytes}
use rank.Locale.Lex.{lex, compare_bytes-lex}
use rank.Sort.Stable.{IsLe, Ascends}
use rank.Sort.Reverse.{Descends}
use rank.Numeric.Long.{LongDouble}
use rank.Options.{Options}
use rank.Line.{Line}
use rank.Locale.{Locale, rank_locale_compare}
use rank.Cmp.{Caches, rank_compare_lines, rank_compare_unique}
use rank.Plan.{has_text_modifiers, has_special_sort, any_key_modifier, any_special_key}
use rank.Plan.Agrees.{BytePlan, ascending-lex}
use rank.Key.{
  SortMode, byte, numeric, general_numeric, human_numeric, month, version, random, KeyDef,
}
use rank.Options.{is_byte}
use rank.Check.Kind.{fast_bytes, kind_of_mode, kind_of_keys, check_fast_kind_from_options}
use rank.Check.{
  success, is_disordered, check_loop, rank_check_lines, check_compare_bytes, check_bytes_disordered,
}

-- Every element is smaller than each later one.
abbrev pub Strictly {ℓ} : {A : Type ℓ} → (A → A → ℤ) → List A → Type 0
Strictly c = Descends (λ a b. c b a)

module _ {ℓ} {A : Type ℓ} (c u : A → A → ℤ) (o : IsOrder c) where
  check_loop-success :
      (number : ℕ) (x : A) (lines : List A)
      → check_loop false c u number x lines ≡ success
      → Ascends c (x ∷ lines)
  unfolding check_loop
  check_loop-success number x [] h = (tt, tt)
  check_loop-success number x (y ∷ lines) h = elim (Bool-cases (is_disordered false c u x y)) [
    | inl bad ↦ absurd (ground arith)
    | inr good ↦
        let (b, s) = check_loop-success (number + 1) y lines (ground arith) in
        let le : is_pos (c x y) ≡ false = ground arith in
        ((le, All-map_imp (IsLe c y) (IsLe c x) (λ z k. o.trans x y z le k) lines b), (b, s))
  ]

  success-check_loop :
      (number : ℕ) (x : A) (lines : List A)
      → Ascends c (x ∷ lines)
      → check_loop false c u number x lines ≡ success
  unfolding check_loop
  success-check_loop number x [] s = refl
  success-check_loop number x (y ∷ lines) ((le, b), s) =
      let rest = success-check_loop (number + 1) y lines s in ground arith

  -- Where the comparison is a total preorder, the check succeeds without `-u` on the lists that ascend, and on no others.
  pub rank_check_lines-Ascends :
      (lines : List A) → (rank_check_lines false c u lines ≡ success) ↔ Ascends c lines
  unfolding rank_check_lines
  rank_check_lines-Ascends [] = ((λ h. tt), (λ s. refl))
  rank_check_lines-Ascends (x ∷ lines) =
      (check_loop-success 1 x lines, success-check_loop 1 x lines)

module _ {ℓ} {A : Type ℓ} (c u : A → A → ℤ) (o : IsOrder c)
    (same : (a b : A) → is_zero (u a b) ≡ is_zero (c a b)) where
  unique-Strictly :
      (number : ℕ) (x : A) (lines : List A)
      → check_loop true c u number x lines ≡ success
      → Strictly c (x ∷ lines)
  unfolding check_loop
  unique-Strictly number x [] h = (tt, tt)
  unique-Strictly number x (y ∷ lines) h = elim (Bool-cases (is_disordered true c u x y)) [
    | inl bad ↦ absurd (ground arith)
    | inr good ↦
        let (b, s) = unique-Strictly (number + 1) y lines (ground arith) in
        let lt : is_pos (c y x) ≡ true = ground (arith, same x y, o.flip y x) in
        (
          (
            lt,
            All-map_imp (λ z. is_pos (c z y) ≡ true) (λ z. is_pos (c z x) ≡ true)
                (λ z k. ground (arith, lt_of_lt_of_le o x y z, o.flip z y, o.flip y z)) lines b,
          ),
          (b, s),
        )
  ]

  Strictly-unique :
      (number : ℕ) (x : A) (lines : List A)
      → Strictly c (x ∷ lines)
      → check_loop true c u number x lines ≡ success
  unfolding check_loop
  Strictly-unique number x [] s = refl
  Strictly-unique number x (y ∷ lines) ((lt, b), s) =
      let rest = Strictly-unique (number + 1) y lines s in
      ground (arith, same x y, o.flip y x, o.flip x y)

  -- With `-u`, where the comparison is a total preorder and that for `-u` finds equal what it does, the
  -- check succeeds on the lists in which each line is smaller than all later ones, and on no others.
  pub rank_check_lines-Strictly :
      (lines : List A) → (rank_check_lines true c u lines ≡ success) ↔ Strictly c lines
  unfolding rank_check_lines
  rank_check_lines-Strictly [] = ((λ h. tt), (λ s. refl))
  rank_check_lines-Strictly (x ∷ lines) = (unique-Strictly 1 x lines, Strictly-unique 1 x lines)

check_compare_bytes-lex : (a b : Bytes) → check_compare_bytes a b ≡ lex a b
unfolding check_compare_bytes compare_bytes
check_compare_bytes-lex a b = compare_bytes-lex a b

disordered_alike :
    (reverse unique : Bool) (r : ℤ)
    → (is_pos (if reverse then neg r else r) || (unique && is_zero (if reverse then neg r else r)))
      ≡ (is_pos (if reverse then neg r else r) || (unique && is_zero r))
disordered_alike true unique r = rw (is_zero-neg r) refl
disordered_alike false unique r = refl

kind_of_mode-other : (mode : SortMode) (key : KeyDef) → ¬ (kind_of_mode mode key ≡ fast_bytes)
kind_of_mode-other byte key h = ground arith
kind_of_mode-other numeric key h = absurd (cc)
kind_of_mode-other general_numeric key h = absurd (cc)
kind_of_mode-other human_numeric key h = absurd (cc)
kind_of_mode-other month key h = absurd (cc)
kind_of_mode-other version key h = absurd (cc)
kind_of_mode-other random key h = absurd (cc)

-- What CHECK_FAST_BYTES tells about the options.
kind_of_keys-bytes :
    (options : Options) (keys : List KeyDef)
    → kind_of_keys options keys ≡ fast_bytes
    → (keys ≡ [])
      × (is_byte options.sort_mode ≡ true)
      × ((options.ignore_case || options.dictionary_order || options.ignore_nonprinting) ≡ false)
      × (options.ignore_leading_blanks ≡ false)
kind_of_keys-bytes options [] h = (refl, ground arith, ground arith, ground arith)
kind_of_keys-bytes options (key ∷ []) h =
    absurd (ground (arith, kind_of_mode-other key.sort_mode key))
kind_of_keys-bytes options (key ∷ next ∷ keys) h = absurd (cc)

fast_bytes-BytePlan :
    (identity : Bool) (options : Options)
    → check_fast_kind_from_options identity options ≡ fast_bytes
    → BytePlan identity options
      × (length options.keys ≡ 0)
      × (options.ignore_leading_blanks ≡ false)
unfolding check_fast_kind_from_options has_text_modifiers has_special_sort any_key_modifier
    any_special_key
fast_bytes-BytePlan identity options h =
    let identical : identity ≡ true = ground arith in
    let kind : kind_of_keys options options.keys ≡ fast_bytes = ground arith in
    let (none_given, mode, plain, blanks) = kind_of_keys-bytes options options.keys kind in
    let modifier : any_key_modifier options.keys ≡ false = ap any_key_modifier none_given in
    let special : any_special_key options.keys ≡ false = ap any_special_key none_given in
    (
      record {
        no_modifiers = ground (arith, modifier, plain);
        identical = identical;
        not_special = ground (arith, special, mode);
      },
      ap length none_given,
      blanks,
    )

-- Where the kind of the check is CHECK_FAST_BYTES and no line has a transform, the fast check of two
-- records finds what `rank_check_lines` finds with the comparators of src/cmp.c.
pub check_bytes_disordered-is_disordered :
    (L : LongDouble) (loc : Locale) (options : Options) (caches : Caches L)
    → check_fast_kind_from_options loc.identity options ≡ fast_bytes
    → caches.line_transforms ≡ none
    → (a b : Line)
    → check_bytes_disordered options.reverse options.unique a.text b.text
      ≡ is_disordered options.unique
          (rank_compare_lines L loc options caches)
          (rank_compare_unique L loc options caches)
          a
          b
unfolding check_bytes_disordered
check_bytes_disordered-is_disordered L loc options caches kind lt a b =
    let (p, no_keys, blanks) = fast_bytes-BytePlan loc.identity options kind in
    let text = ascending-lex L loc options caches p blanks lt a b in
    let plain : rank_locale_compare loc a.text b.text ≡ lex a.text b.text =
      unfold rank_locale_compare in rw p.identical (compare_bytes-lex a.text b.text) in
    let compare : rank_compare_lines L loc options caches a b
        ≡ (if options.reverse then neg (lex a.text b.text) else lex a.text b.text) =
      unfold rank_compare_lines in ground (arith, text, plain, no_keys) in
    let unique : rank_compare_unique L loc options caches a b ≡ lex a.text b.text =
      unfold rank_compare_unique in ground (arith, text, no_keys) in
    rw (check_compare_bytes-lex a.text b.text, compare, unique)
      (disordered_alike options.reverse options.unique (lex a.text b.text))
