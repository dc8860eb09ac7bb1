-- ===== src/Cmp/Spans.antt =====
-- `compare_modified_spans` of src/cmp.c is the byte order of the filtered copies that src/line.c makes, so
-- that the transformed spans and the comparison on the fly agree.
use Prim.Native.Nat.{ℕ, zero, suc, ◌+◌, ◌≤◌}
use rank.Base.{
  ◌≡◌, ◌⊎◌, refl, sym, ap₂, ◌∙◌, Bool, true, false, inl, inr, Bool-cases, [], ◌∷◌, arith, ℤ, pos,
  is_zero, is_pos, is_neg, sign, unit_sign, IsOrder, IsOrder-sign, if◌then◌else◌, length, Bytes,
}
use rank.Locale.{compare_bytes, Locale, rank_locale_compare}
use rank.Locale.Lex.{lex, compare_bytes-lex}
use rank.Line.{filtered_keep, filtered_fold, filter_loop, append_filtered_span}
use rank.Line.Filter.{append_filtered_span-loop, filter_loop_off}
use rank.Cmp.{
  TransformedSpan, Digest, memcmp_digest, compare_random, compare_transformed_spans, skip_dropped,
  modified_loop, compare_with,
}

-- Transformed spans compare as byte strings.
pub compare_transformed_spans-lex :
    (a b : TransformedSpan) → compare_transformed_spans a b ≡ lex a.bytes b.bytes
unfolding compare_transformed_spans compare_bytes
compare_transformed_spans-lex a b = compare_bytes-lex a.bytes b.bytes

module _ (f d i : Bool) where
  -- What is left behind the skipped bytes is filtered to the same bytes.
  skip_dropped-filter : (a : Bytes) → filter_loop f d i (skip_dropped d i a) ≡ filter_loop f d i a
  unfolding skip_dropped filter_loop
  skip_dropped-filter [] = refl
  skip_dropped-filter (c ∷ a) = elim (Bool-cases (filtered_keep d i c)) [
    | inl k ↦ rw k (rw k refl)
    | inr n ↦ rw n (skip_dropped-filter a)
  ]

  -- The skipping ends at the end, where nothing is left to filter, or at the first byte kept.
  skipped :
      (a : Bytes)
      → ((skip_dropped d i a ≡ []) × (filter_loop f d i a ≡ []))
        ⊎ ((x : ℕ) × (r : Bytes) × (skip_dropped d i a ≡ x ∷ r)
            × (filter_loop f d i a ≡ filtered_fold f x ∷ filter_loop f d i r)
            × (suc (length r) ≤ length a))
  unfolding skip_dropped filter_loop
  skipped [] = inl (refl, refl)
  skipped (c ∷ a) = elim (Bool-cases (filtered_keep d i c)) [
    | inl k ↦ inr (c, a, rw k refl, rw k refl, omega arith)
    | inr n ↦ elim (skipped a) [
      | inl (p, q) ↦ inl (rw n p, rw n q)
      | inr (x, r, p, q, l) ↦ inr (x, r, rw n p, rw n q, omega arith)
    ]
  ]

  -- The loop is the byte order of the filtered texts.
  pub modified_loop-lex :
      (n : ℕ) (a b : Bytes)
      → length a ≤ n
      → modified_loop n f d i a b ≡ lex (filter_loop f d i a) (filter_loop f d i b)
  unfolding modified_loop lex
  modified_loop-lex zero a b h = elim (skipped a) [
    | inl (p, q) ↦ elim (skipped b) [
      | inl (p', q') ↦ rw (p, q, p', q') refl
      | inr (y, s, p', q', l') ↦ rw (p, q, p', q') refl
    ]
    | inr (x, r, p, q, l) ↦ absurd (omega arith)
  ]
  modified_loop-lex (suc n) a b h = elim (skipped a) [
    | inl (p, q) ↦ elim (skipped b) [
      | inl (p', q') ↦ rw (p, q, p', q') refl
      | inr (y, s, p', q', l') ↦ rw (p, q, p', q') refl
    ]
    | inr (x, r, p, q, l) ↦ elim (skipped b) [
      | inl (p', q') ↦ rw (p, q, p', q') refl
      | inr (y, s, p', q', l') ↦
          rw (p, q, p', q') (ground (arith, modified_loop-lex n r s (omega arith)))
    ]
  ]

-- Under an identity locale the comparison with modifiers is the byte order of the filtered copies.
pub compare_with-lex :
    (loc : Locale) (f d i : Bool) (a b : Bytes)
    → loc.identity ≡ true
    → compare_with loc f d i a b ≡ lex (append_filtered_span a f d i) (append_filtered_span b f d i)
unfolding compare_with
compare_with-lex loc f d i a b e =
    byte_order
    ∙ ap₂ lex (sym (append_filtered_span-loop a f d i)) (sym (append_filtered_span-loop b f d i))
  where
    plain : rank_locale_compare loc a b ≡ lex a b
    plain = unfold rank_locale_compare in rw e (compare_bytes-lex a b)

    off : lex (filter_loop false false false a) (filter_loop false false false b) ≡ lex a b
    off = ap₂ lex (filter_loop_off a) (filter_loop_off b)

    byte_order : compare_with loc f d i a b ≡ lex (filter_loop f d i a) (filter_loop f d i b)
    byte_order = ground (arith, plain, off, modified_loop-lex f d i (length a) a b (omega arith))

digest-flip :
    (n i : ℕ) (a b : Digest) → is_pos (memcmp_digest n i a b) ≡ is_neg (memcmp_digest n i b a)
unfolding memcmp_digest
digest-flip zero i a b = refl
digest-flip (suc n) i a b = ground (arith, digest-flip n (i + 1) a b)

digest_trans :
    (n i : ℕ) (a b c : Digest)
    → is_pos (memcmp_digest n i a b) ≡ false
    → is_pos (memcmp_digest n i b c) ≡ false
    → is_pos (memcmp_digest n i a c) ≡ false
unfolding memcmp_digest
digest_trans zero i a b c h k = refl
digest_trans (suc n) i a b c h k = ground (arith, digest_trans n (i + 1) a b c)

sign-unit_sign : (r : ℤ) → sign (if is_zero r then pos 0 else unit_sign r) ≡ sign r
sign-unit_sign r = ground arith

random-sign : (a b : Digest) → sign (compare_random a b) ≡ sign (memcmp_digest 16 0 a b)
unfolding compare_random
random-sign a b = sign-unit_sign (memcmp_digest 16 0 a b)

compare_random-IsOrder : IsOrder compare_random
compare_random-IsOrder =
    IsOrder-sign random-sign (record { flip = digest-flip 16 0; trans = digest_trans 16 0 })

-- The bytes of a digest.
abbrev pub digest_bytes : Digest → Bytes
digest_bytes d =
    d 0
    ∷ d 1
    ∷ d 2
    ∷ d 3
    ∷ d 4
    ∷ d 5
    ∷ d 6
    ∷ d 7
    ∷ d 8
    ∷ d 9
    ∷ d 10
    ∷ d 11
    ∷ d 12
    ∷ d 13
    ∷ d 14
    ∷ d 15
    ∷ []

-- `n` bytes from index `i` on.
abbrev bytes_from : ℕ → ℕ → Digest → Bytes
bytes_from zero i d = []
bytes_from (suc n) i d = d i ∷ bytes_from n (i + 1) d

memcmp_digest-lex :
    (n i : ℕ) (a b : Digest)
    → (if is_zero (memcmp_digest n i a b) then pos 0 else unit_sign (memcmp_digest n i a b))
      ≡ lex (bytes_from n i a) (bytes_from n i b)
unfolding memcmp_digest lex
memcmp_digest-lex zero i a b = refl
memcmp_digest-lex (suc n) i a b = ground (arith, memcmp_digest-lex n (i + 1) a b)

compare_random-lex : (a b : Digest) → compare_random a b ≡ lex (digest_bytes a) (digest_bytes b)
unfolding compare_random
compare_random-lex a b = memcmp_digest-lex 16 0 a b

-- `compare_random` is the byte order of the 16 bytes of the digests, a total preorder.
pub compare_random-digest_bytes :
    IsOrder compare_random
    × ((a b : Digest) → compare_random a b ≡ lex (digest_bytes a) (digest_bytes b))
compare_random-digest_bytes = (compare_random-IsOrder, compare_random-lex)
