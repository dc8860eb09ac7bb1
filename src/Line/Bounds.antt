-- ===== src/Line/Bounds.antt =====
-- The positions that src/line.c computes lie in the line, so that no `size_t` subtraction wraps
-- around and no key reaches behind the line.
use Prim.Native.Nat.{ℕ, zero, suc, ◌+◌, ◌≤◌}
use rank.Base.{
  Bool, Option, none, some, [], ◌∷◌, arith, ltb, ◌==◌, if◌then◌else◌, length, drop, length-drop,
  Bytes,
}
use rank.Key.{KeyDef}
use rank.Line.{
  rank_scan_nonblank, rank_scan_blank, explicit_loop, explicit_field_start, memchr,
  explicit_field_end, blank_loop, blank_field_start, blank_field_end, field_start, field_limit,
  clamp_to, key_bounds,
}

scan_nonblank-le : (text : Bytes) → rank_scan_nonblank text ≤ length text
unfolding rank_scan_nonblank
scan_nonblank-le [] = omega arith
scan_nonblank-le (c ∷ text) = ground (arith, scan_nonblank-le text)

scan_blank-le : (text : Bytes) → rank_scan_blank text ≤ length text
unfolding rank_scan_blank
scan_blank-le [] = omega arith
scan_blank-le (c ∷ text) = ground (arith, scan_blank-le text)

memchr-le : (sep : ℕ) (text : Bytes) → memchr sep text ≤ length text
unfolding memchr
memchr-le sep [] = omega arith
memchr-le sep (c ∷ text) = ground (arith, memchr-le sep text)

explicit_loop-le :
    (sep field : ℕ) (text : Bytes) (i current : ℕ)
    → explicit_loop sep field text i current ≤ i + length text
unfolding explicit_loop
explicit_loop-le sep field [] i current = omega arith
explicit_loop-le sep field (c ∷ text) i current =
    ground
      (arith, explicit_loop-le sep field text (i + 1) (if c == sep then current + 1 else current))

explicit_field_start-le :
    (text : Bytes) (sep field : ℕ) → explicit_field_start text sep field ≤ length text
unfolding explicit_field_start
explicit_field_start-le text sep field = ground (arith, explicit_loop-le sep field text 0 1)

explicit_field_end-le : (text : Bytes) (sep s : ℕ) → explicit_field_end text sep s ≤ length text
unfolding explicit_field_end
explicit_field_end-le text sep s = ground (arith, memchr-le sep (drop s text), length-drop s text)

blank_loop-le :
    (fuel field : ℕ) (b : Bool) (text : Bytes) (i current : ℕ)
    → blank_loop fuel field b text i current ≤ i + length text
unfolding blank_loop
blank_loop-le zero field b text i current = omega arith
blank_loop-le (suc fuel) field b text i current =
    let blanks = rank_scan_nonblank text in
    let word = drop blanks text in
    let skip = rank_scan_blank word in
    ground (
      arith,
      blank_loop-le fuel field b (drop skip word) (i + blanks + skip) (current + 1),
      length-drop skip word,
      length-drop blanks text,
      scan_nonblank-le text,
      scan_blank-le word,
    )

blank_field_start-le :
    (text : Bytes) (field : ℕ) (b : Bool) → blank_field_start text field b ≤ length text
unfolding blank_field_start
blank_field_start-le text field b = omega (arith, blank_loop-le (length text) field b text 0 0)

blank_field_end-le : (text : Bytes) (s : ℕ) → s ≤ length text → blank_field_end text s ≤ length text
unfolding blank_field_end
blank_field_end-le text s h =
    let i = s + rank_scan_nonblank (drop s text) in
    omega (
      arith,
      scan_nonblank-le (drop s text),
      length-drop s text,
      scan_blank-le (drop i text),
      length-drop i text,
    )

-- Every field starts in the line or at its end, with a separator or by blanks.
pub field_start-le :
    (text : Bytes) (separator : Option ℕ) (field : ℕ) (b : Bool)
    → field_start text separator field b ≤ length text
unfolding field_start
field_start-le text (some sep) field b =
    let start = explicit_field_start text sep field in
    ground (
      arith,
      explicit_field_start-le text sep field,
      scan_nonblank-le (drop start text),
      length-drop start text,
    )
field_start-le text none field b = blank_field_start-le text field b

field_limit-le :
    (text : Bytes) (separator : Option ℕ) (key : KeyDef)
    → field_limit text separator key ≤ length text
unfolding field_limit
field_limit-le text (some sep) key =
    explicit_field_end-le text sep (explicit_field_start text sep key.end_field)
field_limit-le text none key =
    blank_field_end-le text _ (blank_field_start-le text key.end_field key.ignore_end_blanks)

ordered_bounds :
    (len start limit : ℕ)
    → let s = clamp_to len start in
      let l = clamp_to len limit in let e = if ltb l s then s else l in (s ≤ e) × (e ≤ len)
ordered_bounds len start limit = (ground arith, ground arith)

-- The key's span starts in the line, ends in the line, and does not end before it starts, whatever
-- fields and characters the key names; and the fields that `len - start` and `len - field_start`
-- are computed from start in the line, so these subtractions do not wrap around.
pub key_bounds-le :
    (text : Bytes) (separator : Option ℕ) (key : KeyDef)
    → ((key_bounds text separator key).0 ≤ (key_bounds text separator key).1)
      × ((key_bounds text separator key).1 ≤ length text)
      × (field_start text separator key.start_field key.ignore_start_blanks ≤ length text)
      × (field_start text separator key.end_field key.ignore_end_blanks ≤ length text)
unfolding key_bounds
key_bounds-le text separator key =
    let ordered = ordered_bounds (length text) _ _ in
    (
      ordered.0,
      ordered.1,
      field_start-le text separator key.start_field key.ignore_start_blanks,
      field_start-le text separator key.end_field key.ignore_end_blanks,
    )
