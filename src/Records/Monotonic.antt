-- ===== src/Records/Monotonic.antt =====
-- The track of monotonic input that src/line.c keeps: the direction is true of the lines.
use Prim.Native.Nat.{ℕ, zero, suc}
use mathlib.Core.Path.{subst}
use rank.Base.{
  ◌≡◌, refl, sym, ◌∙◌, Bool, true, false, some, List, [], ◌∷◌, ◌++◌, arith, ℤ, pos, negsuc, is_zero,
  is_neg, is_pos, length, IsOrder, IsOrder-on, All, All-append, Bytes,
}
use rank.Line.{Line}
use rank.Locale.{compare_bytes}
use rank.Locale.Lex.{lex, lex-IsOrder, compare_bytes-lex}
use rank.Sort.Stable.{IsLe, Ascends}
use rank.Records.{
  Lines, compare_data_spans, previous, track, update_monotonic, append_line, add_line, add_lines,
}

-- The byte order of lines, and the opposite order.
abbrev pub up : Line → Line → ℤ
up a b = lex a.text b.text

abbrev pub down : Line → Line → ℤ
down a b = lex b.text a.text

up-IsOrder : IsOrder up
up-IsOrder = IsOrder-on (λ (l : Line). l.text) lex-IsOrder

down-IsOrder : IsOrder down
down-IsOrder = record {
  flip = λ a b. up-IsOrder.flip b a;
  trans = λ a b c h k. up-IsOrder.trans c b a k h;
}

All-previous :
    (P : Line → Type 0) (xs : List Line) (l : Line) → All P xs → previous xs ≡ some l → P l
All-previous P [] l h e = absurd (cc)
All-previous P (x ∷ []) l (p, h) e = let same : x ≡ l = cc in subst P same p
All-previous P (x ∷ y ∷ xs) l (p, h) e = All-previous P (y ∷ xs) l h e

-- A line that is at least the last one keeps the lines ascending.
module _ {c : Line → Line → ℤ} (o : IsOrder c) where
  Ascends-append_line :
      (xs : List Line) (l x : Line)
      → Ascends c xs
      → previous xs ≡ some l
      → IsLe c l x
      → Ascends c (xs ++ (x ∷ []))
  Ascends-append_line [] l x s e le = absurd (cc)
  Ascends-append_line (y ∷ []) l x s e le =
      let same : y ≡ l = cc in ((subst (λ w. IsLe c w x) (sym same) le, tt), (tt, tt))
  Ascends-append_line (y ∷ z ∷ xs) l x (b, s) e le = (
    All-append (IsLe c y) (z ∷ xs) (x ∷ []) b
        (o.trans y l x (All-previous (IsLe c y) (z ∷ xs) l b e) le, tt),
    Ascends-append_line (z ∷ xs) l x s e le,
  )

compare_data_spans-lex : (a b : Bytes) → compare_data_spans a b ≡ lex a b
unfolding compare_data_spans compare_bytes
compare_data_spans-lex a b = compare_bytes-lex a b

-- What the direction says of the lines: 0 that all are equal, -1 that they ascend, 1 that they
-- descend.
abbrev pub Run : ℤ → List Line → Type 0
Run (pos zero) items = Ascends up items × Ascends down items
Run (pos (suc n)) items = Ascends down items
Run (negsuc n) items = Ascends up items

abbrev pub RunIf : Bool → ℤ → List Line → Type 0
RunIf false direction items = Unit
RunIf true direction items = Run direction items

abbrev pub IsRun : Lines → Type 0
IsRun lines = RunIf lines.monotonic_valid lines.monotonic_direction lines.items

has_previous : (y : Line) (ys : List Line) → (l : Line) × (previous (y ∷ ys) ≡ some l)
has_previous y [] = (y, refl)
has_previous y (z ∷ ys) = has_previous z ys

abbrev pub lines_of : List Line → Bool → Bool → ℤ → Lines
lines_of items reversed valid direction = record {
  items = items;
  output_reversed = reversed;
  monotonic_valid = valid;
  monotonic_direction = direction;
}

abbrev new_line : List Line → Bytes → Line
new_line items text = record { text = text; ordinal = length items; key_index = 0 }

pub is_zero-suc : (n : ℕ) → is_zero (pos (suc n)) ≡ false
is_zero-suc n = ground arith

pub is_pos-suc : (n : ℕ) → is_pos (pos (suc n)) ≡ true
is_pos-suc n = ground arith

-- One step, whatever the difference `r` from the last line is.
track_step :
    (items : List Line) (reversed : Bool) (text : Bytes) (direction r : ℤ)
    → (Ascends up items → is_pos r ≡ false → Ascends up (items ++ (new_line items text ∷ [])))
    → (Ascends down items → is_neg r ≡ false → Ascends down (items ++ (new_line items text ∷ [])))
    → Run direction items
    → IsRun (append_line (track (lines_of items reversed true direction) r) text)
unfolding track
track_step items reversed text (pos zero) (pos zero) gu gd (u, d) = (gu u refl, gd d refl)
track_step items reversed text (pos zero) (pos (suc n)) gu gd (u, d) =
    rw (is_zero-suc n) (gd d refl)
track_step items reversed text (pos zero) (negsuc n) gu gd (u, d) = gu u refl
track_step items reversed text (pos (suc m)) (pos zero) gu gd d = gd d refl
track_step items reversed text (pos (suc m)) (pos (suc n)) gu gd d =
    rw (is_zero-suc n, is_zero-suc m, is_pos-suc m) (gd d refl)
track_step items reversed text (pos (suc m)) (negsuc n) gu gd d =
    rw (is_zero-suc m, is_pos-suc m) tt
track_step items reversed text (negsuc m) (pos zero) gu gd u = gu u refl
track_step items reversed text (negsuc m) (pos (suc n)) gu gd u =
    rw (is_zero-suc n, is_pos-suc n) tt
track_step items reversed text (negsuc m) (negsuc n) gu gd u = gu u refl

Run-single : (direction : ℤ) (line : Line) → Run direction (line ∷ [])
Run-single (pos zero) line = ((tt, tt), (tt, tt))
Run-single (pos (suc n)) line = (tt, tt)
Run-single (negsuc n) line = (tt, tt)

add_line_fields :
    (items : List Line) (reversed valid : Bool) (direction : ℤ) (text : Bytes)
    → RunIf valid direction items
    → IsRun (add_line (lines_of items reversed valid direction) text)
unfolding add_line update_monotonic
add_line_fields items reversed false direction text run = tt
add_line_fields [] reversed true direction text run = Run-single direction (new_line [] text)
add_line_fields (y ∷ ys) reversed true direction text run =
    let (l, last) = has_previous y ys in
    rw (last, compare_data_spans-lex l.text text)
      (track_step (y ∷ ys) reversed text direction (lex l.text text)
        (λ s le. Ascends-append_line up-IsOrder (y ∷ ys) l (new_line (y ∷ ys) text) s last le)
        (λ s ge.
          Ascends-append_line down-IsOrder (y ∷ ys) l (new_line (y ∷ ys) text) s last
            (lex-IsOrder.flip text l.text ∙ ge))
        run)

-- Where the direction is true of the lines or the track is not valid, this stays so whatever records
-- are added.
pub add_lines-IsRun :
    (lines : Lines) (texts : List Bytes) → IsRun lines → IsRun (add_lines lines texts)
unfolding add_lines
add_lines-IsRun lines [] run = run
add_lines-IsRun lines (text ∷ texts) run = add_lines-IsRun (add_line lines text) texts (
    add_line_fields lines.items lines.output_reversed lines.monotonic_valid
      lines.monotonic_direction text run)
