-- ===== src/Records/Turned.antt =====
-- `maybe_use_monotonic_run` of src/sort.c: input that is found monotonic is output in the wanted order.
use Prim.Native.Nat.{zero, suc}
use mathlib.Core.Path.{subst}
use rank.Base.{
  ◌≡◌, refl, sym, ap, ap₂, ◌∙◌, Bool, true, false, inl, inr, Bool-cases, Option, none, some, List,
  [], ◌∷◌, arith, ℤ, pos, negsuc, if◌then◌else◌, Bytes,
}
use rank.Line.{Line}
use rank.Sort.Stable.{Ascends}
use rank.Sort.Reverse.{reverse, reverse-Ascends}
use rank.Records.{
  Lines, no_lines, compare_data_spans, previous, track, update_monotonic, append_line, add_line,
  add_lines, reverse_output, maybe_use_monotonic_run,
}
use rank.Records.Monotonic.{up, down, Run, RunIf, IsRun, lines_of, is_pos-suc, add_lines-IsRun}

-- The lines in output order.
abbrev pub output : Lines → List Line
output lines = if lines.output_reversed then reverse lines.items else lines.items

add_line-output_reversed :
    (lines : Lines) (text : Bytes) → (add_line lines text).output_reversed ≡ lines.output_reversed
unfolding add_line update_monotonic track
add_line-output_reversed lines text = elim (Bool-cases lines.monotonic_valid) [
  | inl valid ↦ rw valid (by_previous (previous lines.items))
  | inr broken ↦ rw broken refl
]
  where
    by_previous :
        (p : Option Line)
        → (append_line
            (elim p as (λ _. Lines) [
              | none ↦ lines
              | some line ↦ track lines (compare_data_spans line.text text)
            ])
            text).output_reversed
          ≡ lines.output_reversed
    by_previous none = refl
    by_previous (some line) = ground arith

add_lines-output_reversed :
    (lines : Lines) (texts : List Bytes)
    → (add_lines lines texts).output_reversed ≡ lines.output_reversed
unfolding add_lines
add_lines-output_reversed lines [] = refl
add_lines-output_reversed lines (text ∷ texts) =
    add_lines-output_reversed (add_line lines text) texts ∙ add_line-output_reversed lines text

-- The order that the output is to have.
abbrev pub wanted : Bool → Line → Line → ℤ
wanted reversed = if reversed then down else up

from_some :
    (w : Line → Line → ℤ) (x y : Lines)
    → some x ≡ some y
    → Ascends w (output x)
    → Ascends w (output y)
from_some w x y e s = let same : x ≡ y = cc in subst (λ z. Ascends w (output z)) same s

-- A valid track is turned the right way round.
turned :
    (items : List Line) (direction : ℤ) (reversed : Bool) (lines : Lines)
    → Run direction items
    → maybe_use_monotonic_run reversed (lines_of items false true direction) ≡ some lines
    → Ascends (wanted reversed) (output lines)
unfolding maybe_use_monotonic_run
turned items (pos zero) true lines (u, d) e =
    from_some down (lines_of items false true (pos 0)) lines e d
turned items (pos zero) false lines (u, d) e =
    from_some up (lines_of items false true (pos 0)) lines e u
turned items (pos (suc n)) true lines d e =
    let x = lines_of items false true (pos (suc n)) in
    let kept : some x ≡ maybe_use_monotonic_run true x = rw (is_pos-suc n) refl in
    from_some down x lines (kept ∙ e) d
turned items (pos (suc n)) false lines d e =
    let x = lines_of items false true (pos (suc n)) in
    let moved : some (reverse_output x) ≡ maybe_use_monotonic_run false x =
      rw (is_pos-suc n) refl in
    from_some up (reverse_output x) lines (moved ∙ e) (reverse-Ascends down items d)
turned items (negsuc n) true lines u e =
    from_some down (lines_of items true true (negsuc n)) lines e (reverse-Ascends up items u)
turned items (negsuc n) false lines u e =
    from_some up (lines_of items false true (negsuc n)) lines e u

-- The track of a fresh input, once it has been read, and the flag it starts with.
run_of :
    (reversed : Bool) (lines lines' : Lines)
    → IsRun lines
    → lines.output_reversed ≡ false
    → maybe_use_monotonic_run reversed lines ≡ some lines'
    → Ascends (wanted reversed) (output lines')
run_of reversed lines lines' run kept e = elim (Bool-cases lines.monotonic_valid) [
  | inl valid ↦
      let same : lines ≡ lines_of lines.items false true lines.monotonic_direction =
        ap₂ (λ r v. lines_of lines.items r v lines.monotonic_direction) kept valid in
      turned lines.items lines.monotonic_direction reversed lines'
        (subst (λ v. RunIf v lines.monotonic_direction lines.items) valid run)
        (ap (maybe_use_monotonic_run reversed) (sym same) ∙ e)
  | inr broken ↦ absurd (unfold maybe_use_monotonic_run in ground (arith, e))
]

-- If `maybe_use_monotonic_run` takes the input, the lines in output order ascend in the byte order, or
-- descend for `-r`, whatever records were read.
pub maybe_use_monotonic_run-Ascends :
    (reversed : Bool) (texts : List Bytes) (lines : Lines)
    → maybe_use_monotonic_run reversed (add_lines no_lines texts) ≡ some lines
    → Ascends (wanted reversed) (output lines)
maybe_use_monotonic_run-Ascends reversed texts lines e =
    run_of reversed (add_lines no_lines texts) lines (add_lines-IsRun no_lines texts (tt, tt))
      (add_lines-output_reversed no_lines texts) e
