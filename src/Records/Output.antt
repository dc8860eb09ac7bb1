-- ===== src/Records/Output.antt =====
-- `output_line_at` of src/sort.c reads the lines in output order.
use Prim.Native.Nat.{ℕ, zero, suc, ◌+◌, ◌-◌, ◌<◌}
use rank.Base.{
  ◌≡◌, refl, sym, ap, ◌∙◌, inl, inr, Bool-cases, some, List, [], ◌∷◌, ◌++◌, arith, ltb, length,
  length-append, get_elem?,
}
use rank.Line.{Line}
use rank.Records.{Lines, output_line_at}
use rank.Sort.Reverse.{reverse}
use rank.Records.Turned.{output}

get_elem?-append_left :
    (xs : List Line) (x : Line) (i : ℕ)
    → i < length xs
    → get_elem? (xs ++ (x ∷ [])) i ≡ get_elem? xs i
get_elem?-append_left [] x i h = absurd (omega arith)
get_elem?-append_left (y ∷ xs) x zero h = refl
get_elem?-append_left (y ∷ xs) x (suc i) h = get_elem?-append_left xs x i (omega arith)

get_elem?-append_end : (xs : List Line) (x : Line) → get_elem? (xs ++ (x ∷ [])) (length xs) ≡ some x
get_elem?-append_end [] x = refl
get_elem?-append_end (y ∷ xs) x = get_elem?-append_end xs x

length-reverse : (xs : List Line) → length (reverse xs) ≡ length xs
length-reverse [] = refl
length-reverse (x ∷ xs) =
    let ih = length-reverse xs in
    let both : length (reverse xs ++ (x ∷ [])) ≡ length (reverse xs) + 1 =
      length-append (reverse xs) (x ∷ []) in
    omega (arith, ih, both)

get_elem?-reverse :
    (xs : List Line) (i : ℕ)
    → i < length xs
    → get_elem? (reverse xs) i ≡ get_elem? xs (length xs - 1 - i)
get_elem?-reverse [] i h = absurd (omega arith)
get_elem?-reverse (x ∷ xs) i h = elim (Bool-cases (ltb i (length xs))) [
  | inl inside ↦
      let index : length (x ∷ xs) - 1 - i ≡ suc (length xs - 1 - i) = ground arith in
      get_elem?-append_left (reverse xs) x i (ground (arith, length-reverse xs))
      ∙ get_elem?-reverse xs i (ground arith)
      ∙ ap (get_elem? (x ∷ xs)) (sym index)
  | inr last ↦
      let index : i ≡ length (reverse xs) = ground (arith, length-reverse xs) in
      let start : length (x ∷ xs) - 1 - i ≡ 0 = ground arith in
      ap (get_elem? (reverse xs ++ (x ∷ []))) index
      ∙ get_elem?-append_end (reverse xs) x
      ∙ ap (get_elem? (x ∷ xs)) (sym start)
]

-- At every index below the number of lines, `output_line_at` reads the lines in output order.
pub output_line_at-output :
    (lines : Lines) (index : ℕ)
    → index < length lines.items
    → output_line_at lines index ≡ get_elem? (output lines) index
unfolding output_line_at
output_line_at-output lines index h = elim (Bool-cases lines.output_reversed) [
  | inl turned ↦ rw turned (sym (get_elem?-reverse lines.items index h))
  | inr straight ↦ rw straight refl
]
