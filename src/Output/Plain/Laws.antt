-- ===== src/Output/Plain/Laws.antt =====
-- What `write_plain_lines` of src/output.c hands to the descriptor.
use Prim.Native.Nat.{ℕ, zero, suc, ◌+◌, ◌-◌, ◌≤◌}
use mathlib.Core.Path.{subst}
use rank.Base.{
  ◌≡◌, refl, sym, ap, ap₂, ◌∙◌, true, not, ◌||◌, inl, inr, Bool-cases, Option, none, some, List, [],
  ◌∷◌, ◌++◌, append_assoc, append-nil, arith, ltb, ◌==◌, length, get_elem?, take, drop, Bytes,
}
use rank.Output.{gather}
use rank.Radix.Keys.Skip.{drop-drop}
use rank.Output.Plain.{
  Place, holds, text_of, followed, append_plain_line_iov, run_loop, append_contiguous_run_iov,
}

abbrev no_bytes : Bytes
no_bytes = []

take-nil : (n : ℕ) → take n no_bytes ≡ no_bytes
take-nil zero = refl
take-nil (suc n) = refl

take_split : (n m : ℕ) (l : Bytes) → take (n + m) l ≡ take n l ++ take m (drop n l)
take_split zero m l = let e : 0 + m ≡ m = omega arith in ap (λ k. take k l) e
take_split (suc n) m [] = take-nil (suc n + m) ∙ sym (take-nil m)
take_split (suc n) m (x ∷ l) =
    let e : suc n + m ≡ suc (n + m) = omega arith in
    ap (λ k. take k (x ∷ l)) e ∙ ap (λ t. x ∷ t) (take_split n m l)

take_snoc :
    (n : ℕ) (delim : ℕ) (l : Bytes)
    → holds delim (get_elem? l n) ≡ true
    → take (suc n) l ≡ take n l ++ (delim ∷ [])
take_snoc n delim [] h = absurd (cc)
take_snoc zero delim (x ∷ l) h = let e : x ≡ delim = ground arith in ap (λ b. b ∷ []) e
take_snoc (suc n) delim (x ∷ l) h = ap (λ t. x ∷ t) (take_snoc n delim l h)

get_elem?-drop : (n m : ℕ) (l : Bytes) → get_elem? (drop n l) m ≡ get_elem? l (n + m)
get_elem?-drop zero m l = let e : m ≡ 0 + m = omega arith in ap (λ k. get_elem? l k) e
get_elem?-drop (suc n) m [] = refl
get_elem?-drop (suc n) m (x ∷ l) =
    let e : suc (n + m) ≡ suc n + m = omega arith in
    get_elem?-drop n m l ∙ ap (λ k. get_elem? (x ∷ l) k) e

pub gather-append : (a b : List Bytes) → gather (a ++ b) ≡ gather a ++ gather b
unfolding gather
gather-append [] b = refl
gather-append (part ∷ a) b =
    ap (λ t. part ++ t) (gather-append a b) ∙ sym (append_assoc part (gather a) (gather b))

pub gather-single : (part : Bytes) → gather (part ∷ []) ≡ part
unfolding gather
gather-single part = append-nil part

module _ (data_bytes : Bytes) (delim : ℕ) where
  -- A line as it is to be written, and all of them.
  abbrev pub line_out : Place → Bytes
  line_out line = text_of data_bytes delim line ++ (delim ∷ [])

  abbrev pub lines_out : List Place → Bytes
  lines_out [] = []
  lines_out (line ∷ lines) = line_out line ++ lines_out lines

  pub followed_text :
      (line : Place)
      → followed data_bytes delim line ≡ true
      → take (suc line.len) (drop line.off data_bytes) ≡ line_out line
  followed_text line h =
      take_snoc line.len delim (drop line.off data_bytes)
        (ap (holds delim) (get_elem?-drop line.off line.len data_bytes) ∙ ground arith)

  pub append_plain_line_iov-line_out :
      (line : Place) → gather (append_plain_line_iov data_bytes delim line) ≡ line_out line
  unfolding append_plain_line_iov gather
  append_plain_line_iov-line_out line = elim (Bool-cases (followed data_bytes delim line)) [
    | inl h ↦
        rw h (append-nil (take (suc line.len) (drop line.off data_bytes)) ∙ followed_text line h)
    | inr n ↦ rw n (elim (Bool-cases (ltb 0 line.len)) [
      | inl some_text ↦ rw some_text refl
      | inr empty ↦
          let e : 0 ≡ line.len = ground arith in
          rw empty (ap (λ k. take k (drop line.off data_bytes) ++ (delim ∷ [])) e)
    ])
  ]

  -- What stands in the data from `end` to the end of the run is what the lines of the run are.
  abbrev RunOf : ℕ → List Place → ℕ × List Place → Type 0
  RunOf end lines run =
      (end ≤ run.0)
      × (take (run.0 - end) (drop end data_bytes) ++ lines_out run.1 ≡ lines_out lines)

  RunOf-stop : (end : ℕ) (lines : List Place) → RunOf end lines (end, lines)
  RunOf-stop end lines =
      let none_taken : end - end ≡ 0 = omega arith in
      (omega arith, ap (λ k. take k (drop end data_bytes) ++ lines_out lines) none_taken)

  -- A line that is followed by the delimiter, and the run behind it.
  RunOf-line :
      (line : Place) (lines : List Place) (run : ℕ × List Place)
      → followed data_bytes delim line ≡ true
      → RunOf (line.off + line.len + 1) lines run
      → RunOf line.off (line ∷ lines) run
  RunOf-line line lines (end, rest) h (le, e) =
      let size : end - line.off ≡ suc line.len + (end - (line.off + line.len + 1)) = omega arith in
      let next : line.off + suc line.len ≡ line.off + line.len + 1 = omega arith in
      let behind : drop (suc line.len) (drop line.off data_bytes)
          ≡ drop (line.off + line.len + 1) data_bytes =
        sym (drop-drop line.off (suc line.len) data_bytes) ∙ ap (λ k. drop k data_bytes) next in
      (
        omega arith,
        ap (λ k. take k (drop line.off data_bytes) ++ lines_out rest) size
            ∙ ap (λ t. t ++ lines_out rest)
                (take_split (suc line.len) (end - (line.off + line.len + 1))
                  (drop line.off data_bytes))
            ∙ append_assoc (take (suc line.len) (drop line.off data_bytes))
                (take (end - (line.off + line.len + 1))
                  (drop (suc line.len) (drop line.off data_bytes)))
                (lines_out rest)
            ∙ ap₂ (λ t d. t ++ (take (end - (line.off + line.len + 1)) d ++ lines_out rest))
                (followed_text line h) behind
            ∙ ap (λ t. line_out line ++ t) e,
      )

  pub run_loop-RunOf :
      (end : ℕ) (lines : List Place) → RunOf end lines (run_loop data_bytes delim end lines)
  unfolding run_loop
  run_loop-RunOf end [] = RunOf-stop end []
  run_loop-RunOf end (next ∷ lines) =
      elim (Bool-cases (not (next.off == end) || not (followed data_bytes delim next))) [
        | inl stops ↦ rw (stops, run_loop) (RunOf-stop end (next ∷ lines))
        | inr goes ↦
            let at : next.off ≡ end = ground arith in
            let h : followed data_bytes delim next ≡ true = ground arith in
            rw (goes, run_loop)
              (subst
                (λ e.
                  RunOf e (next ∷ lines)
                    (run_loop data_bytes delim (next.off + next.len + 1) lines))
                at
                (RunOf-line next lines (run_loop data_bytes delim (next.off + next.len + 1) lines) h
                  (run_loop-RunOf (next.off + next.len + 1) lines)))
      ]

  -- The lines of the run are not more than there are.
  length-run_loop :
      (end : ℕ) (lines : List Place) → length (run_loop data_bytes delim end lines).1 ≤ length lines
  unfolding run_loop
  length-run_loop end [] = omega arith
  length-run_loop end (next ∷ lines) =
      elim (Bool-cases (not (next.off == end) || not (followed data_bytes delim next))) [
        | inl stops ↦ rw (stops, run_loop) (omega arith)
        | inr goes ↦
            rw (goes, run_loop) (omega (arith, length-run_loop (next.off + next.len + 1) lines))
      ]

  -- What a part for a run holds.
  abbrev pub Taken : List Place → Option (Bytes × List Place) → Type 0
  Taken lines none = Unit
  Taken lines (some (part, rest)) =
      (part ++ lines_out rest ≡ lines_out lines) × (suc (length rest) ≤ length lines)

  pub append_contiguous_run_iov-Taken :
      (line : Place) (lines : List Place)
      → Taken (line ∷ lines) (append_contiguous_run_iov data_bytes delim line lines)
  unfolding append_contiguous_run_iov
  append_contiguous_run_iov-Taken line lines =
      let run = run_loop data_bytes delim (line.off + line.len + 1) lines in
      elim (Bool-cases (not (followed data_bytes delim line) || length run.1 == length lines)) [
        | inl refused ↦ rw (refused, append_contiguous_run_iov) tt
        | inr accepted ↦
            let h : followed data_bytes delim line ≡ true = ground arith in
            rw (accepted, append_contiguous_run_iov)
              (
                (RunOf-line line lines run h (run_loop-RunOf (line.off + line.len + 1) lines)).1,
                omega (arith, length-run_loop (line.off + line.len + 1) lines),
              )
      ]
