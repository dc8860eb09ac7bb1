-- ===== src/Version/Order.antt =====
-- `version_reverse_compare` compares lists of chunks, and `rank_version_compare` is a total preorder.
use Prim.Native.Nat.{ℕ, zero, suc, ◌+◌, ◌≤◌}
use rank.Base.{
  ◌≡◌, refl, sym, ap, ap₂, ◌∙◌, false, not, inl, inr, Bool-cases, List, [], ◌∷◌, arith, ℤ, pos,
  is_zero, three_way, or_else, sign, IsOrder, IsOrder-sign, IsOrder-eq, ltb, IsOrder-on,
  IsOrder-or_else, IsOrder-three_way, length, take, Bytes, if◌then◌else◌,
}
use rank.Numeric.{take_digits, drop_digits, skip_zeros}
use rank.Version.{
  Skipped, differ, arrived, skip_text, run_digits, digits_outcome, both_end, round_of,
  version_rounds, version_reverse_compare, version_file_prefix_len, version_passes, is_nil,
  starts_dot, is_dot, is_dotdot, rank_version_compare,
}
use rank.Version.Skip.{Told, text_of, after_text, compare_text, skip_text-Told}
use rank.Version.Number.{number_of, run_digits-number, run_digits_rest}
use rank.Version.Chunks.{
  Chunk, compare_chunk, compare_chunks, compare_chunks-IsOrder, chunk_of, rest_of, chunks,
  rest_of-lt,
}

arrived-sign :
    (a b : Bytes) (go : Bytes → Bytes → ℤ)
    → sign (round_of (arrived a b) go)
      ≡ sign (or_else (three_way (number_of a) (number_of b)) (go (drop_digits a) (drop_digits b)))
arrived-sign a b go = elim (Bool-cases (is_zero (digits_outcome run))) [
  | inl z ↦ let (p, q) = run_digits_rest a b z in ground (arith, z, p, q, run_digits-number a b)
  | inr n ↦ ground (arith, n, run_digits-number a b)
]
  where
    run : ℤ × Bytes × Bytes
    run = run_digits (skip_zeros a) (skip_zeros b) (pos 0)

round-sign :
    (k : Skipped) (a b : Bytes) (go : Bytes → Bytes → ℤ)
    → Told k (compare_text (text_of a) (text_of b)) (after_text a) (after_text b)
    → sign (round_of k go)
      ≡ sign (or_else (compare_chunk (chunk_of a) (chunk_of b)) (go (rest_of a) (rest_of b)))
unfolding compare_chunk
round-sign (differ r) a b go t = ground arith
round-sign (arrived a' b') a b go (z, p, q) =
    rw (p, q) (ground (arith, z, arrived-sign (after_text a) (after_text b) go))

rounds-sign :
    (f : ℕ) (a b : Bytes)
    → both_end a b ≡ false
    → sign (version_rounds (suc f) a b)
      ≡ sign (
          or_else
            (compare_chunk (chunk_of a) (chunk_of b))
            (version_rounds f (rest_of a) (rest_of b)))
unfolding version_rounds
rounds-sign f [] [] h = absurd (cc)
rounds-sign f [] (y ∷ b) h =
    round-sign (skip_text [] (y ∷ b)) [] (y ∷ b) (version_rounds f) (skip_text-Told [] (y ∷ b))
rounds-sign f (x ∷ a) [] h =
    round-sign (skip_text (x ∷ a) []) (x ∷ a) [] (version_rounds f) (skip_text-Told (x ∷ a) [])
rounds-sign f (x ∷ a) (y ∷ b) h =
    round-sign (skip_text (x ∷ a) (y ∷ b)) (x ∷ a) (y ∷ b) (version_rounds f)
      (skip_text-Told (x ∷ a) (y ∷ b))

chunks-nil : (f : ℕ) → chunks f [] ≡ []
unfolding chunks
chunks-nil zero = refl
chunks-nil (suc f) = refl

empty-rest_of : rest_of [] ≡ []
unfolding after_text drop_digits
empty-rest_of = refl

rounds_end : (f : ℕ) → version_rounds f [] [] ≡ pos 0
unfolding version_rounds
rounds_end zero = refl
rounds_end (suc f) = refl

or_else_sign : (r s t : ℤ) → sign s ≡ sign t → sign (or_else r s) ≡ sign (or_else r t)
or_else_sign r s t e = ground arith

abbrev chunk_step : Bytes → Bytes → ℤ → ℤ
chunk_step a b r = or_else (compare_chunk (chunk_of a) (chunk_of b)) r

step_right :
    (fa fb y : ℕ) (b : Bytes)
    → compare_chunks (chunks fa []) (chunks (suc fb) (y ∷ b))
      ≡ chunk_step [] (y ∷ b) (compare_chunks (chunks 0 (rest_of [])) (chunks fb (rest_of (y ∷ b))))
unfolding chunks compare_chunks text_of after_text take_digits
step_right zero fb y b = refl
step_right (suc fa) fb y b = refl

step_left :
    (fa fb x : ℕ) (a : Bytes)
    → compare_chunks (chunks (suc fa) (x ∷ a)) (chunks fb [])
      ≡ chunk_step (x ∷ a) [] (compare_chunks (chunks fa (rest_of (x ∷ a))) (chunks 0 (rest_of [])))
unfolding chunks compare_chunks text_of after_text take_digits
step_left fa zero x a = refl
step_left fa (suc fb) x a = refl

step_both :
    (fa fb x y : ℕ) (a b : Bytes)
    → compare_chunks (chunks (suc fa) (x ∷ a)) (chunks (suc fb) (y ∷ b))
      ≡ chunk_step
          (x ∷ a)
          (y ∷ b)
          (compare_chunks (chunks fa (rest_of (x ∷ a))) (chunks fb (rest_of (y ∷ b))))
unfolding chunks compare_chunks
step_both fa fb x y a b = refl

-- A round on each side.
join_rounds :
    (f : ℕ) (a b : Bytes) (r s : ℤ)
    → both_end a b ≡ false
    → sign (version_rounds f (rest_of a) (rest_of b)) ≡ sign r
    → s ≡ chunk_step a b r
    → sign (version_rounds (suc f) a b) ≡ sign s
join_rounds f a b r s h e q =
    rounds-sign f a b h
    ∙ or_else_sign (compare_chunk (chunk_of a) (chunk_of b))
        (version_rounds f (rest_of a) (rest_of b)) r e
    ∙ ap sign (sym q)

-- With enough fuel the rounds compare the chunks of both texts.
version_rounds-chunks :
    (f fa fb : ℕ) (a b : Bytes)
    → length a + length b ≤ f
    → length a ≤ fa
    → length b ≤ fb
    → sign (version_rounds f a b) ≡ sign (compare_chunks (chunks fa a) (chunks fb b))
version_rounds-chunks f fa fb [] [] h ha hb =
    rw (rounds_end f, chunks-nil fa, chunks-nil fb) (unfold compare_chunks in refl)
version_rounds-chunks (suc f) fa (suc fb) [] (y ∷ b) h ha hb =
    join_rounds f [] (y ∷ b) _ _ refl
      (version_rounds-chunks f 0 fb (rest_of []) (rest_of (y ∷ b))
        (omega (arith, rest_of-lt y b, ap length empty-rest_of))
        (omega (arith, ap length empty-rest_of)) (omega (arith, rest_of-lt y b)))
      (step_right fa fb y b)
version_rounds-chunks (suc f) (suc fa) fb (x ∷ a) [] h ha hb =
    join_rounds f (x ∷ a) [] _ _ refl
      (version_rounds-chunks f fa 0 (rest_of (x ∷ a)) (rest_of [])
        (omega (arith, rest_of-lt x a, ap length empty-rest_of)) (omega (arith, rest_of-lt x a))
        (omega (arith, ap length empty-rest_of)))
      (step_left fa fb x a)
version_rounds-chunks (suc f) (suc fa) (suc fb) (x ∷ a) (y ∷ b) h ha hb =
    join_rounds f (x ∷ a) (y ∷ b) _ _ refl
      (version_rounds-chunks f fa fb (rest_of (x ∷ a)) (rest_of (y ∷ b))
        (omega (arith, rest_of-lt x a, rest_of-lt y b)) (omega (arith, rest_of-lt x a))
        (omega (arith, rest_of-lt y b)))
      (step_both fa fb x y a b)
version_rounds-chunks zero fa fb [] (y ∷ b) h ha hb = absurd (omega arith)
version_rounds-chunks zero fa fb (x ∷ a) b h ha hb = absurd (omega arith)
version_rounds-chunks (suc f) fa zero [] (y ∷ b) h ha hb = absurd (omega arith)
version_rounds-chunks (suc f) zero fb (x ∷ a) b h ha hb = absurd (omega arith)
version_rounds-chunks (suc f) (suc fa) zero (x ∷ a) (y ∷ b) h ha hb = absurd (omega arith)

abbrev chunks_all : Bytes → List Chunk
chunks_all s = chunks (length s) s

-- Up to the size of the result, `version_reverse_compare` compares the texts chunk by chunk: the bytes up
-- to the next digit by rank ('~', the end, letters, others), then the number behind them by value,
-- with empty chunks behind the shorter text.
pub version_reverse_compare-chunks :
    (a b : Bytes)
    → sign (version_reverse_compare a b)
      ≡ sign (compare_chunks (chunks (length a) a) (chunks (length b) b))
unfolding version_reverse_compare
version_reverse_compare-chunks a b =
    version_rounds-chunks (length a + length b) (length a) (length b) a b (omega arith)
      (omega arith) (omega arith)

pub version_reverse_compare-IsOrder : IsOrder version_reverse_compare
version_reverse_compare-IsOrder =
    IsOrder-sign version_reverse_compare-chunks (IsOrder-on chunks_all compare_chunks-IsOrder)

-- The special names in front of all others, by class; within one of the first three classes there
-- is one text only.
abbrev class_of : Bytes → ℕ
class_of a =
    if is_nil a
    then 0
    else if not (starts_dot a)
    then 4
    else if is_dot a
    then 1
    else if is_dotdot a
    then 2
    else 3

abbrev plain : Bytes → Bytes
plain a = if ltb (class_of a) 3 then [] else a

abbrev prefix : Bytes → Bytes
prefix a = take (version_file_prefix_len a) a

abbrev two_passes : Bytes → Bytes → ℤ
two_passes a b =
    or_else (version_reverse_compare (prefix a) (prefix b)) (version_reverse_compare a b)

take_all : (a : Bytes) → take (length a) a ≡ a
take_all [] = refl
take_all (x ∷ a) = ap (◌∷◌ x) (take_all a)

prefix_full : (a : Bytes) → version_file_prefix_len a ≡ length a → prefix a ≡ a
prefix_full a e = ap (λ n. take n a) e ∙ take_all a

version_passes-two : (a b : Bytes) → version_passes a b ≡ two_passes a b
unfolding version_passes
version_passes-two a b = ground (
  arith,
  prefix_full a,
  prefix_full b,
  λ (p : prefix a ≡ a) (q : prefix b ≡ b). ap₂ version_reverse_compare p q,
)

reverse_nil : version_reverse_compare [] [] ≡ pos 0
unfolding version_reverse_compare
reverse_nil = refl

prefix_nil : prefix [] ≡ []
unfolding version_file_prefix_len
prefix_nil = refl

two_passes_nil : two_passes [] [] ≡ pos 0
two_passes_nil = rw (prefix_nil, reverse_nil) refl

rank_version_compare-classes :
    (a b : Bytes)
    → rank_version_compare a b
      ≡ or_else (three_way (class_of a) (class_of b)) (two_passes (plain a) (plain b))
unfolding rank_version_compare
rank_version_compare-classes a b = ground (arith, version_passes-two a b, two_passes_nil)

-- `rank_version_compare` is a total preorder on all texts.
pub rank_version_compare-IsOrder : IsOrder rank_version_compare
rank_version_compare-IsOrder = IsOrder-eq rank_version_compare-classes (
    IsOrder-or_else (IsOrder-on class_of IsOrder-three_way) (
      IsOrder-on plain (
        IsOrder-or_else (IsOrder-on prefix version_reverse_compare-IsOrder)
          version_reverse_compare-IsOrder)))
