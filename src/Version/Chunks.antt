-- ===== src/Version/Chunks.antt =====
-- A text as the `-V` order reads it: chunks of ranked bytes with a number behind each, and an order of
-- such lists. A list that has ended goes on with empty chunks.
use Prim.Native.Nat.{ℕ, zero, suc, ◌≤◌, ◌<◌}
use rank.Base.{
  ◌≡◌, refl, true, false, List, [], ◌∷◌, arith, ℤ, pos, is_pos, is_neg, is_zero, three_way, or_else,
  IsOrder, IsOrder-on, IsOrder-or_else, IsOrder-three_way, length, Bytes,
}
use rank.Numeric.{drop_digits}
use rank.Version.Skip.{text_of, after_text, compare_text, compare_text-IsOrder}
use rank.Version.Number.{number_of}

pub record Chunk : Type 0 where
  pub text : List ℕ
  pub number : ℕ

unfoldable pub compare_chunk : Chunk → Chunk → ℤ
compare_chunk c d = or_else (compare_text c.text d.text) (three_way c.number d.number)

pub compare_chunk-IsOrder : IsOrder compare_chunk
unfolding compare_chunk
compare_chunk-IsOrder =
    IsOrder-or_else (IsOrder-on (λ (c : Chunk). c.text) compare_text-IsOrder)
      (IsOrder-on (λ (c : Chunk). c.number) IsOrder-three_way)

abbrev pub empty_chunk : Chunk
empty_chunk = record { text = []; number = 0 }

unfoldable pub compare_chunks : List Chunk → List Chunk → ℤ
compare_chunks [] [] = pos 0
compare_chunks [] (d ∷ ds) = or_else (compare_chunk empty_chunk d) (compare_chunks [] ds)
compare_chunks (c ∷ cs) [] = or_else (compare_chunk c empty_chunk) (compare_chunks cs [])
compare_chunks (c ∷ cs) (d ∷ ds) = or_else (compare_chunk c d) (compare_chunks cs ds)

or_else-flip :
    (r s r' s' : ℤ)
    → is_pos r ≡ is_neg r'
    → is_pos r' ≡ is_neg r
    → is_pos s ≡ is_neg s'
    → is_pos (or_else r s) ≡ is_neg (or_else r' s')
or_else-flip r s r' s' p q h = ground arith

chunks-flip : (cs ds : List Chunk) → is_pos (compare_chunks cs ds) ≡ is_neg (compare_chunks ds cs)
unfolding compare_chunks
chunks-flip [] [] = refl
chunks-flip [] (d ∷ ds) =
    or_else-flip _ _ _ _ (compare_chunk-IsOrder.flip _ _) (compare_chunk-IsOrder.flip _ _)
      (chunks-flip [] ds)
chunks-flip (c ∷ cs) [] =
    or_else-flip _ _ _ _ (compare_chunk-IsOrder.flip _ _) (compare_chunk-IsOrder.flip _ _)
      (chunks-flip cs [])
chunks-flip (c ∷ cs) (d ∷ ds) =
    or_else-flip _ _ _ _ (compare_chunk-IsOrder.flip _ _) (compare_chunk-IsOrder.flip _ _)
      (chunks-flip cs ds)

-- The lexicographic step, of any three chunks and what the tails give.
step_trans :
    (x y z : Chunk) (r s t : ℤ)
    → (is_pos r ≡ false → is_pos s ≡ false → is_pos t ≡ false)
    → is_pos (or_else (compare_chunk x y) r) ≡ false
    → is_pos (or_else (compare_chunk y z) s) ≡ false
    → is_pos (or_else (compare_chunk x z) t) ≡ false
step_trans x y z r s t ih h k =
    let o = compare_chunk-IsOrder in
    ground (
      arith,
      ih,
      o.flip x y,
      o.flip y x,
      o.flip y z,
      o.flip z y,
      o.flip x z,
      o.flip z x,
      o.trans x y z,
      o.trans z x y,
      o.trans y z x,
    )

self_zero : is_zero (compare_chunk empty_chunk empty_chunk) ≡ true
unfolding compare_chunk compare_text
self_zero = refl

chunks_trans :
    (cs ds es : List Chunk)
    → is_pos (compare_chunks cs ds) ≡ false
    → is_pos (compare_chunks ds es) ≡ false
    → is_pos (compare_chunks cs es) ≡ false
unfolding compare_chunks
chunks_trans [] [] [] h k = refl
chunks_trans [] [] (e ∷ es) h k = k
chunks_trans (c ∷ cs) [] [] h k = h
chunks_trans [] (d ∷ ds) [] h k = refl
chunks_trans [] (d ∷ ds) (e ∷ es) h k = step_trans empty_chunk d e _ _ _ (chunks_trans [] ds es) h k
chunks_trans (c ∷ cs) [] (e ∷ es) h k = step_trans c empty_chunk e _ _ _ (chunks_trans cs [] es) h k
chunks_trans (c ∷ cs) (d ∷ ds) [] h k = step_trans c d empty_chunk _ _ _ (chunks_trans cs ds []) h k
chunks_trans (c ∷ cs) (d ∷ ds) (e ∷ es) h k = step_trans c d e _ _ _ (chunks_trans cs ds es) h k

pub compare_chunks-IsOrder : IsOrder compare_chunks
compare_chunks-IsOrder = record { flip = chunks-flip; trans = chunks_trans }

abbrev pub chunk_of : Bytes → Chunk
chunk_of s = record { text = text_of s; number = number_of (after_text s) }

abbrev pub rest_of : Bytes → Bytes
rest_of s = drop_digits (after_text s)

unfoldable pub chunks : ℕ → Bytes → List Chunk
chunks zero s = []
chunks (suc fuel) [] = []
chunks (suc fuel) (c ∷ s) = chunk_of (c ∷ s) ∷ chunks fuel (rest_of (c ∷ s))

drop_digits-le : (s : Bytes) → length (drop_digits s) ≤ length s
unfolding drop_digits
drop_digits-le [] = omega arith
drop_digits-le (c ∷ s) = ground (arith, drop_digits-le s)

after_text-le : (s : Bytes) → length (after_text s) ≤ length s
unfolding after_text
after_text-le [] = omega arith
after_text-le (c ∷ s) = ground (arith, after_text-le s)

-- A chunk takes a byte at least.
pub rest_of-lt : (c : ℕ) (s : Bytes) → length (rest_of (c ∷ s)) < length (c ∷ s)
unfolding drop_digits after_text
rest_of-lt c s = ground (arith, drop_digits-le s, drop_digits-le (after_text s), after_text-le s)
