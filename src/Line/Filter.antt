-- ===== src/Line/Filter.antt =====
-- The filtered copies of src/line.c: the fast path for `-f` alone copies the same bytes as the loop.
use rank.Base.{◌≡◌, refl, ap, Bool, true, false, [], ◌∷◌, Bytes}
use rank.Line.{filtered_fold, rank_fold_upper, filter_loop, append_filtered_span}

fold_upper-loop : (text : Bytes) → rank_fold_upper text ≡ filter_loop true false false text
unfolding rank_fold_upper filter_loop
fold_upper-loop [] = refl
fold_upper-loop (c ∷ text) = ap (λ r. filtered_fold true c ∷ r) (fold_upper-loop text)

-- The fold alone and the loop append the same bytes.
pub append_filtered_span-loop :
    (text : Bytes) (f d i : Bool) → append_filtered_span text f d i ≡ filter_loop f d i text
unfolding append_filtered_span
append_filtered_span-loop text true false false = fold_upper-loop text
append_filtered_span-loop text true false true = refl
append_filtered_span-loop text true true i = refl
append_filtered_span-loop text false d i = refl

-- Without modifiers the copy is the text.
pub filter_loop_off : (text : Bytes) → filter_loop false false false text ≡ text
unfolding filter_loop
filter_loop_off [] = refl
filter_loop_off (c ∷ text) = ap (◌∷◌ c) (filter_loop_off text)
