-- ===== src/Output/Enough.antt =====
-- With enough answers the loops of src/output.c that write return, and the descriptor has all the bytes.
use Prim.Native.Nat.{ℕ, zero, suc, ◌+◌, ◌-◌, ◌≤◌, ◌<◌}
use mathlib.Core.Path.{subst}
use rank.Base.{
  ◌≡◌, refl, sym, ap, ◌∙◌, inl, inr, Bool-cases, List, [], ◌∷◌, ◌++◌, append_assoc, append-nil,
  arith, leb, length, take, drop, take-append-drop, length-append, length-drop, All, Bytes,
}
use rank.Output.{
  Nwrite, wrote, interrupted, broken, Sink, Outcome, returned, write_loop, advance_iov, gather,
  flush_iov,
}
use rank.Output.Sent.{IfReturned}

-- An answer that is no error and, where bytes are wanted, not 0.
abbrev pub Goes : Nwrite → Type 0
Goes (wrote zero) = ⊥
Goes (wrote (suc n)) = Unit
Goes interrupted = Unit
Goes broken = ⊥

-- How many answers take bytes.
abbrev pub takes : List Nwrite → ℕ
takes [] = 0
takes (wrote n ∷ answers) = suc (takes answers)
takes (interrupted ∷ answers) = takes answers
takes (broken ∷ answers) = takes answers

-- The answers go on, and `n` at least take bytes.
abbrev pub Enough : ℕ → List Nwrite → Type 0
Enough n answers = All Goes answers × (n ≤ takes answers)

-- The return of a call that has sent `all` and leaves answers for `n` bytes.
abbrev pub Returns : ℕ → Bytes → Outcome Sink → Type 0
Returns n all outcome =
    (sink : Sink) × (outcome ≡ returned sink) × (sink.sent ≡ all) × Enough n sink.answers

pub write_loop-Returns :
    (n : ℕ) (answers : List Nwrite) (buf sent : Bytes)
    → Enough (n + length buf) answers
    → Returns n (sent ++ buf) (write_loop answers buf sent)
unfolding write_loop
write_loop-Returns n answers [] sent (goes, h) =
    (record { sent = sent; answers = answers }, refl, sym (append-nil sent), (goes, omega arith))
write_loop-Returns n [] (byte ∷ buf) sent (goes, h) = absurd (omega arith)
write_loop-Returns n (interrupted ∷ answers) (byte ∷ buf) sent ((g, goes), h) =
    write_loop-Returns n answers (byte ∷ buf) sent (goes, h)
write_loop-Returns n (broken ∷ answers) (byte ∷ buf) sent ((g, goes), h) = absurd g
write_loop-Returns n (wrote zero ∷ answers) (byte ∷ buf) sent ((g, goes), h) = absurd g
write_loop-Returns n (wrote (suc k) ∷ answers) (byte ∷ buf) sent ((g, goes), h) =
    subst (λ all. Returns n all (write_loop answers (drop k buf) (sent ++ (byte ∷ take k buf))))
      (append_assoc sent (byte ∷ take k buf) (drop k buf)
        ∙ ap (λ t. sent ++ (byte ∷ t)) (take-append-drop k buf))
      (write_loop-Returns n answers (drop k buf) (sent ++ (byte ∷ take k buf))
        (goes, omega (arith, length-drop k buf)))

drop-append : (n : ℕ) (a b : Bytes) → length a ≤ n → drop n (a ++ b) ≡ drop (n - length a) b
drop-append n [] b h = ap (λ k. drop k b) (omega arith)
drop-append zero (x ∷ a) b h = absurd (omega arith)
drop-append (suc n) (x ∷ a) b h = drop-append n a b (omega arith) ∙ ap (λ k. drop k b) (omega arith)

drop-append_short : (n : ℕ) (a b : Bytes) → n < length a → drop n (a ++ b) ≡ drop n a ++ b
drop-append_short n [] b h = absurd (omega arith)
drop-append_short zero (x ∷ a) b h = refl
drop-append_short (suc n) (x ∷ a) b h = drop-append_short n a b (omega arith)

-- Behind `nwrite` bytes the vector holds the bytes behind them.
pub gather-advance_iov :
    (nwrite : ℕ) (iov : List Bytes) → gather (advance_iov nwrite iov) ≡ drop nwrite (gather iov)
unfolding gather advance_iov
gather-advance_iov zero [] = refl
gather-advance_iov (suc n) [] = refl
gather-advance_iov nwrite (part ∷ iov) = elim (Bool-cases (leb (length part) nwrite)) [
  | inl whole ↦ rw whole (
      gather-advance_iov (nwrite - length part) iov
      ∙ sym (drop-append nwrite part (gather iov) (ground arith)))
  | inr cut ↦ rw cut (sym (drop-append_short nwrite part (gather iov) (ground arith)))
]

abbrev pub Some : Bytes → Type 0
Some part = 1 ≤ length part

All-advance_iov : (nwrite : ℕ) (iov : List Bytes) → All Some iov → All Some (advance_iov nwrite iov)
unfolding advance_iov
All-advance_iov nwrite [] h = tt
All-advance_iov nwrite (part ∷ iov) (p, h) = elim (Bool-cases (leb (length part) nwrite)) [
  | inl whole ↦ rw whole (All-advance_iov (nwrite - length part) iov h)
  | inr cut ↦ rw cut (ground (arith, length-drop nwrite part), h)
]

sent_gather :
    (n : ℕ) (iov : List Bytes) (sent : Bytes)
    → (sent ++ take n (gather iov)) ++ gather (advance_iov n iov) ≡ sent ++ gather iov
sent_gather n iov sent =
    append_assoc sent (take n (gather iov)) (gather (advance_iov n iov))
    ∙ ap (λ t. sent ++ (take n (gather iov) ++ t)) (gather-advance_iov n iov)
    ∙ ap (λ t. sent ++ t) (take-append-drop n (gather iov))

-- If `flush_iov` returns true, the bytes of the vector have been sent in order, wherever the calls to
-- `writev` stop within it.
pub flush_iov-sent :
    (answers : List Nwrite) (iov : List Bytes) (sent : Bytes)
    → IfReturned (λ (sink : Sink). sink.sent ≡ sent ++ gather iov) (flush_iov answers iov sent)
unfolding flush_iov gather
flush_iov-sent answers [] sent = sym (append-nil sent)
flush_iov-sent [] (part ∷ iov) sent = tt
flush_iov-sent (interrupted ∷ answers) (part ∷ iov) sent = flush_iov-sent answers (part ∷ iov) sent
flush_iov-sent (broken ∷ answers) (part ∷ iov) sent = tt
flush_iov-sent (wrote zero ∷ answers) (part ∷ iov) sent = tt
flush_iov-sent (wrote (suc n) ∷ answers) (part ∷ iov) sent =
    subst
      (λ all.
        IfReturned (λ (sink : Sink). sink.sent ≡ all)
          (flush_iov answers (advance_iov (suc n) (part ∷ iov))
            (sent ++ take (suc n) (gather (part ∷ iov)))))
      (sent_gather (suc n) (part ∷ iov) sent)
      (flush_iov-sent answers (advance_iov (suc n) (part ∷ iov))
        (sent ++ take (suc n) (gather (part ∷ iov))))

-- With enough answers `flush_iov` returns true, has sent all the bytes of a vector without empty parts
-- and used no more answers than bytes.
pub flush_iov-Returns :
    (n : ℕ) (answers : List Nwrite) (iov : List Bytes) (sent : Bytes)
    → All Some iov
    → Enough (n + length (gather iov)) answers
    → Returns n (sent ++ gather iov) (flush_iov answers iov sent)
unfolding flush_iov gather
flush_iov-Returns n answers [] sent some (goes, h) =
    (record { sent = sent; answers = answers }, refl, sym (append-nil sent), (goes, omega arith))
flush_iov-Returns n [] (part ∷ iov) sent (p, some) (goes, h) =
    absurd (omega (arith, length-append part (gather iov)))
flush_iov-Returns n (interrupted ∷ answers) (part ∷ iov) sent some ((g, goes), h) =
    flush_iov-Returns n answers (part ∷ iov) sent some (goes, h)
flush_iov-Returns n (broken ∷ answers) (part ∷ iov) sent some ((g, goes), h) = absurd g
flush_iov-Returns n (wrote zero ∷ answers) (part ∷ iov) sent some ((g, goes), h) = absurd g
flush_iov-Returns n (wrote (suc k) ∷ answers) (part ∷ iov) sent (p, some) ((g, goes), h) =
    let left = advance_iov (suc k) (part ∷ iov) in
    let fewer : length (gather left) ≡ length (gather (part ∷ iov)) - suc k =
      ap length (gather-advance_iov (suc k) (part ∷ iov))
      ∙ length-drop (suc k) (gather (part ∷ iov)) in
    subst
      (λ all. Returns n all (flush_iov answers left (sent ++ take (suc k) (gather (part ∷ iov)))))
      (sent_gather (suc k) (part ∷ iov) sent)
      (flush_iov-Returns n answers left (sent ++ take (suc k) (gather (part ∷ iov)))
        (All-advance_iov (suc k) (part ∷ iov) (p, some))
        (goes, omega (arith, fewer, length-append part (gather iov))))
