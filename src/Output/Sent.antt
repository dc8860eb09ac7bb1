-- ===== src/Output/Sent.antt =====
-- What src/output.c hands to the descriptor, however the calls split it.
use Prim.Native.Nat.{ℕ, zero, suc, ◌+◌, ◌-◌, ◌≤◌}
use mathlib.Core.Path.{subst}
use rank.Base.{
  ◌≡◌, refl, sym, ap, ap₂, ◌∙◌, Bool, true, false, List, [], ◌∷◌, ◌++◌, append_assoc, append-nil,
  arith, ltb, ◌==◌, if◌then◌else◌, length, take, drop, take-append-drop, length-append, Bytes,
}
use rank.Output.{
  Nwrite, wrote, interrupted, broken, Sink, Outcome, returned, failed, waiting, and_then,
  write_loop, writer_write_fd, Writer, writer_flush, append_buf, writer_write, writer_byte,
}

-- What holds of the state that is returned, if one is.
abbrev pub IfReturned {ℓ} : {A : Type ℓ} → (A → Type 0) → Outcome A → Type 0
IfReturned P (returned a) = P a
IfReturned P failed = Unit
IfReturned P waiting = Unit

pub IfReturned-and_then {ℓ κ} :
    {A : Type ℓ} {B : Type κ} (P : A → Type 0) (Q : B → Type 0) (first : Outcome A)
    (next : A → Outcome B)
    → IfReturned P first
    → ((a : A) → P a → IfReturned Q (next a))
    → IfReturned Q (and_then first next)
IfReturned-and_then P Q (returned a) next h k = k a h
IfReturned-and_then P Q failed next h k = tt
IfReturned-and_then P Q waiting next h k = tt

write_loop-sent :
    (answers : List Nwrite) (buf sent : Bytes)
    → IfReturned (λ (sink : Sink). sink.sent ≡ sent ++ buf) (write_loop answers buf sent)
unfolding write_loop
write_loop-sent answers [] sent = sym (append-nil sent)
write_loop-sent [] (byte ∷ buf) sent = tt
write_loop-sent (interrupted ∷ answers) (byte ∷ buf) sent =
    write_loop-sent answers (byte ∷ buf) sent
write_loop-sent (broken ∷ answers) (byte ∷ buf) sent = tt
write_loop-sent (wrote zero ∷ answers) (byte ∷ buf) sent = tt
write_loop-sent (wrote (suc n) ∷ answers) (byte ∷ buf) sent =
    subst
      (λ all.
        IfReturned (λ (sink : Sink). sink.sent ≡ all)
          (write_loop answers (drop n buf) (sent ++ (byte ∷ take n buf))))
      (append_assoc sent (byte ∷ take n buf) (drop n buf)
        ∙ ap (λ t. sent ++ (byte ∷ t)) (take-append-drop n buf))
      (write_loop-sent answers (drop n buf) (sent ++ (byte ∷ take n buf)))

pub IfReturned-if {ℓ} :
    {A : Type ℓ} (P : A → Type 0) (test : Bool) (x y : Outcome A)
    → (test ≡ true → IfReturned P x)
    → (test ≡ false → IfReturned P y)
    → IfReturned P (if test then x else y)
IfReturned-if P true x y h k = h refl
IfReturned-if P false x y h k = k refl

length-nil : (buf : Bytes) → (length buf == 0) ≡ true → buf ≡ []
length-nil [] e = refl
length-nil (x ∷ buf) e = absurd (ground arith)

-- What has been given to the writer: sent already or still in its buffer.
abbrev pub given : Writer → Bytes
given writer = writer.sink.sent ++ writer.buf

-- The buffer holds no more than its size.
abbrev pub Fits : Writer → Type 0
Fits writer = length writer.buf ≤ writer.cap

abbrev pub Flushed : Writer → Writer → Type 0
Flushed writer w = (w.buf ≡ []) × (w.sink.sent ≡ given writer) × (w.cap ≡ writer.cap)

pub writer_flush-Flushed : (writer : Writer) → IfReturned (Flushed writer) (writer_flush writer)
unfolding writer_flush writer_write_fd
writer_flush-Flushed writer =
    IfReturned-if (Flushed writer) (length writer.buf == 0) (returned writer)
      (and_then (writer_write_fd writer.sink writer.buf)
        (λ sink. returned (record { buf = []; cap = writer.cap; sink = sink })))
      (λ none_left.
        let empty = length-nil writer.buf none_left in
        (empty, sym (ap (λ b. writer.sink.sent ++ b) empty ∙ append-nil writer.sink.sent), refl))
      (λ some_left.
        IfReturned-and_then (λ (sink : Sink). sink.sent ≡ given writer) (Flushed writer)
          (writer_write_fd writer.sink writer.buf)
          (λ sink. returned (record { buf = []; cap = writer.cap; sink = sink }))
          (write_loop-sent writer.sink.answers writer.buf writer.sink.sent)
          (λ sink e. (refl, e, refl)))

-- What a write of `text` leaves.
abbrev pub Added : Writer → Bytes → Writer → Type 0
Added writer text w = (given w ≡ given writer ++ text) × (w.cap ≡ writer.cap) × Fits w

-- A buffer just flushed takes a text that is no longer than its size.
Added-Flushed :
    (writer w : Writer) (text : Bytes)
    → Flushed writer w
    → length text ≤ writer.cap
    → Added writer text (append_buf text w)
Added-Flushed writer w text (empty, sent, cap) h = (
  ap₂ (λ s b. s ++ (b ++ text)) sent empty,
  cap,
  subst (λ b. length (b ++ text) ≤ w.cap) (sym empty) (omega (arith, cap)),
)

Added-append :
    (writer : Writer) (text : Bytes)
    → length writer.buf + length text ≤ writer.cap
    → Added writer text (append_buf text writer)
Added-append writer text h = (
  sym (append_assoc writer.sink.sent writer.buf text),
  refl,
  omega (arith, length-append writer.buf text),
)

-- Where the buffer holds no more than its size and `writer_write` returns true, the bytes sent and those in the buffer are in all what they were and
-- then the text, however the calls to `write` split them, and the buffer is not overrun.
pub writer_write-Added :
    (writer : Writer) (text : Bytes)
    → Fits writer
    → IfReturned (Added writer text) (writer_write writer text)
unfolding writer_write writer_write_fd
writer_write-Added writer text fits =
    let direct = λ (flushed : Writer).
      and_then (writer_write_fd flushed.sink text)
        (λ sink. returned (record flushed { sink = sink })) in
    let buffered = λ (flushed : Writer). returned (append_buf text flushed) in
    IfReturned-if (Added writer text) (length text == 0) (returned writer)
      (if ltb writer.cap (length text)
        then and_then (writer_flush writer) direct
        else if ltb (writer.cap - length writer.buf) (length text)
        then and_then (writer_flush writer) buffered
        else returned (append_buf text writer))
      (λ none_given.
        let empty = length-nil text none_given in
        (sym (ap (λ t. given writer ++ t) empty ∙ append-nil (given writer)), refl, fits))
      (λ some_given.
        IfReturned-if (Added writer text) (ltb writer.cap (length text))
          (and_then (writer_flush writer) direct)
          (if ltb (writer.cap - length writer.buf) (length text)
            then and_then (writer_flush writer) buffered
            else returned (append_buf text writer))
          (λ long.
            IfReturned-and_then (Flushed writer) (Added writer text) (writer_flush writer) direct
              (writer_flush-Flushed writer)
              (λ w (empty, sent, cap).
                IfReturned-and_then (λ (sink : Sink). sink.sent ≡ w.sink.sent ++ text)
                  (Added writer text) (writer_write_fd w.sink text)
                  (λ sink. returned (record w { sink = sink }))
                  (write_loop-sent w.sink.answers text w.sink.sent)
                  (λ sink e. (
                    ap₂ ◌++◌ e empty ∙ append-nil (w.sink.sent ++ text) ∙ ap (λ s. s ++ text) sent,
                    cap,
                    subst (λ b. length b ≤ w.cap) (sym empty) (omega arith),
                  ))))
          (λ short.
            IfReturned-if (Added writer text) (ltb (writer.cap - length writer.buf) (length text))
              (and_then (writer_flush writer) buffered) (returned (append_buf text writer))
              (λ full.
                IfReturned-and_then (Flushed writer) (Added writer text) (writer_flush writer)
                  buffered (writer_flush-Flushed writer)
                  (λ w flushed. Added-Flushed writer w text flushed (ground arith)))
              (λ room. Added-append writer text (ground arith))))

-- The same of `writer_byte` and its byte, where the buffer has a size.
pub writer_byte-Added :
    (writer : Writer) (byte : ℕ)
    → 1 ≤ writer.cap
    → Fits writer
    → IfReturned (Added writer (byte ∷ [])) (writer_byte writer byte)
unfolding writer_byte
writer_byte-Added writer byte h fits =
    IfReturned-if (Added writer (byte ∷ [])) (length writer.buf == writer.cap)
      (and_then (writer_flush writer) (λ flushed. returned (append_buf (byte ∷ []) flushed)))
      (returned (append_buf (byte ∷ []) writer))
      (λ full.
        IfReturned-and_then (Flushed writer) (Added writer (byte ∷ [])) (writer_flush writer)
          (λ flushed. returned (append_buf (byte ∷ []) flushed)) (writer_flush-Flushed writer)
          (λ w flushed. Added-Flushed writer w (byte ∷ []) flushed h))
      (λ room. Added-append writer (byte ∷ []) (ground arith))
