-- ===== src/Output.antt =====
-- src/output.c: the buffered writer and the vectors that the plain lines are written from. The kernel's
-- answers to `write` and `writev` are a list, which is used up call by call; `errno` is told by them.
pub mod Sent
pub mod Enough
pub mod Plain
pub mod Distinct
use Prim.Native.Nat.{ℕ, zero, suc, ◌+◌, ◌-◌}
use rank.Base.{
  Bool, true, false, List, [], ◌∷◌, ◌++◌, ltb, leb, ◌==◌, if◌then◌else◌, length, take, drop, Bytes,
}

-- What `write` and `writev` return: a number of bytes, or -1 with EINTR or with another error.
pub data Nwrite : Type 0 where
  wrote : ℕ → Nwrite
  interrupted : Nwrite
  broken : Nwrite

-- The bytes that the descriptor has taken, and the answers to come.
pub record Sink : Type 0 where
  pub sent : Bytes
  pub answers : List Nwrite

-- A return of `true`, a return of `false`, or a call that has no answer yet.
pub data Outcome {ℓ} (A : Type ℓ) : Type ℓ where
  returned : A → Outcome A
  failed : Outcome A
  waiting : Outcome A

-- `first(...) && next(...)`
abbrev pub and_then {ℓ κ} : {A : Type ℓ} {B : Type κ} → Outcome A → (A → Outcome B) → Outcome B
and_then (returned a) next = next a
and_then failed next = failed
and_then waiting next = waiting

-- The loop of `writer_write_fd` over what is left of `buf`. A call takes at most what it is given.
unfoldable pub write_loop : List Nwrite → Bytes → Bytes → Outcome Sink
write_loop answers [] sent = returned (record { sent = sent; answers = answers })
write_loop [] (byte ∷ buf) sent = waiting
write_loop (interrupted ∷ answers) (byte ∷ buf) sent = write_loop answers (byte ∷ buf) sent
write_loop (broken ∷ answers) (byte ∷ buf) sent = failed
write_loop (wrote zero ∷ answers) (byte ∷ buf) sent = failed
write_loop (wrote (suc n) ∷ answers) (byte ∷ buf) sent =
    write_loop answers (drop n buf) (sent ++ (byte ∷ take n buf))

unfoldable pub writer_write_fd : Sink → Bytes → Outcome Sink
unfolding write_loop
writer_write_fd sink buf = write_loop sink.answers buf sink.sent

-- `struct rank_writer`: `buf` holds its first `len` bytes.
pub record Writer : Type 0 where
  pub buf : Bytes
  pub cap : ℕ
  pub sink : Sink

unfoldable pub writer_flush : Writer → Outcome Writer
unfolding writer_write_fd
writer_flush writer =
    if length writer.buf == 0
    then returned writer
    else and_then (writer_write_fd writer.sink writer.buf)
        (λ sink. returned (record { buf = []; cap = writer.cap; sink = sink }))

abbrev pub append_buf : Bytes → Writer → Writer
append_buf text writer = record writer { buf = writer.buf ++ text }

unfoldable pub writer_write : Writer → Bytes → Outcome Writer
unfolding writer_flush writer_write_fd
writer_write writer text =
    if length text == 0
    then returned writer
    else if ltb writer.cap (length text)
    then and_then (writer_flush writer) (λ flushed.
      and_then (writer_write_fd flushed.sink text)
        (λ sink. returned (record flushed { sink = sink })))
    else if ltb (writer.cap - length writer.buf) (length text)
    then and_then (writer_flush writer) (λ flushed. returned (append_buf text flushed))
    else returned (append_buf text writer)

unfoldable pub writer_byte : Writer → ℕ → Outcome Writer
unfolding writer_flush
writer_byte writer byte =
    if length writer.buf == writer.cap
    then and_then (writer_flush writer) (λ flushed. returned (append_buf (byte ∷ []) flushed))
    else returned (append_buf (byte ∷ []) writer)

-- The two inner loops of `flush_iov`: what is left of the vector behind `nwrite` bytes.
unfoldable pub advance_iov : ℕ → List Bytes → List Bytes
advance_iov nwrite [] = []
advance_iov nwrite (part ∷ iov) =
    let rest = advance_iov (nwrite - length part) iov in
    if leb (length part) nwrite then rest else drop nwrite part ∷ iov

-- The bytes of a vector.
unfoldable pub gather : List Bytes → Bytes
gather [] = []
gather (part ∷ iov) = part ++ gather iov

unfoldable pub flush_iov : List Nwrite → List Bytes → Bytes → Outcome Sink
unfolding advance_iov gather
flush_iov answers [] sent = returned (record { sent = sent; answers = answers })
flush_iov [] (part ∷ iov) sent = waiting
flush_iov (interrupted ∷ answers) (part ∷ iov) sent = flush_iov answers (part ∷ iov) sent
flush_iov (broken ∷ answers) (part ∷ iov) sent = failed
flush_iov (wrote zero ∷ answers) (part ∷ iov) sent = failed
flush_iov (wrote (suc n) ∷ answers) (part ∷ iov) sent =
    flush_iov answers (advance_iov (suc n) (part ∷ iov))
      (sent ++ take (suc n) (gather (part ∷ iov)))
