-- ===== src/Output/Plain.antt =====
-- `write_plain_lines` of src/output.c with `append_plain_line_iov` and `append_contiguous_run_iov`: lines
-- that stand one behind the other in the input go out as one part of a vector.
pub mod Laws
pub mod Sends
pub mod Returns
use Prim.Native.Nat.{ℕ, zero, suc, ◌+◌, ◌-◌}
use rank.Base.{
  Bool, true, false, not, ◌&&◌, ◌||◌, Option, none, some, List, [], ◌∷◌, ◌++◌, ltb, leb, ◌==◌,
  if◌then◌else◌, length, get_elem?, take, drop, Bytes,
}
use rank.Output.{Sink, Outcome, returned, failed, waiting, and_then, flush_iov}

-- `off` and `len` of a `struct rank_line`; `text` is `data + off`.
pub record Place : Type 0 where
  pub off : ℕ
  pub len : ℕ

-- `RANK_IOV_MAX`
abbrev pub iov_max : ℕ
iov_max = 1024

abbrev pub holds : ℕ → Option ℕ → Bool
holds delim none = false
holds delim (some byte) = byte == delim

module _ (data_bytes : Bytes) (delim : ℕ) where
  abbrev pub text_of : Place → Bytes
  text_of line = take line.len (drop line.off data_bytes)

  -- The test that the delimiter stands behind the line.
  abbrev pub followed : Place → Bool
  followed line =
      ltb line.off (length data_bytes)
      && ltb line.len (length data_bytes - line.off)
      && holds delim (get_elem? data_bytes (line.off + line.len))

  -- What `append_plain_line_iov` puts behind the vector.
  unfoldable pub append_plain_line_iov : Place → List Bytes
  append_plain_line_iov line =
      if followed line
      then take (suc line.len) (drop line.off data_bytes) ∷ []
      else if ltb 0 line.len
      then text_of line ∷ (delim ∷ []) ∷ []
      else (delim ∷ []) ∷ []

  -- The loop of `append_contiguous_run_iov`: the end of the run, and the lines behind it.
  unfoldable pub run_loop : ℕ → List Place → ℕ × List Place
  run_loop end [] = (end, [])
  run_loop end (next ∷ lines) =
      let rest = run_loop (next.off + next.len + 1) lines in
      if not (next.off == end) || not (followed next) then (end, next ∷ lines) else rest

  -- `none` is the return of `false`; else the part for the vector, and the lines behind the run.
  unfoldable pub append_contiguous_run_iov : Place → List Place → Option (Bytes × List Place)
  unfolding run_loop
  append_contiguous_run_iov line lines =
      let run = run_loop (line.off + line.len + 1) lines in
      if not (followed line) || length run.1 == length lines
      then none
      else some (take (run.0 - line.off) (drop line.off data_bytes), run.1)

  -- `if (count >= RANK_IOV_MAX - 2)`
  abbrev pub make_room : Sink → List Bytes → Outcome (Sink × List Bytes)
  make_room sink iov =
      if leb (iov_max - 2) (length iov)
      then and_then (flush_iov sink.answers iov sink.sent) (λ flushed. returned (flushed, []))
      else returned (sink, iov)

  -- The loop over the lines in output order; the fuel is above their number.
  unfoldable pub plain_loop : ℕ → Bool → List Place → List Bytes → Sink → Outcome Sink
  unfolding flush_iov append_contiguous_run_iov append_plain_line_iov
  plain_loop zero allow_contiguous lines iov sink = waiting
  plain_loop (suc fuel) allow_contiguous [] iov sink = flush_iov sink.answers iov sink.sent
  plain_loop (suc fuel) allow_contiguous (line ∷ lines) iov sink =
      and_then (make_room sink iov) (λ state.
        elim (if allow_contiguous then append_contiguous_run_iov line lines else none) [
          | some (part, rest) ↦
              plain_loop fuel allow_contiguous rest (state.1 ++ (part ∷ [])) state.0
          | none ↦
              plain_loop fuel allow_contiguous lines (state.1 ++ append_plain_line_iov line) state.0
        ])

  unfoldable pub write_plain_lines : Bool → List Place → Sink → Outcome Sink
  unfolding plain_loop
  write_plain_lines allow_contiguous lines sink =
      plain_loop (suc (length lines)) allow_contiguous lines [] sink
