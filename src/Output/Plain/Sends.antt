-- ===== src/Output/Plain/Sends.antt =====
-- If `write_plain_lines` of src/output.c returns true, it has sent the lines.
use Prim.Native.Nat.{ℕ, zero, suc, ◌-◌}
use mathlib.Core.Path.{subst}
use rank.Base.{
  ◌≡◌, refl, sym, ap, ap₂, ◌∙◌, Bool, true, false, inl, inr, Bool-cases, Option, none, some, List,
  [], ◌∷◌, ◌++◌, append_assoc, append-nil, leb, if◌then◌else◌, length, Bytes,
}
use rank.Output.{Sink, Outcome, returned, gather, flush_iov}
use rank.Output.Sent.{IfReturned, IfReturned-and_then}
use rank.Output.Enough.{flush_iov-sent}
use rank.Output.Plain.{
  Place, iov_max, append_plain_line_iov, append_contiguous_run_iov, make_room, plain_loop,
  write_plain_lines,
}
use rank.Output.Plain.Laws.{
  gather-append, gather-single, lines_out, Taken, append_contiguous_run_iov-Taken,
  append_plain_line_iov-line_out,
}

module _ (data_bytes : Bytes) (delim : ℕ) where
  pub Taken-if :
      (allow : Bool) (line : Place) (lines : List Place)
      → Taken data_bytes delim
          (line ∷ lines)
          (if allow then append_contiguous_run_iov data_bytes delim line lines else none)
  Taken-if true line lines = append_contiguous_run_iov-Taken data_bytes delim line lines
  Taken-if false line lines = tt

  make_room-sent :
      (sink : Sink) (iov : List Bytes)
      → IfReturned
          (λ (state : Sink × List Bytes). state.0.sent ++ gather state.1 ≡ sink.sent ++ gather iov)
          (make_room data_bytes delim sink iov)
  unfolding gather
  make_room-sent sink iov = elim (Bool-cases (leb (iov_max - 2) (length iov))) [
    | inl full ↦ rw full (
        IfReturned-and_then (λ (s : Sink). s.sent ≡ sink.sent ++ gather iov)
          (λ (state : Sink × List Bytes). state.0.sent ++ gather state.1 ≡ sink.sent ++ gather iov)
          (flush_iov sink.answers iov sink.sent) (λ flushed. returned (flushed, []))
          (flush_iov-sent sink.answers iov sink.sent) (λ s e. append-nil s.sent ∙ e))
    | inr room ↦ rw room refl
  ]

  -- More parts in a vector.
  pub sent_parts :
      (sent text : Bytes) (iov parts : List Bytes)
      → (sent ++ gather (iov ++ parts)) ++ text ≡ (sent ++ gather iov) ++ (gather parts ++ text)
  sent_parts sent text iov parts =
      append_assoc sent (gather (iov ++ parts)) text
      ∙ ap (λ t. sent ++ (t ++ text)) (gather-append iov parts)
      ∙ ap (λ t. sent ++ t) (append_assoc (gather iov) (gather parts) text)
      ∙ sym (append_assoc sent (gather iov) (gather parts ++ text))

  abbrev Sends : Bytes → Outcome Sink → Type 0
  Sends all = IfReturned (λ (sink : Sink). sink.sent ≡ all)

  plain_loop-Sends :
      (fuel : ℕ) (allow : Bool) (lines : List Place) (iov : List Bytes) (sink : Sink)
      → Sends
          ((sink.sent ++ gather iov) ++ lines_out data_bytes delim lines)
          (plain_loop data_bytes delim fuel allow lines iov sink)
  unfolding plain_loop
  plain_loop-Sends zero allow lines iov sink = tt
  plain_loop-Sends (suc fuel) allow [] iov sink =
      subst (λ all. Sends all (flush_iov sink.answers iov sink.sent))
        (sym (append-nil (sink.sent ++ gather iov))) (flush_iov-sent sink.answers iov sink.sent)
  plain_loop-Sends (suc fuel) allow (line ∷ lines) iov sink =
      IfReturned-and_then
        (λ (state : Sink × List Bytes). state.0.sent ++ gather state.1 ≡ sink.sent ++ gather iov)
        (λ (s : Sink).
          s.sent ≡ (sink.sent ++ gather iov) ++ lines_out data_bytes delim (line ∷ lines))
        (make_room data_bytes delim sink iov)
        (λ state.
          elim (if allow then append_contiguous_run_iov data_bytes delim line lines else none) [
            | some (part, rest) ↦
                plain_loop data_bytes delim fuel allow rest (state.1 ++ (part ∷ [])) state.0
            | none ↦
                plain_loop data_bytes delim fuel allow lines
                  (state.1 ++ append_plain_line_iov data_bytes delim line) state.0
          ])
        (make_room-sent sink iov)
        (λ state e.
          by_run state e
            (if allow then append_contiguous_run_iov data_bytes delim line lines else none)
            (Taken-if allow line lines)
            (λ lines' iov' sink'. plain_loop-Sends fuel allow lines' iov' sink'))
    where
      by_run :
          (state : Sink × List Bytes)
          → state.0.sent ++ gather state.1 ≡ sink.sent ++ gather iov
          → (run : Option (Bytes × List Place)) → Taken data_bytes delim (line ∷ lines) run
          → ((lines' : List Place) (iov' : List Bytes) (sink' : Sink)
              → Sends
                  ((sink'.sent ++ gather iov') ++ lines_out data_bytes delim lines')
                  (plain_loop data_bytes delim fuel allow lines' iov' sink'))
          → Sends
              ((sink.sent ++ gather iov) ++ lines_out data_bytes delim (line ∷ lines))
              (elim run as (λ _. Outcome Sink) [
                | some (part, rest) ↦
                    plain_loop data_bytes delim fuel allow rest (state.1 ++ (part ∷ [])) state.0
                | none ↦
                    plain_loop data_bytes delim fuel allow lines
                      (state.1 ++ append_plain_line_iov data_bytes delim line)
                      state.0
              ])
      by_run state e none t again =
          let parts = append_plain_line_iov data_bytes delim line in
          subst
            (λ all.
              Sends all (plain_loop data_bytes delim fuel allow lines (state.1 ++ parts) state.0))
            (sent_parts state.0.sent (lines_out data_bytes delim lines) state.1 parts
              ∙ ap₂ (λ s t. s ++ (t ++ lines_out data_bytes delim lines)) e
                  (append_plain_line_iov-line_out data_bytes delim line))
            (again lines (state.1 ++ parts) state.0)
      by_run state e (some (part, rest)) (t, le) again =
          subst
            (λ all.
              Sends all
                (plain_loop data_bytes delim fuel allow rest (state.1 ++ (part ∷ [])) state.0))
            (sent_parts state.0.sent (lines_out data_bytes delim rest) state.1 (part ∷ [])
              ∙ ap₂ (λ s u. s ++ (u ++ lines_out data_bytes delim rest)) e (gather-single part)
              ∙ ap (λ u. (sink.sent ++ gather iov) ++ u) t)
            (again rest (state.1 ++ (part ∷ [])) state.0)

  -- If `write_plain_lines` returns true, the descriptor has been given each line with a delimiter behind
  -- it, in output order, whether or not lines were taken from the input in runs.
  pub write_plain_lines-lines_out :
      (allow_contiguous : Bool) (lines : List Place) (sink : Sink)
      → IfReturned
          (λ (s : Sink). s.sent ≡ sink.sent ++ lines_out data_bytes delim lines)
          (write_plain_lines data_bytes delim allow_contiguous lines sink)
  unfolding write_plain_lines gather
  write_plain_lines-lines_out allow lines sink =
      subst
        (λ t.
          Sends (t ++ lines_out data_bytes delim lines)
            (plain_loop data_bytes delim (suc (length lines)) allow lines [] sink))
        (append-nil sink.sent) (plain_loop-Sends (suc (length lines)) allow lines [] sink)
