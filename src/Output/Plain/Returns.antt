-- ===== src/Output/Plain/Returns.antt =====
-- With enough answers `write_plain_lines` of src/output.c returns true.
use Prim.Native.Nat.{ℕ, zero, suc, ◌+◌, ◌-◌, ◌≤◌, ◌<◌}
use mathlib.Core.Path.{subst}
use rank.Base.{
  ◌≡◌, refl, sym, ap, ap₂, ◌∙◌, Bool, true, false, not, ◌||◌, ◌==◌, inl, inr, Bool-cases, Option,
  none, some, List, [], ◌∷◌, ◌++◌, append-nil, arith, ltb, leb, if◌then◌else◌, length, drop,
  length-append, length-take, length-drop, All, All-append, Bytes,
}
use rank.Output.{Sink, Outcome, returned, and_then, gather, flush_iov}
use rank.Output.Enough.{Goes, takes, Enough, Returns, Some, flush_iov-Returns}
use rank.Output.Plain.{
  Place, iov_max, text_of, followed, append_plain_line_iov, append_contiguous_run_iov, run_loop,
  make_room, plain_loop, write_plain_lines,
}
use rank.Output.Plain.Sends.{Taken-if, sent_parts}
use rank.Output.Plain.Laws.{
  lines_out, Taken, append_plain_line_iov-line_out, gather-single, followed_text, run_loop-RunOf,
}

module _ (data_bytes : Bytes) (delim : ℕ) where
  -- The vector has room again, and the answers are as many as the bytes still to be sent.
  abbrev Room : ℕ → Bytes → Outcome (Sink × List Bytes) → Type 0
  Room n all outcome =
      (state : Sink × List Bytes) × (outcome ≡ returned state)
      × (state.0.sent ++ gather state.1 ≡ all)
      × Enough (n + length (gather state.1)) state.0.answers
      × All Some state.1

  make_room-Room :
      (n : ℕ) (sink : Sink) (iov : List Bytes)
      → All Some iov
      → Enough (n + length (gather iov)) sink.answers
      → Room n (sink.sent ++ gather iov) (make_room data_bytes delim sink iov)
  unfolding gather
  make_room-Room n sink iov filled enough = elim (Bool-cases (leb (iov_max - 2) (length iov))) [
    | inl full ↦
        let (s, e, sent, (goes, h)) =
          flush_iov-Returns n sink.answers iov sink.sent filled enough in
        rw full (
          (s, []),
          ap (λ o. and_then o (λ flushed. returned (flushed, []))) e,
          append-nil s.sent ∙ sent,
          (goes, omega arith),
          tt,
        )
    | inr room ↦ rw room ((sink, iov), refl, refl, enough, filled)
  ]

  -- The line lies within the data.
  abbrev pub InData : Place → Type 0
  InData line = line.off + line.len ≤ length data_bytes

  append_plain_line_iov-Some :
      (line : Place) → InData line → All Some (append_plain_line_iov data_bytes delim line)
  unfolding append_plain_line_iov
  append_plain_line_iov-Some line inside = elim (Bool-cases (followed data_bytes delim line)) [
    | inl h ↦
        let size = ap length (followed_text data_bytes delim line h) in
        rw (h, append_plain_line_iov)
          (omega (arith, size, length-append (text_of data_bytes delim line) (delim ∷ [])), tt)
    | inr n ↦ elim (Bool-cases (ltb 0 line.len)) [
      | inl some_text ↦
          rw (n, some_text, append_plain_line_iov)
            (
              ground (
                arith,
                length-take line.len (drop line.off data_bytes),
                length-drop line.off data_bytes,
              ),
              (omega arith, tt),
            )
      | inr empty ↦ rw (n, empty, append_plain_line_iov) (omega arith, tt)
    ]
  ]

  run_loop-InData :
      (end : ℕ) (lines : List Place)
      → All InData lines
      → All InData (run_loop data_bytes delim end lines).1
  unfolding run_loop
  run_loop-InData end [] h = tt
  run_loop-InData end (next ∷ lines) (p, h) =
      elim (Bool-cases (not (next.off == end) || not (followed data_bytes delim next))) [
        | inl stops ↦ rw (stops, run_loop) (p, h)
        | inr goes ↦ rw (goes, run_loop) (run_loop-InData (next.off + next.len + 1) lines h)
      ]

  -- A part for a run is not empty, and the lines behind it lie within the data.
  abbrev Filled : Option (Bytes × List Place) → Type 0
  Filled none = Unit
  Filled (some (part, rest)) = Some part × All InData rest

  append_contiguous_run_iov-Filled :
      (line : Place) (lines : List Place)
      → All InData lines
      → Filled (append_contiguous_run_iov data_bytes delim line lines)
  unfolding append_contiguous_run_iov
  append_contiguous_run_iov-Filled line lines h =
      let run = run_loop data_bytes delim (line.off + line.len + 1) lines in
      let (le, e) = run_loop-RunOf data_bytes delim (line.off + line.len + 1) lines in
      elim (Bool-cases (not (followed data_bytes delim line) || length run.1 == length lines)) [
        | inl refused ↦ rw (refused, append_contiguous_run_iov) tt
        | inr accepted ↦
            let inside : ltb line.off (length data_bytes) ≡ true = ground arith in
            rw (accepted, append_contiguous_run_iov)
              (
                ground (
                  arith,
                  length-take (run.0 - line.off) (drop line.off data_bytes),
                  length-drop line.off data_bytes,
                ),
                run_loop-InData (line.off + line.len + 1) lines h,
              )
      ]

  Filled-if :
      (allow : Bool) (line : Place) (lines : List Place)
      → All InData lines
      → Filled (if allow then append_contiguous_run_iov data_bytes delim line lines else none)
  Filled-if true line lines h = append_contiguous_run_iov-Filled line lines h
  Filled-if false line lines h = tt

  plain_loop-Returns :
      (n fuel : ℕ) (allow : Bool) (lines : List Place) (iov : List Bytes) (sink : Sink)
      → length lines < fuel
      → All InData lines
      → All Some iov
      → Enough (n + length (gather iov ++ lines_out data_bytes delim lines)) sink.answers
      → Returns n
          ((sink.sent ++ gather iov) ++ lines_out data_bytes delim lines)
          (plain_loop data_bytes delim fuel allow lines iov sink)
  unfolding plain_loop
  plain_loop-Returns n zero allow lines iov sink less h filled enough = absurd (omega arith)
  plain_loop-Returns n (suc fuel) allow [] iov sink less h filled enough =
      subst (λ all. Returns n all (flush_iov sink.answers iov sink.sent))
        (sym (append-nil (sink.sent ++ gather iov)))
        (flush_iov-Returns n sink.answers iov sink.sent filled
          (subst (λ b. Enough (n + length b) sink.answers) (append-nil (gather iov)) enough))
  plain_loop-Returns n (suc fuel) allow (line ∷ lines) iov sink less (inside, h) filled
        (goes, many) =
      let out = lines_out data_bytes delim in
      let size = length-append (gather iov) (out (line ∷ lines)) in
      let (state, done, sent, (goes', many'), filled') =
        make_room-Room (n + length (out (line ∷ lines))) sink iov filled (goes, omega arith) in
      subst
        (λ o. Returns n ((sink.sent ++ gather iov) ++ out (line ∷ lines)) (
          and_then o (λ state'.
            elim (if allow then append_contiguous_run_iov data_bytes delim line lines else none)
              as (λ _. Outcome Sink) [
                | some (part, rest) ↦
                    plain_loop data_bytes delim fuel allow rest (state'.1 ++ (part ∷ [])) state'.0
                | none ↦
                    plain_loop data_bytes delim fuel allow lines
                      (state'.1 ++ append_plain_line_iov data_bytes delim line) state'.0
              ])))
        (sym done)
        (by_run state sent goes' many' filled'
          (if allow then append_contiguous_run_iov data_bytes delim line lines else none)
          (Taken-if data_bytes delim allow line lines) (Filled-if allow line lines h)
          (λ lines' iov' sink'. plain_loop-Returns n fuel allow lines' iov' sink'))
    where
      by_run :
          (state : Sink × List Bytes)
          → state.0.sent ++ gather state.1 ≡ sink.sent ++ gather iov
          → All Goes state.0.answers
          → n + length (lines_out data_bytes delim (line ∷ lines)) + length (gather state.1)
            ≤ takes state.0.answers
          → All Some state.1
          → (run : Option (Bytes × List Place)) → Taken data_bytes delim (line ∷ lines) run
          → Filled run
          → ((lines' : List Place) (iov' : List Bytes) (sink' : Sink)
              → length lines' < fuel
              → All InData lines'
              → All Some iov'
              → Enough (n + length (gather iov' ++ lines_out data_bytes delim lines')) sink'.answers
              → Returns n
                  ((sink'.sent ++ gather iov') ++ lines_out data_bytes delim lines')
                  (plain_loop data_bytes delim fuel allow lines' iov' sink'))
          → Returns n
              ((sink.sent ++ gather iov) ++ lines_out data_bytes delim (line ∷ lines))
              (elim run as (λ _. Outcome Sink) [
                | some (part, rest) ↦
                    plain_loop data_bytes delim fuel allow rest (state.1 ++ (part ∷ [])) state.0
                | none ↦
                    plain_loop data_bytes delim fuel allow lines
                      (state.1 ++ append_plain_line_iov data_bytes delim line)
                      state.0
              ])
      by_run state e g m f none t q again =
          let parts = append_plain_line_iov data_bytes delim line in
          let out = lines_out data_bytes delim lines in
          let path =
            sent_parts data_bytes delim state.0.sent out state.1 parts
            ∙ ap₂ (λ s t. s ++ (t ++ out)) e
                (append_plain_line_iov-line_out data_bytes delim line) in
          let size = ap length (sent_parts data_bytes delim [] out state.1 parts) in
          let texts =
            ap (λ t. length (t ++ out)) (append_plain_line_iov-line_out data_bytes delim line) in
          subst
            (λ all.
              Returns n all
                (plain_loop data_bytes delim fuel allow lines (state.1 ++ parts) state.0))
            path
            (again lines (state.1 ++ parts) state.0 (omega arith) h
              (All-append Some state.1 parts f (append_plain_line_iov-Some line inside))
              (g, omega (arith, size, texts, length-append (gather state.1) (gather parts ++ out))))
      by_run state e g m f (some (part, rest)) (t, le) (p, q) again =
          let out = lines_out data_bytes delim rest in
          let path =
            sent_parts data_bytes delim state.0.sent out state.1 (part ∷ [])
            ∙ ap₂ (λ s u. s ++ (u ++ out)) e (gather-single part)
            ∙ ap (λ u. (sink.sent ++ gather iov) ++ u) t in
          let size = ap length (sent_parts data_bytes delim [] out state.1 (part ∷ [])) in
          let texts = ap (λ u. length (u ++ out)) (gather-single part) ∙ ap length t in
          subst
            (λ all.
              Returns n all
                (plain_loop data_bytes delim fuel allow rest (state.1 ++ (part ∷ [])) state.0))
            path
            (again rest (state.1 ++ (part ∷ [])) state.0 (omega arith) q
              (All-append Some state.1 (part ∷ []) f (p, tt))
              (
                g,
                omega (
                  arith,
                  size,
                  texts,
                  length-append (gather state.1) (gather (part ∷ []) ++ out),
                ),
              ))

  -- Where every line lies within the data and the answers are no errors and as many as the bytes to
  -- write, `write_plain_lines` returns true, and the descriptor has been given each line with a
  -- delimiter behind it, in output order, whether or not lines were taken from the input in runs.
  pub write_plain_lines-Returns :
      (n : ℕ) (allow_contiguous : Bool) (lines : List Place) (sink : Sink)
      → All InData lines
      → Enough (n + length (lines_out data_bytes delim lines)) sink.answers
      → Returns n
          (sink.sent ++ lines_out data_bytes delim lines)
          (write_plain_lines data_bytes delim allow_contiguous lines sink)
  unfolding write_plain_lines gather
  write_plain_lines-Returns n allow lines sink inside enough =
      subst
        (λ t.
          Returns n (t ++ lines_out data_bytes delim lines)
            (plain_loop data_bytes delim (suc (length lines)) allow lines [] sink))
        (append-nil sink.sent)
        (plain_loop-Returns n (suc (length lines)) allow lines [] sink (omega arith) inside tt
          enough)
