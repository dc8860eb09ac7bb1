-- ===== src/Output/Distinct/Sends.antt =====
-- What `rank_output_lines` of src/output.c hands to the descriptor for `-u` and `--debug`.
use Prim.Native.Nat.{ℕ, ◌≤◌}
use rank.Base.{
  ◌≡◌, ap, ◌∙◌, Bool, true, false, inl, inr, Bool-cases, Option, none, some, List, [], ◌∷◌, ◌++◌,
  append-nil, arith, ℤ, if◌then◌else◌, Bytes,
}
use rank.Options.{Options}
use rank.Output.{Sink, Writer, Outcome, returned, failed, waiting, and_then, writer_flush}
use rank.Output.Sent.{
  IfReturned, IfReturned-and_then, given, Fits, Added, Flushed, writer_flush-Flushed,
}
use rank.Output.Plain.{Place}
use rank.Output.Plain.Laws.{line_out}
use rank.Output.Distinct.{
  output_buffer_size, write_line, write_debug_annotations, is_repeated, distinct_lines,
  write_record, output_loop, rank_output_lines,
}
use rank.Output.Distinct.Annotations.{
  Added-nil, Added-and_then, write_line-Added, annotations, write_debug_annotations-Added,
}

module _ {ℓ} {A : Type ℓ} (options : Options) (compare_unique : A → A → ℤ) (data_bytes : Bytes)
    (delim : ℕ) (place : A → Place) (key_place : ℕ → A → Place) where
  -- A line with a delimiter behind it and, with `--debug`, its annotations.
  abbrev pub record_out : A → Bytes
  record_out line =
      line_out data_bytes delim (place line)
      ++ (if options.debug
          then annotations options (λ k. key_place k line) (place line).len
          else [])

  abbrev pub placed : List A → Bytes
  placed [] = []
  placed (line ∷ lines) = record_out line ++ placed lines

  write_record-Added :
      (line : A) (writer : Writer)
      → 1 ≤ writer.cap
      → Fits writer
      → IfReturned
          (Added writer (record_out line))
          (write_record options compare_unique data_bytes delim place key_place line writer)
  unfolding write_record
  write_record-Added line writer h fits =
      let keys = λ (k : ℕ). key_place k line in
      let len = (place line).len in
      Added-and_then writer (line_out data_bytes delim (place line))
        (if options.debug then annotations options keys len else [])
        (write_line data_bytes delim writer (place line))
        (λ w. if options.debug then write_debug_annotations options keys len w else returned w) h
        (write_line-Added data_bytes delim writer (place line) h fits)
        (by_debug options.debug keys len)
    where
      by_debug :
          (debug : Bool) (keys : ℕ → Place) (len : ℕ) (w : Writer)
          → 1 ≤ w.cap
          → Fits w
          → IfReturned
              (Added w (if debug then annotations options keys len else []))
              (if debug then write_debug_annotations options keys len w else returned w)
      by_debug true keys len w h' fits' = write_debug_annotations-Added options keys len w h' fits'
      by_debug false keys len w h' fits' = Added-nil w fits'

  abbrev kept : Option A → List A → List A
  kept = distinct_lines options.unique compare_unique

  abbrev loop : Option A → List A → Writer → Outcome Writer
  loop = output_loop options compare_unique data_bytes delim place key_place

  output_loop-Added :
      (previous : Option A) (lines : List A) (writer : Writer)
      → 1 ≤ writer.cap
      → Fits writer
      → IfReturned (Added writer (placed (kept previous lines))) (loop previous lines writer)
  unfolding output_loop distinct_lines
  output_loop-Added previous [] writer h fits = Added-nil writer fits
  output_loop-Added previous (line ∷ lines) writer h fits =
      elim (Bool-cases (is_repeated options.unique compare_unique previous line)) [
        | inl again ↦
            rw (again, output_loop, distinct_lines) (output_loop-Added previous lines writer h fits)
        | inr new ↦
            rw (new, output_loop, distinct_lines)
              (Added-and_then writer (record_out line) (placed (kept (some line) lines))
                (write_record options compare_unique data_bytes delim place key_place line writer)
                (loop (some line) lines) h (write_record-Added line writer h fits)
                (output_loop-Added (some line) lines))
      ]

  -- If `rank_output_lines` returns true where `-u` or `--debug` is given, the descriptor has been given
  -- the lines, with `-u` only those that are not repeated, each with a delimiter behind it and, with
  -- `--debug`, a line that marks each of its keys and, unless `-s` or `-u` is given, one that marks it
  -- all, if there are keys.
  pub rank_output_lines-distinct_lines :
      (lines : List A) (sink : Sink)
      → IfReturned
          (λ (s : Sink).
            s.sent ≡ sink.sent ++ placed (distinct_lines options.unique compare_unique none lines))
          (rank_output_lines options compare_unique data_bytes delim place key_place lines sink)
  unfolding rank_output_lines
  rank_output_lines-distinct_lines lines sink =
      let start : Writer = record { buf = []; cap = output_buffer_size; sink = sink } in
      let out = placed (kept none lines) in
      IfReturned-and_then (λ (w : Writer). w.sink.sent ≡ sink.sent ++ out)
        (λ (s : Sink). s.sent ≡ sink.sent ++ out) (and_then (loop none lines start) writer_flush)
        (λ writer. returned writer.sink)
        (IfReturned-and_then (Added start out) (λ (w : Writer). w.sink.sent ≡ sink.sent ++ out)
          (loop none lines start) writer_flush
          (output_loop-Added none lines start (omega arith) (omega arith))
          (λ w (e, cap, fits).
            by_flush w (e ∙ ap (λ t. t ++ out) (append-nil sink.sent)) (writer_flush w)
              (writer_flush-Flushed w)))
        (λ w e. e)
    where
      by_flush :
          (w : Writer) {all : Bytes}
          → given w ≡ all
          → (o : Outcome Writer) → IfReturned (Flushed w) o
          → IfReturned (λ (v : Writer). v.sink.sent ≡ all) o
      by_flush w e (returned v) (empty, sent, cap) = sent ∙ e
      by_flush w e failed t = tt
      by_flush w e waiting t = tt
