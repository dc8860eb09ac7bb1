-- ===== src/Output/Distinct.antt =====
-- The loop of `rank_output_lines` of src/output.c, which `-u` and `--debug` take, with `write_line` and
-- the annotations of `--debug`. Messages to stderr are left out.
pub mod Annotations
pub mod Sends
pub mod Laws
use Prim.Native.Nat.{ℕ, zero, suc, ◌+◌, ◌-◌, ◌*◌}
use rank.Base.{
  Bool, true, false, not, ◌&&◌, ◌||◌, ◌==◌, Option, none, some, List, [], ◌∷◌, ◌++◌, ℤ, is_zero,
  if◌then◌else◌, length, take, drop, Bytes,
}
use rank.Output.{
  Sink, Writer, Outcome, returned, failed, waiting, and_then, writer_flush, writer_write,
  writer_byte,
}
use rank.Options.{Options}
use rank.Output.Plain.{Place, text_of, followed}

-- `RANK_OUTPUT_BUFFER_SIZE`
abbrev pub output_buffer_size : ℕ
output_buffer_size = 1024 * 1024

module _ (data_bytes : Bytes) (delim : ℕ) where
  unfoldable pub write_line : Writer → Place → Outcome Writer
  unfolding writer_write writer_byte
  write_line writer line =
      if followed data_bytes delim line
      then writer_write writer (take (suc line.len) (drop line.off data_bytes))
      else and_then (writer_write writer (text_of data_bytes delim line)) (λ w. writer_byte w delim)

module _ {ℓ} {A : Type ℓ} (unique : Bool) (compare_unique : A → A → ℤ) where
  -- `options->unique && previous != NULL && rank_compare_unique(...) == 0`
  abbrev pub is_repeated : Option A → A → Bool
  is_repeated none line = false
  is_repeated (some previous) line = unique && is_zero (compare_unique previous line)

  -- The lines that the loop writes.
  unfoldable pub distinct_lines : Option A → List A → List A
  distinct_lines previous [] = []
  distinct_lines previous (line ∷ lines) = elim (is_repeated previous line) [
    | true ↦ distinct_lines previous lines
    | false ↦ line ∷ distinct_lines (some line) lines
  ]

-- A loop over `writer_byte` in `write_underline`.
unfoldable pub byte_loop : ℕ → ℕ → Writer → Outcome Writer
unfolding writer_byte
byte_loop zero byte writer = returned writer
byte_loop (suc n) byte writer = and_then (writer_byte writer byte) (byte_loop n byte)

unfoldable pub write_underline : Writer → ℕ → ℕ → Outcome Writer
unfolding byte_loop
write_underline writer off len = and_then (byte_loop off b' ' writer) (λ padded.
    and_then (if len == 0 then writer_byte padded b'^' else byte_loop len b'_' padded)
      (λ marked. writer_byte marked b'\n'))

module _ (options : Options) where
  -- The loop over the keys of `write_debug_annotations`, from key `k` on; `key_place` is the span of a
  -- key, with its offset in the line.
  unfoldable pub annotation_loop : ℕ → ℕ → (ℕ → Place) → Writer → Outcome Writer
  unfolding write_underline
  annotation_loop zero k key_place writer = returned writer
  annotation_loop (suc n) k key_place writer =
      and_then (write_underline writer (key_place k).off (key_place k).len)
        (annotation_loop n (k + 1) key_place)

  unfoldable pub write_debug_annotations : (ℕ → Place) → ℕ → Writer → Outcome Writer
  unfolding annotation_loop
  write_debug_annotations key_place len writer =
      if length options.keys == 0
      then returned writer
      else and_then (annotation_loop (length options.keys) 0 key_place writer) (λ annotated.
        if not (options.stable || options.unique)
        then write_underline annotated 0 len
        else returned annotated)

  module _ {ℓ} {A : Type ℓ} (compare_unique : A → A → ℤ) (data_bytes : Bytes) (delim : ℕ)
      (place : A → Place) (key_place : ℕ → A → Place) where
    -- A line, and its annotations with `--debug`.
    unfoldable pub write_record : A → Writer → Outcome Writer
    unfolding write_line write_debug_annotations
    write_record line writer = and_then (write_line data_bytes delim writer (place line)) (λ w.
        if options.debug
        then write_debug_annotations (λ k. key_place k line) (place line).len w
        else returned w)

    -- The loop over the lines in output order; `place` locates a line in the data.
    unfoldable pub output_loop : Option A → List A → Writer → Outcome Writer
    unfolding write_record
    output_loop previous [] writer = returned writer
    output_loop previous (line ∷ lines) writer =
        elim (is_repeated options.unique compare_unique previous line) [
          | true ↦ output_loop previous lines writer
          | false ↦ and_then (write_record line writer) (output_loop (some line) lines)
        ]

    -- From `writer_init` to `writer_flush`.
    unfoldable pub rank_output_lines : List A → Sink → Outcome Sink
    unfolding output_loop writer_flush
    rank_output_lines lines sink =
        and_then
          (and_then
            (output_loop none lines (record { buf = []; cap = output_buffer_size; sink = sink }))
            writer_flush)
          (λ writer. returned writer.sink)
