-- ===== src/Output/Distinct/Annotations.antt =====
-- What `write_line` and the annotations of `--debug` in src/output.c add to the output.
use Prim.Native.Nat.{ℕ, zero, suc, ◌+◌, ◌≤◌}
use mathlib.Core.Path.{subst}
use rank.Base.{
  refl, not, ◌||◌, ◌==◌, length, sym, ap, ◌∙◌, Bool, true, false, inl, inr, Bool-cases, [], ◌∷◌,
  ◌++◌, append_assoc, append-nil, arith, if◌then◌else◌, take, drop, Bytes,
}
use rank.Output.{Writer, Outcome, returned, failed, waiting, and_then, writer_write, writer_byte}
use rank.Output.Sent.{
  IfReturned, IfReturned-and_then, IfReturned-if, given, Fits, Added, writer_write-Added,
  writer_byte-Added,
}
use rank.Output.Plain.{Place, text_of, followed}
use rank.Output.Plain.Laws.{line_out, followed_text}
use rank.Options.{Options}
use rank.Output.Distinct.{
  write_line, byte_loop, write_underline, annotation_loop, write_debug_annotations,
}

-- A return that adds nothing, and one thing added behind another.
pub Added-nil : (writer : Writer) → Fits writer → Added writer [] writer
Added-nil writer fits = (sym (append-nil (given writer)), refl, fits)

Added-after :
    (writer w : Writer) (x y : Bytes)
    → Added writer x w
    → (o : Outcome Writer) → IfReturned (Added w y) o
    → IfReturned (Added writer (x ++ y)) o
Added-after writer w x y (e, cap, fits) (returned v) (e', cap', fits') =
    (e' ∙ ap (λ t. t ++ y) e ∙ append_assoc (given writer) x y, cap' ∙ cap, fits')
Added-after writer w x y h failed t = tt
Added-after writer w x y h waiting t = tt

pub Added-and_then :
    (writer : Writer) (x y : Bytes) (first : Outcome Writer) (next : Writer → Outcome Writer)
    → 1 ≤ writer.cap
    → IfReturned (Added writer x) first
    → ((w : Writer) → 1 ≤ w.cap → Fits w → IfReturned (Added w y) (next w))
    → IfReturned (Added writer (x ++ y)) (and_then first next)
Added-and_then writer x y first next h k go =
    IfReturned-and_then (Added writer x) (Added writer (x ++ y)) first next k (λ w (e, cap, fits).
      Added-after writer w x y (e, cap, fits) (next w) (go w (omega (arith, cap)) fits))

module _ (data_bytes : Bytes) (delim : ℕ) where
  pub write_line-Added :
      (writer : Writer) (line : Place)
      → 1 ≤ writer.cap
      → Fits writer
      → IfReturned
          (Added writer (line_out data_bytes delim line))
          (write_line data_bytes delim writer line)
  unfolding write_line
  write_line-Added writer line h fits =
      let text = text_of data_bytes delim line in
      IfReturned-if (Added writer (line_out data_bytes delim line)) (followed data_bytes delim line)
        (writer_write writer (take (suc line.len) (drop line.off data_bytes)))
        (and_then (writer_write writer text) (λ w. writer_byte w delim))
        (λ f.
          subst
            (λ t.
              IfReturned (Added writer t)
                (writer_write writer (take (suc line.len) (drop line.off data_bytes))))
            (followed_text data_bytes delim line f)
            (writer_write-Added writer (take (suc line.len) (drop line.off data_bytes)) fits))
        (λ n.
          Added-and_then writer text (delim ∷ []) (writer_write writer text)
            (λ w. writer_byte w delim) h (writer_write-Added writer text fits)
            (λ w h' fits'. writer_byte-Added w delim h' fits'))

abbrev pub repeated : ℕ → ℕ → Bytes
repeated zero byte = []
repeated (suc n) byte = byte ∷ repeated n byte

-- Blanks up to the span, a mark under each byte of it, or one mark where it is empty.
abbrev pub underline : ℕ → ℕ → Bytes
underline off len =
    repeated off b' ' ++ ((if len == 0 then b'^' ∷ [] else repeated len b'_') ++ (b'\n' ∷ []))

byte_loop-Added :
    (n byte : ℕ) (writer : Writer)
    → 1 ≤ writer.cap
    → Fits writer
    → IfReturned (Added writer (repeated n byte)) (byte_loop n byte writer)
unfolding byte_loop
byte_loop-Added zero byte writer h fits = Added-nil writer fits
byte_loop-Added (suc n) byte writer h fits =
    Added-and_then writer (byte ∷ []) (repeated n byte) (writer_byte writer byte) (byte_loop n byte)
      h (writer_byte-Added writer byte h fits) (byte_loop-Added n byte)

write_underline-Added :
    (writer : Writer) (off len : ℕ)
    → 1 ≤ writer.cap
    → Fits writer
    → IfReturned (Added writer (underline off len)) (write_underline writer off len)
unfolding write_underline
write_underline-Added writer off len h fits =
    let mark = if len == 0 then b'^' ∷ [] else repeated len b'_' in
    Added-and_then writer (repeated off b' ') (mark ++ (b'\n' ∷ [])) (byte_loop off b' ' writer)
      (λ padded.
        and_then (if len == 0 then writer_byte padded b'^' else byte_loop len b'_' padded)
          (λ marked. writer_byte marked b'\n'))
      h (byte_loop-Added off b' ' writer h fits)
      (λ padded h' fits'.
        Added-and_then padded mark (b'\n' ∷ [])
          (if len == 0 then writer_byte padded b'^' else byte_loop len b'_' padded)
          (λ marked. writer_byte marked b'\n') h' (mark-Added len padded h' fits')
          (λ marked h'' fits''. writer_byte-Added marked b'\n' h'' fits''))
  where
    mark-Added :
        (len : ℕ) (padded : Writer)
        → 1 ≤ padded.cap
        → Fits padded
        → IfReturned
            (Added padded (if len == 0 then b'^' ∷ [] else repeated len b'_'))
            (if len == 0 then writer_byte padded b'^' else byte_loop len b'_' padded)
    mark-Added len padded h' fits' = elim (Bool-cases (len == 0)) [
      | inl empty ↦ rw empty (writer_byte-Added padded b'^' h' fits')
      | inr some_bytes ↦ rw some_bytes (byte_loop-Added len b'_' padded h' fits')
    ]

module _ (options : Options) where
  -- A line for each key, from key `k` on.
  abbrev pub underlines : ℕ → ℕ → (ℕ → Place) → Bytes
  underlines zero k key_place = []
  underlines (suc n) k key_place =
      underline (key_place k).off (key_place k).len ++ underlines n (k + 1) key_place

  -- And one for the whole line, unless `-s` or `-u` is given; nothing without keys.
  abbrev pub annotations : (ℕ → Place) → ℕ → Bytes
  annotations key_place len =
      if length options.keys == 0
      then []
      else underlines (length options.keys) 0 key_place
        ++ (if options.stable || options.unique then [] else underline 0 len)

  annotation_loop-Added :
      (n k : ℕ) (key_place : ℕ → Place) (writer : Writer)
      → 1 ≤ writer.cap
      → Fits writer
      → IfReturned
          (Added writer (underlines n k key_place))
          (annotation_loop options n k key_place writer)
  unfolding annotation_loop
  annotation_loop-Added zero k key_place writer h fits = Added-nil writer fits
  annotation_loop-Added (suc n) k key_place writer h fits =
      let off = (key_place k).off in
      let len = (key_place k).len in
      Added-and_then writer (underline off len) (underlines n (k + 1) key_place)
        (write_underline writer off len) (annotation_loop options n (k + 1) key_place) h
        (write_underline-Added writer off len h fits) (annotation_loop-Added n (k + 1) key_place)

  last-Added :
      (left_out : Bool) (len : ℕ) (writer : Writer)
      → 1 ≤ writer.cap
      → Fits writer
      → IfReturned
          (Added writer (if left_out then [] else underline 0 len))
          (if not left_out then write_underline writer 0 len else returned writer)
  last-Added true len writer h fits = Added-nil writer fits
  last-Added false len writer h fits = write_underline-Added writer 0 len h fits

  pub write_debug_annotations-Added :
      (key_place : ℕ → Place) (len : ℕ) (writer : Writer)
      → 1 ≤ writer.cap
      → Fits writer
      → IfReturned
          (Added writer (annotations key_place len))
          (write_debug_annotations options key_place len writer)
  unfolding write_debug_annotations
  write_debug_annotations-Added key_place len writer h fits =
      let left_out = options.stable || options.unique in
      let n = length options.keys in
      let out = underlines n 0 key_place ++ (if left_out then [] else underline 0 len) in
      let body =
        and_then (annotation_loop options n 0 key_place writer)
          (λ w. if not left_out then write_underline w 0 len else returned w) in
      by_test (n == 0) out body (Added-nil writer fits) (
        Added-and_then writer (underlines n 0 key_place) (if left_out then [] else underline 0 len)
          (annotation_loop options n 0 key_place writer)
          (λ w. if not left_out then write_underline w 0 len else returned w) h
          (annotation_loop-Added n 0 key_place writer h fits) (last-Added left_out len))
    where
      by_test :
          (none_given : Bool) (out : Bytes) (body : Outcome Writer)
          → Added writer [] writer
          → IfReturned (Added writer out) body
          → IfReturned
              (Added writer (if none_given then [] else out))
              (if none_given then returned writer else body)
      by_test true out body a b = a
      by_test false out body a b = b
