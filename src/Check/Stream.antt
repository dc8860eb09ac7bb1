-- ===== src/Check/Stream.antt =====
-- `check_fd` of src/check.c finds in the chunks of a stream what is in its records.
use Prim.Native.Nat.{ℕ, ◌+◌, ◌-◌, ◌≤◌, ◌<◌}
use mathlib.Core.Path.{subst}
use rank.Base.{
  ◌≡◌, refl, sym, ap, Bool, true, false, not, ◌&&◌, inl, inr, Bool-cases, Option, none, some, List,
  [], ◌∷◌, ◌++◌, arith, ltb, ◌==◌, if◌then◌else◌, length, length-append, Bytes,
}
use rank.Key.{size_max}
use rank.Check.{
  Status, success, disorder, serious, Checked, Nread, got, read_error, is_after,
  check_process_record, check_record_append, chunk_loop, check_end, check_reads, check_fd,
}

-- The records of a text of which `current` has been read: the last one has no delimiter behind it and
-- is not empty. `broken` says that a read fails behind the text; then the last one is not complete.
unfoldable pub split_records : ℕ → Bool → Bytes → Bytes → List Bytes
split_records delim broken current [] =
    if not broken && ltb 0 (length current) then current ∷ [] else []
split_records delim broken current (byte ∷ text) = elim (byte == delim) [
  | true ↦ current ∷ split_records delim broken [] text
  | false ↦ split_records delim broken (current ++ (byte ∷ [])) text
]

-- What is read before the end of the stream or a failure, and whether a read fails.
abbrev pub contents : List Nread → Bytes
contents [] = []
contents (read_error ∷ reads) = []
contents (got [] ∷ reads) = []
contents (got (byte ∷ chunk) ∷ reads) = (byte ∷ chunk) ++ contents reads

abbrev pub is_broken : List Nread → Bool
is_broken [] = false
is_broken (read_error ∷ reads) = true
is_broken (got [] ∷ reads) = false
is_broken (got (byte ∷ chunk) ∷ reads) = is_broken reads

module _ (disordered : Bytes → Bytes → Option Bool) where
  -- The check of records one by one: a record that is too large, an order that fails and a read that
  -- fails behind the records are serious.
  unfoldable pub check_records : Bool → Option Bytes → ℕ → List Bytes → Status
  check_records broken previous number [] = if broken then serious else success
  check_records broken previous number (current ∷ records) = elim (ltb size_max (length current)) [
    | true ↦ serious
    | false ↦ elim (is_after disordered previous current) [
      | none ↦ serious
      | some true ↦ disorder (number + 1)
      | some false ↦ check_records broken (some current) (number + 1) records
    ]
  ]

  -- A record that is too large already.
  too_large :
      (delim : ℕ) (broken : Bool) (previous : Option Bytes) (number : ℕ) (current text : Bytes)
      → size_max < length current
      → check_records broken previous number (split_records delim broken current text) ≡ serious
  unfolding check_records split_records
  too_large delim true previous number current [] h = refl
  too_large delim false previous number current [] h =
      let some_left : ltb 0 (length current) ≡ true = ground arith in
      let large : ltb size_max (length current) ≡ true = ground arith in
      rw (some_left, large, check_records) refl
  too_large delim broken previous number current (byte ∷ text) h =
      elim (Bool-cases (byte == delim)) [
        | inl hit ↦
            let large : ltb size_max (length current) ≡ true = ground arith in
            rw (hit, large, split_records, check_records) refl
        | inr other ↦
            rw (other, split_records)
              (too_large delim broken previous number (current ++ (byte ∷ [])) text
                (omega (arith, length-append current (byte ∷ []))))
      ]

  abbrev InRecords : ℕ → Bool → Bytes → Checked → Status → Type 0
  InRecords delim broken text state status =
      status
      ≡ check_records broken state.previous state.number
          (split_records delim broken state.current text)

  abbrev Holds : Checked → Type 0
  Holds state = length state.current ≤ size_max

  -- A record that is complete and not too large.
  process-InRecords :
      (state : Checked) (broken : Bool) (records : List Bytes) (go : Checked → Status)
      → Holds state
      → go (record { previous = some state.current; current = []; number = state.number + 1 })
        ≡ check_records broken (some state.current) (state.number + 1) records
      → check_process_record disordered state go
        ≡ check_records broken state.previous state.number (state.current ∷ records)
  unfolding check_records
  process-InRecords state broken records go h e =
      let small : ltb size_max (length state.current) ≡ false = ground arith in
      subst
        (λ b. check_process_record disordered state go ≡ elim b as (λ _. Status) [
          | true ↦ serious
          | false ↦ elim (is_after disordered state.previous state.current) [
            | none ↦ serious
            | some true ↦ disorder (state.number + 1)
            | some false ↦ check_records broken (some state.current) (state.number + 1) records
          ]
        ])
        (sym small)
        (ap
          (λ rest. elim (is_after disordered state.previous state.current) as (λ _. Status) [
            | none ↦ serious
            | some true ↦ disorder (state.number + 1)
            | some false ↦ rest
          ])
          e)

  -- A byte of a record, which fits or makes the record too large.
  append-InRecords :
      (delim : ℕ) (broken : Bool) (byte : ℕ) (text : Bytes) (state : Checked)
      (go : Checked → Status)
      → (length (state.current ++ (byte ∷ [])) ≤ size_max
          → go (record state { current = state.current ++ (byte ∷ []) })
            ≡ check_records broken state.previous state.number
                (split_records delim broken (state.current ++ (byte ∷ [])) text))
      → check_record_append disordered state byte go
        ≡ check_records broken state.previous state.number
            (split_records delim broken (state.current ++ (byte ∷ [])) text)
  append-InRecords delim broken byte text state go h =
      by_test (ltb (size_max - length state.current) 1) refl
    where
      by_test :
          (full : Bool)
          → ltb (size_max - length state.current) 1 ≡ full
          → elim full as (λ _. Status) [
            | true ↦ serious
            | false ↦ go (record state { current = state.current ++ (byte ∷ []) })
          ]
            ≡ check_records broken state.previous state.number
                (split_records delim broken (state.current ++ (byte ∷ [])) text)
      by_test true e = sym (
          too_large delim broken state.previous state.number (state.current ++ (byte ∷ [])) text
            (ground (arith, length-append state.current (byte ∷ []))))
      by_test false e = h (ground (arith, length-append state.current (byte ∷ [])))

  check_end-InRecords :
      (delim : ℕ) (state : Checked)
      → Holds state
      → InRecords delim false [] state (check_end disordered state)
  unfolding split_records
  check_end-InRecords delim state h = elim (Bool-cases (ltb 0 (length state.current))) [
    | inl some_left ↦
        rw some_left
          (process-InRecords state false [] (λ next. success) h (unfold check_records in refl))
    | inr none_left ↦ rw none_left (unfold check_records in refl)
  ]

  broken-InRecords : (delim : ℕ) (state : Checked) → InRecords delim true [] state serious
  unfolding check_records split_records
  broken-InRecords delim state = refl

  chunk_loop-InRecords :
      (delim : ℕ) (broken : Bool) (chunk text : Bytes) (state : Checked) (go : Checked → Status)
      → ((next : Checked) → Holds next → InRecords delim broken text next (go next))
      → Holds state
      → InRecords delim broken (chunk ++ text) state (chunk_loop disordered delim chunk state go)
  unfolding split_records chunk_loop
  chunk_loop-InRecords delim broken [] text state go h k = h state k
  chunk_loop-InRecords delim broken (byte ∷ chunk) text state go h k =
      elim (Bool-cases (byte == delim)) [
        | inl hit ↦
            rw (hit, chunk_loop, split_records)
              (process-InRecords state broken (split_records delim broken [] (chunk ++ text))
                (λ next. chunk_loop disordered delim chunk next go) k
                (chunk_loop-InRecords delim broken chunk text
                  (record {
                    previous = some state.current;
                    current = [];
                    number = state.number + 1;
                  })
                  go h (omega arith)))
        | inr other ↦
            rw (other, chunk_loop, split_records)
              (append-InRecords delim broken byte (chunk ++ text) state
                (λ next. chunk_loop disordered delim chunk next go)
                (λ room.
                  chunk_loop-InRecords delim broken chunk text
                    (record state { current = state.current ++ (byte ∷ []) }) go h room))
      ]

  check_reads-InRecords :
      (delim : ℕ) (reads : List Nread) (state : Checked)
      → Holds state
      → InRecords delim
          (is_broken reads)
          (contents reads)
          state
          (check_reads disordered delim reads state)
  unfolding check_reads
  check_reads-InRecords delim [] state k = check_end-InRecords delim state k
  check_reads-InRecords delim (read_error ∷ reads) state k = broken-InRecords delim state
  check_reads-InRecords delim (got [] ∷ reads) state k = check_end-InRecords delim state k
  check_reads-InRecords delim (got (byte ∷ chunk) ∷ reads) state k =
      chunk_loop-InRecords delim (is_broken reads) (byte ∷ chunk) (contents reads) state
        (check_reads disordered delim reads) (λ next. check_reads-InRecords delim reads next) k

  -- Wherever the reads cut the input, `check_fd` returns what a check of the records of all that is read
  -- returns, one record after the other: the number of the first record out of order, or serious if
  -- first a record is longer than SIZE_MAX, the order of two records fails, or, behind the complete
  -- records, a read fails; else success.
  pub check_fd-records :
      (delim : ℕ) (reads : List Nread)
      → check_fd disordered delim reads
        ≡ check_records
            (is_broken reads)
            none
            0
            (split_records delim (is_broken reads) [] (contents reads))
  unfolding check_fd
  check_fd-records delim reads =
      check_reads-InRecords delim reads (record { previous = none; current = []; number = 0 })
        (omega arith)
