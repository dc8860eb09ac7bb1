-- ===== src/Check.antt =====
-- src/check.c: the check of lines in memory, and that of a stream, which keeps two records. The order of
-- two records, `check_records_disordered`, is an argument, which may fail; its fast case on bytes is a
-- definition.
-- Messages go out with the number of the record, which is the result's.
pub mod Stream
pub mod Order
pub mod KeyCache
pub mod Kind
use Prim.Native.Nat.{ℕ, zero, suc, ◌+◌, ◌-◌}
use rank.Base.{
  Bool, true, false, ◌&&◌, ◌||◌, Option, none, some, List, [], ◌∷◌, ◌++◌, ℤ, neg, three_way,
  unit_sign, is_pos, is_zero, ltb, leb, ◌==◌, if◌then◌else◌, length, Bytes,
}
use rank.Locale.{memcmp}
use rank.Key.{size_max}

-- The exit status, with the number of the first record out of order.
pub data Status : Type 0 where
  success : Status
  disorder : ℕ → Status
  serious : Status

module _ {ℓ} {A : Type ℓ} (unique : Bool) (compare compare_unique : A → A → ℤ) where
  -- `result > 0 || (options->unique && rank_compare_unique(...) == 0)`
  abbrev pub is_disordered : A → A → Bool
  is_disordered a b = is_pos (compare a b) || (unique && is_zero (compare_unique a b))

  -- The loop of `rank_check_lines`: `number` is `i`.
  unfoldable pub check_loop : ℕ → A → List A → Status
  check_loop number previous [] = success
  check_loop number previous (line ∷ lines) =
      let rest = check_loop (number + 1) line lines in
      if is_disordered previous line then disorder (number + 1) else rest

  unfoldable pub rank_check_lines : List A → Status
  unfolding check_loop
  rank_check_lines [] = success
  rank_check_lines (first ∷ lines) = check_loop 1 first lines

-- `check_compare_bytes`
unfoldable pub check_compare_bytes : Bytes → Bytes → ℤ
unfolding memcmp
check_compare_bytes a b =
    let common = if ltb (length a) (length b) then length a else length b in
    let result = memcmp common a b in
    let by_len = three_way (length a) (length b) in
    if ltb 0 common then (if is_zero result then by_len else unit_sign result) else by_len

-- `check_records_disordered` where the kind is CHECK_FAST_BYTES.
unfoldable pub check_bytes_disordered : Bool → Bool → Bytes → Bytes → Bool
unfolding check_compare_bytes
check_bytes_disordered reverse unique previous current =
    let result = check_compare_bytes previous current in
    let signed = if reverse then neg result else result in
    is_pos signed || (unique && is_zero signed)

-- The local variables of `check_fd`: `previous` is `none` until `have_previous`; `number` counts the
-- records that are complete.
pub record Checked : Type 0 where
  pub previous : Option Bytes
  pub current : Bytes
  pub number : ℕ

-- What a `read` returns: bytes, of which none is the end, or -1.
pub data Nread : Type 0 where
  got : Bytes → Nread
  read_error : Nread

module _ (disordered : Bytes → Bytes → Option Bool) where
  -- `none` is a `*status` other than RANK_EXIT_SUCCESS, which is RANK_EXIT_SERIOUS.
  abbrev pub is_after : Option Bytes → Bytes → Option Bool
  is_after none current = some false
  is_after (some previous) current = disordered previous current

  -- `current.number++` and `check_process_record` with `check_record_promote`; `go` is what follows a
  -- return of `true`.
  abbrev pub check_process_record : Checked → (Checked → Status) → Status
  check_process_record state go = elim (is_after state.previous state.current) [
    | none ↦ serious
    | some true ↦ disorder (state.number + 1)
    | some false ↦
        go (record { previous = some state.current; current = []; number = state.number + 1 })
  ]

  -- `check_record_append` of a byte; `go` is what follows a return of `true`. The test is
  -- `SIZE_MAX - record->len < len`. The growth of the buffer is left out.
  abbrev pub check_record_append : Checked → ℕ → (Checked → Status) → Status
  check_record_append state byte go = elim (ltb (size_max - length state.current) 1) [
    | true ↦ serious
    | false ↦ go (record state { current = state.current ++ (byte ∷ []) })
  ]

  -- The loop over the bytes of a buffer; `go` is what follows the loop. What `memchr` finds in front of
  -- the delimiter is appended byte by byte: if all of it does not fit, a byte of it does not, and
  -- nothing else happens in between.
  unfoldable pub chunk_loop : ℕ → Bytes → Checked → (Checked → Status) → Status
  chunk_loop delim [] state go = go state
  chunk_loop delim (byte ∷ chunk) state go = elim (byte == delim) [
    | true ↦ check_process_record state (λ next. chunk_loop delim chunk next go)
    | false ↦ check_record_append state byte (λ next. chunk_loop delim chunk next go)
  ]

  -- The last record, where no delimiter stands behind it.
  abbrev pub check_end : Checked → Status
  check_end state =
      if ltb 0 (length state.current) then check_process_record state (λ next. success) else success

  -- `check_fd` over the answers of `read`; where they end the input does.
  unfoldable pub check_reads : ℕ → List Nread → Checked → Status
  unfolding chunk_loop
  check_reads delim [] state = check_end state
  check_reads delim (read_error ∷ reads) state = serious
  check_reads delim (got [] ∷ reads) state = check_end state
  check_reads delim (got (byte ∷ chunk) ∷ reads) state =
      chunk_loop delim (byte ∷ chunk) state (check_reads delim reads)

  unfoldable pub check_fd : ℕ → List Nread → Status
  unfolding check_reads
  check_fd delim reads =
      check_reads delim reads (record { previous = none; current = []; number = 0 })
