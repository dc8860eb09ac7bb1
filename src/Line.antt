-- ===== src/Line.antt =====
-- src/line.h and src/line.c: lines, the spans of their keys, and the filtered copies of texts that
-- `-d`, `-f` and `-i` compare; with the blank scans of src/sys/scan.c.
pub mod Filter
pub mod Bounds
use Prim.Native.Nat.{ℕ, zero, suc, ◌+◌, ◌-◌}
use rank.Base.{
  Bool, true, false, not, ◌&&◌, ◌||◌, Option, none, some, List, [], ◌∷◌, ltb, leb, ◌==◌,
  if◌then◌else◌, length, take, drop, Bytes,
}
use rank.Key.{KeyDef}

-- `struct rank_line`: `text` with `len` is the list of its bytes, which `off` locates in the input.
pub record Line : Type 0 where
  pub text : Bytes
  pub ordinal : ℕ
  pub key_index : ℕ

abbrev pub is_blank : ℕ → Bool
is_blank byte = byte == b' ' || byte == b'\t'

-- `rank_scan_nonblank_scalar`: the index of the first byte that is no blank, or the length.
unfoldable pub rank_scan_nonblank : Bytes → ℕ
rank_scan_nonblank [] = 0
rank_scan_nonblank (c ∷ text) = if is_blank c then suc (rank_scan_nonblank text) else 0

-- `rank_scan_blank_scalar`: the index of the first blank, or the length.
unfoldable pub rank_scan_blank : Bytes → ℕ
rank_scan_blank [] = 0
rank_scan_blank (c ∷ text) = if is_blank c then 0 else suc (rank_scan_blank text)

-- `filtered_keep`, and `span_modifier_keep` of src/cmp.c.
abbrev pub filtered_keep : Bool → Bool → ℕ → Bool
filtered_keep dictionary_order ignore_nonprinting byte =
    if dictionary_order
      && not (
          byte == b' '
          || byte == b'\t'
          || (leb b'0' byte && leb byte b'9')
          || (leb b'A' byte && leb byte b'Z')
          || (leb b'a' byte && leb byte b'z'))
    then false
    else if ignore_nonprinting && not (leb 0x20 byte && leb byte 0x7e)
    then false
    else true

-- `filtered_fold`, and `span_modifier_fold` of src/cmp.c: `byte - ('a' - 'A')` is at least 0 here.
abbrev pub filtered_fold : Bool → ℕ → ℕ
filtered_fold ignore_case byte =
    if ignore_case && (leb b'a' byte && leb byte b'z') then byte - (b'a' - b'A') else byte

-- `rank_fold_upper_scalar`
unfoldable pub rank_fold_upper : Bytes → Bytes
rank_fold_upper [] = []
rank_fold_upper (byte ∷ src) =
    (if leb b'a' byte && leb byte b'z' then byte - (b'a' - b'A') else byte) ∷ rank_fold_upper src

-- The loop of `append_filtered_span`.
unfoldable pub filter_loop : Bool → Bool → Bool → Bytes → Bytes
filter_loop ignore_case dictionary_order ignore_nonprinting [] = []
filter_loop ignore_case dictionary_order ignore_nonprinting (byte ∷ text) =
    let rest = filter_loop ignore_case dictionary_order ignore_nonprinting text in
    if filtered_keep dictionary_order ignore_nonprinting byte
    then filtered_fold ignore_case byte ∷ rest
    else rest

-- `append_filtered_span`: the bytes that it appends to `transform_data`.
unfoldable pub append_filtered_span : Bytes → Bool → Bool → Bool → Bytes
unfolding rank_fold_upper filter_loop
append_filtered_span text ignore_case dictionary_order ignore_nonprinting =
    if ignore_case && not dictionary_order && not ignore_nonprinting
    then rank_fold_upper text
    else filter_loop ignore_case dictionary_order ignore_nonprinting text

-- The loop of `explicit_field_start` over the text from `i` on.
unfoldable pub explicit_loop : ℕ → ℕ → Bytes → ℕ → ℕ → ℕ
explicit_loop sep field [] i current = i
explicit_loop sep field (c ∷ text) i current =
    let rest = explicit_loop sep field text (i + 1) (if c == sep then current + 1 else current) in
    if c == sep && current + 1 == field then i + 1 else rest

unfoldable pub explicit_field_start : Bytes → ℕ → ℕ → ℕ
unfolding explicit_loop
explicit_field_start text sep field = if field == 1 then 0 else explicit_loop sep field text 0 1

-- libc's `memchr`, as an index, or the length where the byte does not occur.
unfoldable pub memchr : ℕ → Bytes → ℕ
memchr sep [] = 0
memchr sep (c ∷ text) = if c == sep then 0 else suc (memchr sep text)

unfoldable pub explicit_field_end : Bytes → ℕ → ℕ → ℕ
unfolding memchr
explicit_field_end text sep field_start =
    if leb (length text) field_start
    then length text
    else field_start + memchr sep (drop field_start text)

-- The loop of `blank_field_start`; each round passes a byte. `text` is what is left from `i` on.
unfoldable pub blank_loop : ℕ → ℕ → Bool → Bytes → ℕ → ℕ → ℕ
blank_loop zero field ignore_blanks text i current = i + length text
blank_loop (suc fuel) field ignore_blanks text i current =
    let blanks = rank_scan_nonblank text in
    let word = drop blanks text in
    let skip = rank_scan_blank word in
    let rest =
      blank_loop fuel field ignore_blanks (drop skip word) (i + blanks + skip) (current + 1) in
    if leb (length text) blanks
    then i + length text
    else if current + 1 == field
    then (if ignore_blanks then i + blanks else i)
    else rest

unfoldable pub blank_field_start : Bytes → ℕ → Bool → ℕ
unfolding blank_loop rank_scan_nonblank rank_scan_blank
blank_field_start text field ignore_blanks = blank_loop (length text) field ignore_blanks text 0 0

unfoldable pub blank_field_end : Bytes → ℕ → ℕ
unfolding rank_scan_nonblank rank_scan_blank
blank_field_end text field_start =
    let i = field_start + rank_scan_nonblank (drop field_start text) in
    i + rank_scan_blank (drop i text)

-- The start of a field, behind its blanks where they are ignored.
unfoldable pub field_start : Bytes → Option ℕ → ℕ → Bool → ℕ
unfolding explicit_field_start rank_scan_nonblank blank_field_start
field_start text (some sep) field ignore_blanks =
    let start = explicit_field_start text sep field in
    if ignore_blanks then start + rank_scan_nonblank (drop start text) else start
field_start text none field ignore_blanks = blank_field_start text field ignore_blanks

-- The end of the end field, without a character position.
unfoldable pub field_limit : Bytes → Option ℕ → KeyDef → ℕ
unfolding explicit_field_start explicit_field_end blank_field_start blank_field_end
field_limit text (some sep) key =
    explicit_field_end text sep (explicit_field_start text sep key.end_field)
field_limit text none key =
    blank_field_end text (blank_field_start text key.end_field key.ignore_end_blanks)

-- `add > len - start ? len : start + add`
abbrev pub advance : ℕ → ℕ → ℕ → ℕ
advance len start add = if ltb (len - start) add then len else start + add

abbrev pub clamp_to : ℕ → ℕ → ℕ
clamp_to len position = if ltb len position then len else position

-- `start` and `limit` of `extract_key_span`; `separator` is the field separator, if there is one.
unfoldable pub key_bounds : Bytes → Option ℕ → KeyDef → ℕ × ℕ
unfolding field_start field_limit
key_bounds text separator key =
    let len = length text in
    let field = field_start text separator key.start_field key.ignore_start_blanks in
    let end_field = field_start text separator key.end_field key.ignore_end_blanks in
    let start =
      if key.has_start_char
      then advance len field (if key.start_char == 0 then 0 else key.start_char - 1)
      else field in
    let limit =
      if key.has_end && (key.has_end_char && ltb 0 key.end_char)
      then advance len end_field key.end_char
      else if key.has_end
      then field_limit text separator key
      else len in
    let start' = clamp_to len start in
    let limit' = clamp_to len limit in (start', if ltb limit' start' then start' else limit')

unfoldable pub extract_key_span : Bytes → Option ℕ → KeyDef → Bytes
unfolding key_bounds
extract_key_span text separator key =
    let bounds = key_bounds text separator key in take (bounds.1 - bounds.0) (drop bounds.0 text)
