-- ===== src/Tests/Output.antt =====
-- The theorems on output and on the check at concrete inputs.
use Prim.Native.Nat.{ℕ, zero, suc, ◌+◌}
use rank.Base.{
  some, Option, Bool, ℤ, ◌≡◌, refl, true, false, none, List, [], ◌∷◌, ◌++◌, arith, codes, Bytes,
  ◌↔◌, take,
}
use rank.Numeric.{rank_numeric_compare}
use rank.Numeric.Value.{rank_numeric_compare-IsOrder}
use rank.Check.Kind.{fast_bytes, check_fast_kind_from_options}
use rank.Check.KeyCache.{KeyCache, check_with_cache, check_afresh, check_with_cache-check_afresh}
use rank.Key.{numeric}
use rank.Numeric.{rank_numeric_parse}
use rank.Numeric.Long.{rank_general_numeric_parse}
use rank.Tests.{second_field}
use rank.Cmp.{rank_compare_lines, rank_compare_unique}
use rank.Sort.Stable.{Ascends, class}
use rank.Output.{returned, Nwrite, wrote, interrupted, Sink, Writer, writer_write}
use rank.Output.Sent.{IfReturned, Added, writer_write-Added}
use rank.Output.Enough.{Enough, Returns}
use rank.Output.Plain.{Place, text_of, write_plain_lines}
use rank.Output.Plain.Laws.{lines_out}
use rank.Output.Plain.Returns.{write_plain_lines-Returns}
use rank.Output.Distinct.{distinct_lines, rank_output_lines}
use rank.Output.Distinct.Laws.{class-distinct_lines}
use rank.Output.Distinct.Sends.{placed, rank_output_lines-distinct_lines}
use rank.Options.{Options}
use rank.Locale.Lex.{lex}
use rank.Check.{
  success, Nread, got, check_bytes_disordered, is_disordered, rank_check_lines, check_fd,
}
use rank.Check.Stream.{split_records, check_records, contents, is_broken, check_fd-records}
use rank.Check.Order.{
  Strictly, rank_check_lines-Ascends, rank_check_lines-Strictly,
  check_bytes_disordered-is_disordered,
}
use rank.Tests.{toy, c_locale}
use rank.Tests.Sorting.{toy_caches, byte_options, line_at}

-- Two lines that stand one behind the other, and a third without a newline behind it.
abbrev text : Bytes
text = codes "b\na\nc"

abbrev places : List Place
places =
    record { off = 0; len = 1 } ∷ record { off = 2; len = 1 } ∷ record { off = 4; len = 1 } ∷ []

-- Answers that take a byte each, and a call that is interrupted.
abbrev ones : ℕ → List Nwrite
ones zero = interrupted ∷ []
ones (suc n) = wrote 1 ∷ ones n

ones-Enough : Enough (1 + 6) (ones 7)
ones-Enough = ((tt, (tt, (tt, (tt, (tt, (tt, (tt, (tt, tt)))))))), omega arith)

abbrev sink : Sink
sink = record { sent = []; answers = ones 7 }

write_plain_lines-Returns_example :
    Returns 1 (lines_out text b'\n' places) (write_plain_lines text b'\n' true places sink)
write_plain_lines-Returns_example =
    write_plain_lines-Returns text b'\n' 1 true places sink
      (omega arith, (omega arith, (omega arith, tt))) ones-Enough

abbrev small : Writer
small = record { buf = codes "ab"; cap = 3; sink = sink }

writer_write-Added_example : IfReturned (Added small (codes "cd")) (writer_write small (codes "cd"))
writer_write-Added_example = writer_write-Added small (codes "cd") (omega arith)

-- Three lines of which the second repeats the first, and a key that is empty at the end of each.
abbrev repeated : Bytes
repeated = codes "a\na\nb\n"

abbrev debugged : Options
debugged = record (byte_options (second_field ∷ [])) { unique = true; debug = true }

abbrev compare_places : Place → Place → ℤ
compare_places a b = lex (text_of repeated b'\n' a) (text_of repeated b'\n' b)

abbrev end_of : ℕ → Place → Place
end_of k line = record { off = line.len; len = 0 }

abbrev patient : Sink
patient = record { sent = []; answers = interrupted ∷ wrote 3 ∷ ones 7 }

-- The outcome is `returned`.
output_example :
    rank_output_lines debugged compare_places repeated b'\n' (λ p. p) end_of places patient
    ≡ returned (record { sent = codes "a\n ^\nb\n ^\n"; answers = interrupted ∷ [] })
unfolding rank_output_lines lex
output_example = refl

rank_output_lines-distinct_lines_example :
    IfReturned
      (λ (s : Sink).
        s.sent
        ≡ []
          ++ placed debugged compare_places repeated b'\n'
              (λ p. p)
              end_of
              (distinct_lines true compare_places none places))
      (rank_output_lines debugged compare_places repeated b'\n' (λ p. p) end_of places patient)
rank_output_lines-distinct_lines_example =
    rank_output_lines-distinct_lines debugged compare_places repeated b'\n' (λ p. p) end_of places
      patient

abbrev numbers : List Bytes
numbers = codes "1" ∷ codes "01" ∷ codes "2" ∷ []

numbers-Ascends : Ascends rank_numeric_compare numbers
numbers-Ascends = unfold rank_numeric_compare in ((refl, (refl, tt)), ((refl, tt), (tt, tt)))

class-distinct_lines_example :
    class rank_numeric_compare (codes "1") (distinct_lines true rank_numeric_compare none numbers)
    ≡ take 1 (class rank_numeric_compare (codes "1") numbers)
class-distinct_lines_example =
    class-distinct_lines rank_numeric_compare-IsOrder (codes "1") numbers numbers-Ascends

rank_check_lines-Ascends_example :
    (rank_check_lines false rank_numeric_compare rank_numeric_compare numbers ≡ success)
    ↔ Ascends rank_numeric_compare numbers
rank_check_lines-Ascends_example =
    rank_check_lines-Ascends rank_numeric_compare rank_numeric_compare rank_numeric_compare-IsOrder
      numbers

rank_check_lines-Strictly_example :
    (rank_check_lines true rank_numeric_compare rank_numeric_compare numbers ≡ success)
    ↔ Strictly rank_numeric_compare numbers
rank_check_lines-Strictly_example =
    rank_check_lines-Strictly rank_numeric_compare rank_numeric_compare rank_numeric_compare-IsOrder
      (λ a b. refl) numbers

-- A record that two reads hold in parts, and the end of the file.
abbrev reads : List Nread
reads = got (codes "a\nb") ∷ got (codes "c\na") ∷ got [] ∷ []

-- The order on bytes, which does not fail.
abbrev by_bytes : Bytes → Bytes → Option Bool
by_bytes a b = some (check_bytes_disordered false false a b)

check_fd-records_example :
    check_fd by_bytes b'\n' reads
    ≡ check_records by_bytes
        (is_broken reads)
        none
        0
        (split_records b'\n' (is_broken reads) [] (contents reads))
check_fd-records_example = check_fd-records by_bytes b'\n' reads

check_bytes_disordered-is_disordered_example :
    check_bytes_disordered true false (codes "a") (codes "b")
    ≡ is_disordered false
        (rank_compare_lines toy c_locale (byte_options []) toy_caches)
        (rank_compare_unique toy c_locale (byte_options []) toy_caches)
        (line_at (codes "a") 0)
        (line_at (codes "b") 1)
check_bytes_disordered-is_disordered_example =
    check_bytes_disordered-is_disordered toy c_locale (byte_options []) toy_caches chosen refl
      (line_at (codes "a") 0) (line_at (codes "b") 1)
  where
    chosen : check_fast_kind_from_options true (byte_options []) ≡ fast_bytes
    chosen = unfold check_fast_kind_from_options in refl

abbrev unset : KeyCache toy
unset = record {
  span = [];
  number = rank_numeric_parse [];
  general_number = rank_general_numeric_parse toy [];
  human_number = some 0;
  month_value = 0;
}

check_with_cache-check_afresh_example :
    check_with_cache toy
      (λ t. t)
      (byte_options (second_field ∷ []))
      second_field
      numeric
      unset
      none
      (codes "9")
      numbers
    ≡ check_afresh toy
        (λ t. t)
        (byte_options (second_field ∷ []))
        second_field
        numeric
        (codes "9")
        numbers
check_with_cache-check_afresh_example =
    check_with_cache-check_afresh toy (λ t. t) (byte_options (second_field ∷ [])) second_field
      numeric unset (codes "9") numbers
