-- ===== src/Lib.antt =====
-- The program `rank` is a replacement for GNU sort. This library models the part of it that decides
-- the order of the output: keys are parsed from the command line (src/key.c), keys inherit global
-- options and incompatible options are refused (src/options.c), key spans are cut out of lines
-- (src/line.c), lines are compared by text, number, version or collation (src/numeric.c,
-- src/locale.c, src/cmp.c) and sorted (src/sort.c).
--
-- Files. Base: Boolean tests on native numbers, signed results of comparison functions, orders,
-- filters, lists. Numeric: the `-n`, `-g`, `-h` and `-M` orders of src/numeric.c; Version: its `-V`
-- order. Locale: src/locale.c. Key: src/key.h and src/key.c. Options: src/options.h and the ordering
-- part of src/options.c. Line: key extraction and filters of src/line.c, with the scans of
-- src/sys/scan.c. Cmp: src/cmp.c. Sort: src/sort.c, with the specification of a stable sort that
-- sorting routines are measured by, and lemmas on sorts in parts and on reversed lists. Radix: the
-- sorts of src/radix.c: Radix/Scatter is a counting pass, Radix/Range the recursion over the bytes of
-- lines and transforms, Radix/Keys that over a key with its skip of a shared prefix, Radix/Groups the
-- loops over groups of equal items, Radix/KeySort and Radix/Transformed the entry points. Plan:
-- src/plan.c. Records: records as src/line.c adds them, and the output order of src/sort.c. Output:
-- src/output.c, the writer, the vectors of plain lines (Output/Plain), the filter of `-u` with the
-- annotations of `--debug` (Output/Distinct). Check: src/check.c, with the stream (Check/Stream), the choice of a fast order
-- (Check/Kind) and the order on one key with its cache (Check/KeyCache). Tests: theorems at concrete inputs.
--
-- How state and operations correspond. A pointer with a length is the list of its bytes, and a
-- position that only moves forward is the text that is left. An `int` that a comparison returns is
-- a ℤ, of which callers use the sign. Functions have the names of the C functions; loops are
-- helpers beside them. A sort of `items[lo..hi)` maps the list of the elements to a list; `aux` is
-- written before it is read; where it is fresh its contents are an argument, and a nested call is given
-- its own range as `aux`. Arrays of caches are functions of the index.
-- The answers of `read`, `write` and `writev` are lists, used up call by call; a writer that has no
-- answer left is `waiting`.
-- The order that the check of a stream uses returns no Boolean where the source sets the status to
-- RANK_EXIT_SERIOUS.
-- `size_t` arithmetic is kept modulo 2^64 where it can wrap around (`parse_size`).
--
-- Bounds and fuel. `version_rounds` takes the length of both texts, since every round passes a byte;
-- `modified_loop` the length of the first text; `blank_loop` the length of the line; and
-- `merge_sort_range` the length of its range, which every call halves. `prefix_loop` and
-- `skip_suffixes` pass a byte each round and take the length of the text. `find_place` takes the
-- number of sorted items, which bounds `right - left`. `radix_range` and `key_range` take the depth
-- limit, since every call is a byte deeper and stops at it; `reverse_line_range` the length of its
-- range; and `plain_loop` one more than the number of lines.
--
-- Parameters. `strcoll`, whether collation is the identity, `strtold` and the arithmetic of `long
-- double`, and MD5 digests are arguments; theorems name what they use of them (a total preorder;
-- IEEE 754 comparison).
--
-- Not modelled: opening, reading and mapping files, temporary files, threads, allocation, the counters
-- that serve diagnostics, the in-place sort of `rank_radix_sort_lines`, the preparation of the caches,
-- merging and messages to stderr, those of `--debug` included.
pub mod Base
pub mod Check
pub mod Cmp
pub mod Key
pub mod Line
pub mod Locale
pub mod Numeric
pub mod Options
pub mod Output
pub mod Plan
pub mod Radix
pub mod Records
pub mod Sort
pub mod Tests
pub mod Version
