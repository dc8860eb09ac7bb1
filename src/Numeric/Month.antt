-- ===== src/Numeric/Month.antt =====
-- The `-M` order of src/numeric.c: `rank_month_parse` and `rank_month_compare_values`.
use Prim.Native.Nat.{ℕ, ◌+◌, ◌-◌}
use rank.Base.{
  Bool, true, false, ◌&&◌, List, [], ◌∷◌, ℤ, IsOrder, IsOrder-on, IsOrder-three_way, three_way,
  codes, leb, ◌==◌, if◌then◌else◌, Bytes,
}
use rank.Numeric.{skip_blanks}

-- `ascii_lower`: the cast to `unsigned char` changes nothing below 128.
unfoldable pub ascii_lower : ℕ → ℕ
ascii_lower byte = if leb b'A' byte && leb byte b'Z' then byte - b'A' + b'a' else byte

abbrev pub names : List Bytes
names =
    codes "jan"
    ∷ codes "feb"
    ∷ codes "mar"
    ∷ codes "apr"
    ∷ codes "may"
    ∷ codes "jun"
    ∷ codes "jul"
    ∷ codes "aug"
    ∷ codes "sep"
    ∷ codes "oct"
    ∷ codes "nov"
    ∷ codes "dec"
    ∷ []

abbrev pub same_bytes : Bytes → Bytes → Bool
same_bytes [] [] = true
same_bytes (x ∷ a) (y ∷ b) = x == y && same_bytes a b
same_bytes _ _ = false

-- The loop over `names`, of which entry `i` is the first that is left.
unfoldable pub find_name : Bytes → List Bytes → ℕ → ℕ
find_name key [] i = 0
find_name key (name ∷ rest) i =
    let later = find_name key rest (i + 1) in if same_bytes key name then i + 1 else later

-- Fewer than three bytes behind the blanks are no month.
unfoldable pub month_key : Bytes → ℕ
unfolding ascii_lower find_name
month_key (a ∷ b ∷ c ∷ text) =
    find_name (ascii_lower a ∷ ascii_lower b ∷ ascii_lower c ∷ []) names 0
month_key _ = 0

-- The month's number from 1, or 0.
unfoldable pub rank_month_parse : Bytes → ℕ
unfolding skip_blanks month_key
rank_month_parse text = month_key (skip_blanks text)

unfoldable pub rank_month_compare_values : ℕ → ℕ → ℤ
rank_month_compare_values a b = three_way a b

pub rank_month_compare-IsOrder :
    IsOrder (λ a b. rank_month_compare_values (rank_month_parse a) (rank_month_parse b))
unfolding rank_month_compare_values
rank_month_compare-IsOrder = IsOrder-on rank_month_parse IsOrder-three_way
