-- ===== src/Locale.antt =====
-- src/locale.c: comparison of byte spans, raw or by the locale's `strcoll`.
pub mod Lex
pub mod Collate
use Prim.Native.Nat.{ℕ, zero, suc}
use rank.Base.{
  Bool, true, false, List, [], ◌∷◌, ◌++◌, ℤ, pos, negsuc, is_zero, sub_ℕ, three_way, unit_sign, ltb,
  ◌==◌, if◌then◌else◌, length, Bytes,
}

-- libc's `memcmp` over the first `n` bytes: the sign of the first difference. A read past either
-- span does not happen, since `n` is at most both lengths.
unfoldable pub memcmp : ℕ → Bytes → Bytes → ℤ
memcmp (suc n) (x ∷ a) (y ∷ b) = let rest = memcmp n a b in if x == y then rest else sub_ℕ x y
memcmp _ _ _ = pos 0

-- `compare_bytes`: the common prefix, then the shorter span first.
unfoldable pub compare_bytes : Bytes → Bytes → ℤ
unfolding memcmp
compare_bytes a b =
    let common = if ltb (length a) (length b) then length a else length b in
    let result = memcmp common a b in
    let by_len = three_way (length a) (length b) in
    if ltb 0 common then (if is_zero result then by_len else unit_sign result) else by_len

-- The locale as the program sees it: whether collation is the identity (`probe_collation_identity`)
-- and libc's `strcoll` on strings without NUL.
pub record Locale : Type 0 where
  pub identity : Bool
  pub strcoll : Bytes → Bytes → ℤ

-- The NUL-terminated strings that `text` with a NUL behind it is made of.
unfoldable pub segments : Bytes → Bytes → List Bytes
segments seg [] = seg ∷ []
segments seg (c ∷ text) =
    let cut = seg ∷ segments [] text in
    let longer = segments (seg ++ c ∷ []) text in if c == 0 then cut else longer

-- `collate_segments`: the loop over the segments of both strings; `a_size == 0` is `[]`.
unfoldable pub collate_segments : (Bytes → Bytes → ℤ) → List Bytes → List Bytes → ℤ
collate_segments strcoll (a ∷ as') (b ∷ bs) =
    let rest = collate_segments strcoll as' bs in
    let diff = strcoll a b in if is_zero diff then rest else unit_sign diff
collate_segments strcoll [] [] = pos 0
collate_segments strcoll [] (b ∷ bs) = negsuc 0
collate_segments strcoll (a ∷ as') [] = pos 1

unfoldable pub rank_locale_compare : Locale → Bytes → Bytes → ℤ
rank_locale_compare loc a b =
    if loc.identity
    then compare_bytes a b
    else if length a == length b
    then (if length a == 0
        then pos 0
        else if is_zero (memcmp (length a) a b)
        then pos 0
        else collate_segments loc.strcoll (segments [] a) (segments [] b))
    else collate_segments loc.strcoll (segments [] a) (segments [] b)
