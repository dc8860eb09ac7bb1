-- ===== src/Radix/Scatter/Blocks.antt =====
-- The scatter of a counting sort writes the buckets one behind the other, each in input order.
use Prim.Native.Nat.{ℕ, zero, suc, ◌+◌, ◌<◌}
use mathlib.Core.Path.{subst}
use rank.Base.{
  ◌≡◌, refl, sym, ap, ap₂, ◌∙◌, List, [], ◌∷◌, ◌++◌, append_assoc, arith, ◌==◌, length,
  length-append, set, All, keep-nil,
}
use rank.Radix.Scatter.{entry, increment, scatter}
use rank.Radix.Scatter.Counts.{layer, layer-here, layer-other}

-- `aux` as blocks, one for each bucket: what is written, and what is behind `next`.
abbrev pub Block {ℓ} : Type ℓ → Type ℓ
Block A = List A × List A

module _ {ℓ} {A : Type ℓ} where
  abbrev pub flat : List (Block A) → List A
  flat [] = []
  flat ((f, r) ∷ blocks) = f ++ (r ++ flat blocks)

  abbrev pub nexts : ℕ → List (Block A) → List ℕ
  nexts start [] = []
  nexts start ((f, r) ∷ blocks) = (start + length f) ∷ nexts (start + length f + length r) blocks

  abbrev tail : List A → List A
  tail [] = []
  tail (x ∷ xs) = xs

  -- A write to block `b`.
  abbrev write : ℕ → A → List (Block A) → List (Block A)
  write b x [] = []
  write zero x ((f, r) ∷ blocks) = (f ++ (x ∷ []), tail r) ∷ blocks
  write (suc b) x (block ∷ blocks) = block ∷ write b x blocks

  -- Block `b` has room.
  abbrev HasRoom : ℕ → List (Block A) → Type 0
  HasRoom b [] = ⊥
  HasRoom zero ((f, r) ∷ blocks) = 0 < length r
  HasRoom (suc b) (block ∷ blocks) = HasRoom b blocks

  set-append : (p : List A) (y x : A) (q : List A) → set (p ++ (y ∷ q)) (length p) x ≡ p ++ (x ∷ q)
  set-append [] y x q = refl
  set-append (z ∷ p) y x q = ap (◌∷◌ z) (set-append p y x q)

  set_block :
      (p f r : List A) (x : A) (rest : List A)
      → 0 < length r
      → set (p ++ (f ++ (r ++ rest))) (length p + length f) x
        ≡ p ++ ((f ++ (x ∷ [])) ++ (tail r ++ rest))
  set_block p f [] x rest h = absurd (omega arith)
  set_block p f (y ∷ r) x rest h =
      ap₂ (λ l i. set l i x) (sym (append_assoc p f (y ∷ (r ++ rest)))) (sym (length-append p f))
      ∙ set-append (p ++ f) y x (r ++ rest)
      ∙ append_assoc p f (x ∷ (r ++ rest))
      ∙ ap (λ l. p ++ l) (sym (append_assoc f (x ∷ []) (r ++ rest)))

  set-write :
      (b : ℕ) (x : A) (p : List A) (blocks : List (Block A))
      → HasRoom b blocks
      → set (p ++ flat blocks) (entry (nexts (length p) blocks) b) x ≡ p ++ flat (write b x blocks)
  set-write b x p [] h = absurd h
  set-write zero x p ((f, r) ∷ blocks) h = set_block p f r x (flat blocks) h
  set-write (suc b) x p ((f, r) ∷ blocks) h =
      let q = p ++ (f ++ r) in
      let size : length q ≡ length p + length f + length r =
        omega (arith, length-append p (f ++ r), length-append f r) in
      let regroup : (l : List A) → p ++ (f ++ (r ++ l)) ≡ q ++ l =
        λ l. ap (λ t. p ++ t) (sym (append_assoc f r l)) ∙ sym (append_assoc p (f ++ r) l) in
      ap₂ (λ l n. set l (entry (nexts n blocks) b) x) (regroup (flat blocks)) (sym size)
      ∙ set-write b x q blocks h
      ∙ sym (regroup (flat (write b x blocks)))

  increment-write :
      (b start : ℕ) (x : A) (blocks : List (Block A))
      → HasRoom b blocks
      → increment (nexts start blocks) b ≡ nexts start (write b x blocks)
  increment-write b start x [] h = absurd h
  increment-write zero start x ((f, []) ∷ blocks) h = absurd (omega arith)
  increment-write zero start x ((f, y ∷ r) ∷ blocks) h =
      let size : length (f ++ (x ∷ [])) ≡ length f + 1 = length-append f (x ∷ []) in
      ap₂ (λ n m. n ∷ nexts m blocks) (omega (arith, size)) (omega (arith, size))
  increment-write (suc b) start x ((f, r) ∷ blocks) h =
      ap (◌∷◌ (start + length f)) (increment-write b (start + length f + length r) x blocks h)

module _ {ℓ} {A : Type ℓ} (bucket : A → ℕ) where
  -- The rooms of the blocks, from bucket `k` on, are what the items that are left need.
  abbrev pub Fits : ℕ → List (Block A) → List A → Type 0
  Fits k [] items = Unit
  Fits k ((f, r) ∷ blocks) items =
      (length r ≡ length (layer bucket k items)) × Fits (suc k) blocks items

  -- The blocks once the items are written.
  abbrev pub filled : ℕ → List (Block A) → List A → List A
  filled k [] items = []
  filled k ((f, r) ∷ blocks) items = f ++ (layer bucket k items ++ filled (suc k) blocks items)

  Fits-later :
      (k : ℕ) (blocks : List (Block A)) (x : A) (items : List A)
      → bucket x < k
      → Fits k blocks (x ∷ items)
      → Fits k blocks items
  Fits-later k [] x items h fits = tt
  Fits-later k ((f, r) ∷ blocks) x items h (e, fits) = (
    e ∙ ap length (layer-other bucket x items k (ground arith)),
    Fits-later (suc k) blocks x items (omega arith) fits,
  )

  filled-later :
      (k : ℕ) (blocks : List (Block A)) (x : A) (items : List A)
      → bucket x < k
      → filled k blocks (x ∷ items) ≡ filled k blocks items
  filled-later k [] x items h = refl
  filled-later k ((f, r) ∷ blocks) x items h =
      ap₂ (λ l m. f ++ (l ++ m)) (layer-other bucket x items k (ground arith))
        (filled-later (suc k) blocks x items (omega arith))

  layer_first :
      (k : ℕ) (x : A) (items : List A)
      → bucket x ≡ k
      → layer bucket k (x ∷ items) ≡ x ∷ layer bucket k items
  layer_first k x items e =
      subst (λ b. layer bucket b (x ∷ items) ≡ x ∷ layer bucket b items) e
        (layer-here bucket x items)

  -- An item finds room in its block, and the rest fits into what is left.
  write-Fits :
      (k b : ℕ) (blocks : List (Block A)) (x : A) (items : List A)
      → bucket x ≡ k + b
      → b < length blocks
      → Fits k blocks (x ∷ items)
      → HasRoom b blocks
        × Fits k (write b x blocks) items
        × (filled k (write b x blocks) items ≡ filled k blocks (x ∷ items))
  write-Fits k b [] x items e h fits = absurd (omega arith)
  write-Fits k zero ((f, r) ∷ blocks) x items e h (size, fits) =
      let first = layer_first k x items (omega arith) in
      let room : length r ≡ suc (length (layer bucket k items)) = size ∙ ap length first in
      (
        omega arith,
        (shorter r room, Fits-later (suc k) blocks x items (omega arith) fits),
        append_assoc f (x ∷ []) (layer bucket k items ++ filled (suc k) blocks items)
            ∙ ap₂ (λ l m. f ++ (l ++ m)) (sym first)
                (sym (filled-later (suc k) blocks x items (omega arith))),
      )
    where
      shorter :
          (s : List A)
          → length s ≡ suc (length (layer bucket k items))
          → length (tail s) ≡ length (layer bucket k items)
      shorter [] q = absurd (omega arith)
      shorter (y ∷ s) q = omega arith
  write-Fits k (suc b) ((f, r) ∷ blocks) x items e h (size, fits) =
      let other = layer-other bucket x items k (ground arith) in
      let (room, rest, same) =
        write-Fits (suc k) b blocks x items (omega arith) (omega arith) fits in
      (room, (size ∙ ap length other, rest), ap₂ (λ l m. f ++ (l ++ m)) (sym other) same)

  length-write :
      (b : ℕ) (x : A) (blocks : List (Block A)) → length (write b x blocks) ≡ length blocks
  length-write b x [] = refl
  length-write zero x (block ∷ blocks) = refl
  length-write (suc b) x (block ∷ blocks) = ap suc (length-write b x blocks)

  no_room : (k : ℕ) (blocks : List (Block A)) → Fits k blocks [] → flat blocks ≡ filled k blocks []
  no_room k [] fits = refl
  no_room k ((f, []) ∷ blocks) (e, fits) =
      ap₂ (λ l m. f ++ (l ++ m)) (sym (keep-nil (λ x. bucket x == k))) (no_room (suc k) blocks fits)
  no_room k ((f, y ∷ r) ∷ blocks) (e, fits) =
      absurd (omega (arith, e ∙ ap length (keep-nil (λ x. bucket x == k))))

  pub scatter-filled :
      (items : List A) (blocks : List (Block A))
      → All (λ x. bucket x < length blocks) items
      → Fits 0 blocks items
      → scatter bucket items (nexts 0 blocks) (flat blocks) ≡ filled 0 blocks items
  unfolding scatter
  scatter-filled [] blocks h fits = no_room 0 blocks fits
  scatter-filled (x ∷ items) blocks (p, h) fits =
      let (room, rest, same) = write-Fits 0 (bucket x) blocks x items (omega arith) p fits in
      ap₂ (scatter bucket items) (increment-write (bucket x) 0 x blocks room)
        (set-write (bucket x) x [] blocks room)
      ∙ scatter-filled items (write (bucket x) x blocks) (rw (length-write (bucket x) x blocks) h)
          rest
      ∙ same
