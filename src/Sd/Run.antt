-- ===== src/Sd/Run.antt =====
-- Runs of sectors, and what block transfers do to them while the card reports success.
use huge_pie.Base.{
  ℕ, zero, suc, ◌+◌, ◌%◌, ◌^◌, ◌≤◌, ◌<◌, ◌≡◌, ◌⊎◌, inl, inr, refl, ap, ap₂, ◌∙◌, List, [], ◌∷◌,
  length, arith, ne→==, ==_refl,
}
use huge_pie.Sd.{
  Sector, Card, update, read_sector, write_sector, read_loop, write_loop, read_block, write_block,
}

-- The `k` sectors from `a` on.
abbrev pub run : (ℕ → Sector) → ℕ → ℕ → List Sector
run f a zero = []
run f a (suc k) = f a ∷ run f (a + 1) k

pub length-run : (f : ℕ → Sector) (a k : ℕ) → length (run f a k) ≡ k
length-run f a zero = refl
length-run f a (suc k) = ap suc (length-run f (a + 1) k)

-- The card after the sectors `bs` are written from `a` on.
abbrev pub store : (ℕ → Sector) → ℕ → List Sector → ℕ → Sector
store f a [] = f
store f a (b ∷ bs) = store (update f a b) (a + 1) bs

abbrev pub Apart : ℕ → ℕ → ℕ → Type 0
Apart k a b = (a + k ≤ b) ⊎ (b + k ≤ a)

pub store-below : (f : ℕ → Sector) (a : ℕ) (bs : List Sector) (s : ℕ) → s < a → store f a bs s ≡ f s
store-below f a [] s h = refl
store-below f a (b ∷ bs) s h =
    store-below (update f a b) (a + 1) bs s (omega arith) ∙ rw (ne→== s a (omega arith))

pub store-above :
    (f : ℕ → Sector) (a : ℕ) (bs : List Sector) (s : ℕ) → a + length bs ≤ s → store f a bs s ≡ f s
store-above f a [] s h = refl
store-above f a (b ∷ bs) s h =
    store-above (update f a b) (a + 1) bs s (omega arith) ∙ rw (ne→== s a (omega arith))

run_congr :
    (f g : ℕ → Sector) (a k : ℕ) → ((s : ℕ) → a ≤ s → s < a + k → f s ≡ g s) → run f a k ≡ run g a k
run_congr f g a zero h = refl
run_congr f g a (suc k) h =
    ap₂ ◌∷◌ (h a (omega arith) (omega arith))
      (run_congr f g (a + 1) k (λ s p q. h s (omega arith) (omega arith)))

-- A run apart from what is written is as it was.
pub run-store-Apart :
    (f : ℕ → Sector) (a b k : ℕ) (bs : List Sector)
    → length bs ≡ k
    → Apart k a b
    → run (store f a bs) b k ≡ run f b k
run-store-Apart f a b k bs e (inl p) =
    run_congr _ _ b k (λ s l h. store-above f a bs s (omega arith))
run-store-Apart f a b k bs e (inr p) =
    run_congr _ _ b k (λ s l h. store-below f a bs s (omega arith))

-- What is written is read.
pub run-store_self :
    (f : ℕ → Sector) (a : ℕ) (bs : List Sector) → run (store f a bs) a (length bs) ≡ bs
run-store_self f a [] = refl
run-store_self f a (b ∷ bs) =
    ap₂ ◌∷◌ (store-below (update f a b) (a + 1) bs a (omega arith) ∙ rw (==_refl a))
      (run-store_self (update f a b) (a + 1) bs)

-- A card with these sectors, and no event left that could report a failure.
abbrev pub settled : (ℕ → Sector) → Card
settled f = record { sectors = f; events = [] }

read_loop_ready :
    (f : ℕ → Sector) (a : ℕ) (bs : List Sector)
    → a + length bs ≤ 2 ^ 32
    → read_loop a bs (settled f) ≡ (0, run f a (length bs), settled f)
unfolding read_loop read_sector
read_loop_ready f a [] h = refl
read_loop_ready f a (b ∷ []) h = refl
read_loop_ready f a (b ∷ c ∷ bs) h =
    let wrap : (a + 1) % 2 ^ 32 ≡ a + 1 = omega arith in
    ap {B = ℕ × List Sector × Card} (λ r. (r.0, f a ∷ r.1, r.2))
      (ap (λ x. read_loop x (c ∷ bs) (settled f)) wrap
        ∙ read_loop_ready f (a + 1) (c ∷ bs) (omega arith))

write_loop_ready :
    (f : ℕ → Sector) (a : ℕ) (bs : List Sector)
    → a + length bs ≤ 2 ^ 32
    → write_loop a bs (settled f) ≡ (0, settled (store f a bs))
unfolding write_loop write_sector
write_loop_ready f a [] h = refl
write_loop_ready f a (b ∷ []) h = refl
write_loop_ready f a (b ∷ c ∷ bs) h =
    let wrap : (a + 1) % 2 ^ 32 ≡ a + 1 = omega arith in
    rw (wrap, write_loop_ready (update f a b) (a + 1) (c ∷ bs) (omega arith))

-- On a card that reports no failure a block read returns 0 and the run of sectors.
pub read_block_ready :
    (f : ℕ → Sector) (a : ℕ) (bs : List Sector)
    → a + length bs ≤ 2 ^ 32
    → read_block bs a (settled f) ≡ (0, run f a (length bs), settled f)
unfolding read_block
read_block_ready f a [] h = read_loop_ready f a [] h
read_block_ready f a (b ∷ []) h = unfold read_sector in refl
read_block_ready f a (b ∷ c ∷ bs) h = read_loop_ready f a (b ∷ c ∷ bs) h

-- A block write returns 0 and leaves the card with the sectors written.
pub write_block_ready :
    (f : ℕ → Sector) (a : ℕ) (bs : List Sector)
    → a + length bs ≤ 2 ^ 32
    → write_block bs a (settled f) ≡ (0, settled (store f a bs))
unfolding write_block
write_block_ready f a [] h = write_loop_ready f a [] h
write_block_ready f a (b ∷ []) h = unfold write_sector in refl
write_block_ready f a (b ∷ c ∷ bs) h = write_loop_ready f a (b ∷ c ∷ bs) h

-- On a card that reports no failure, a block that is written reads back, into a buffer of the same
-- size, and any block apart from it reads as before.
pub write-read :
    (f : ℕ → Sector) (a b : ℕ) (bs old : List Sector)
    → length old ≡ length bs
    → a + length bs ≤ 2 ^ 32
    → b + length bs ≤ 2 ^ 32
    → Apart (length bs) a b
    → ((read_block old a (write_block bs a (settled f)).1).1 ≡ bs)
      × ((read_block old b (write_block bs a (settled f)).1).1 ≡ (read_block old b (settled f)).1)
write-read f a b bs old e ha hb apart =
    rw
      (
        write_block_ready f a bs ha,
        read_block_ready (store f a bs) a old (omega arith),
        read_block_ready (store f a bs) b old (omega arith),
        read_block_ready f b old (omega arith),
        e,
      )
      (run-store_self f a bs, run-store-Apart f a b (length bs) bs refl apart)
