-- ===== src/Links/Cells.antt =====
-- What reading a node gives after a write to it, to another node, and after an allocation.
use huge_pie.Links.{Node, load, store, alloc, set_next, set_previous, set_item}
use huge_pie.Base.{
  ℕ, zero, suc, ◌<◌, ◌≤◌, ◌≡◌, ◌≢◌, refl, ap, some, List, [], ◌∷◌, ◌++◌, get_elem?, length, arith,
  Returns, returns, get_elem?-lt, get_elem?-set_self, get_elem?-set_ne, length-set, length-append,
}

module _ {ℓ} {A : Type ℓ} where
  pub load-le :
      (h : List (Node A)) (p : ℕ) {n : Node A} → load h p ≡ some n → (0 < p) × (p ≤ length h)
  unfolding load
  load-le h zero e = absurd cc
  load-le h (suc i) e = let lt = get_elem?-lt h i e in (omega arith, omega arith)

  pub nonzero : (h : List (Node A)) (p : ℕ) {n : Node A} → load h p ≡ some n → 0 ≢ p
  nonzero h p e q = let le = load-le h p e in omega (arith, q)

  pub load-store_self :
      (h : List (Node A)) (p : ℕ) (n : Node A)
      → 0 < p
      → p ≤ length h
      → load (store h p n) p ≡ some n
  unfolding load store
  load-store_self h zero n pos le = absurd (omega arith)
  load-store_self h (suc i) n pos le = get_elem?-set_self h i n (omega arith)

  pub load-store_ne :
      (h : List (Node A)) (p q : ℕ) (n : Node A) → p ≢ q → load (store h p n) q ≡ load h q
  unfolding load store
  load-store_ne h zero q n ne = refl
  load-store_ne h (suc i) zero n ne = refl
  load-store_ne h (suc i) (suc j) n ne = get_elem?-set_ne h i j n (λ e. ne (ap suc e))

  pub length-store : (h : List (Node A)) (p : ℕ) (n : Node A) → length (store h p n) ≡ length h
  unfolding store
  length-store h zero n = refl
  length-store h (suc i) n = length-set h i n

  get_elem?-append_left :
      (xs ys : List (Node A)) (i : ℕ) {n : Node A}
      → get_elem? xs i ≡ some n
      → get_elem? (xs ++ ys) i ≡ some n
  get_elem?-append_left [] ys i e = absurd cc
  get_elem?-append_left (x ∷ xs) ys zero e = e
  get_elem?-append_left (x ∷ xs) ys (suc i) e = get_elem?-append_left xs ys i e

  get_elem?-append_last :
      (xs : List (Node A)) (n : Node A) → get_elem? (xs ++ n ∷ []) (length xs) ≡ some n
  get_elem?-append_last [] n = refl
  get_elem?-append_last (x ∷ xs) n = get_elem?-append_last xs n

  -- A node that is there is kept by an allocation.
  pub load-alloc_old :
      (h : List (Node A)) (n : Node A) (p : ℕ) {m : Node A}
      → load h p ≡ some m
      → load (alloc h n).0 p ≡ some m
  unfolding load alloc
  load-alloc_old h n zero e = absurd cc
  load-alloc_old h n (suc i) e = get_elem?-append_left h (n ∷ []) i e

  pub load-alloc_new : (h : List (Node A)) (n : Node A) → load (alloc h n).0 (alloc h n).1 ≡ some n
  unfolding load alloc
  load-alloc_new h n = get_elem?-append_last h n

  pub alloc_address : (h : List (Node A)) (n : Node A) → (alloc h n).1 ≡ suc (length h)
  unfolding alloc
  alloc_address h n = refl

  pub length-alloc : (h : List (Node A)) (n : Node A) → length (alloc h n).0 ≡ suc (length h)
  unfolding alloc
  length-alloc h n = omega (arith, length-append h (n ∷ []))

-- The second heap is the first with the node at `p` replaced.
pub record Stored {A : Type 0} (h : List (Node A)) (p : ℕ) (n : Node A) (g : List (Node A))
    : Type 0 where
  pub here : load g p ≡ some n
  pub others : (q : ℕ) → p ≢ q → load g q ≡ load h q
  pub size : length g ≡ length h

module _ {A : Type 0} where
  pub store-Stored :
      (h : List (Node A)) (p : ℕ) {m : Node A} (n : Node A)
      → load h p ≡ some m
      → Stored h p n (store h p n)
  store-Stored h p n e = record {
    here = load-store_self h p n (load-le h p e).0 (load-le h p e).1;
    others = λ q. load-store_ne h p q n;
    size = length-store h p n;
  }

  pub set_next-Stored :
      (h : List (Node A)) (p q : ℕ) {n : Node A}
      → load h p ≡ some n
      → Returns (Stored h p (record n { next = q })) (set_next h p q)
  unfolding set_next
  set_next-Stored h p q e = rw e (returns (store-Stored h p _ e))

  pub set_previous-Stored :
      (h : List (Node A)) (p q : ℕ) {n : Node A}
      → load h p ≡ some n
      → Returns (Stored h p (record n { previous = q })) (set_previous h p q)
  unfolding set_previous
  set_previous-Stored h p q e = rw e (returns (store-Stored h p _ e))

  pub set_item-Stored :
      (h : List (Node A)) (p : ℕ) (f : A → A) {n : Node A}
      → load h p ≡ some n
      → Returns (Stored h p (record n { item = f n.item })) (set_item h p f)
  unfolding set_item
  set_item-Stored h p f e = rw e (returns (store-Stored h p _ e))
