-- ===== src/Links/Chain.antt =====
-- A list of nodes from an address to the null pointer, and the addresses that it owns.
use huge_pie.Links.{Node, load}
use huge_pie.Links.Cells.{load-le}
use huge_pie.Base.{
  ◌<◌, length, arith, ℕ, ◌≡◌, ◌≢◌, ◌⊎◌, inl, inr, refl, sym, ap, ◌∙◌, subst, some, List, [], ◌∷◌,
  ◌++◌,
}

module _ {A : Type 0} where
  -- The address is one of those of the nodes.
  abbrev pub Has : ℕ → List (ℕ × A) → Type 0
  Has a [] = ⊥
  Has a (x ∷ xs) = (a ≡ x.0) ⊎ Has a xs

  -- From `p` on, which follows `previous`, the nodes with these addresses and items are linked both ways.
  pub data Chain (h : List (Node A)) : ℕ → ℕ → List (ℕ × A) → Type 0 where
    nil : {previous p : ℕ} → p ≡ 0 → Chain h previous p []
    cons :
        {previous p q : ℕ} {x : A} {xs : List (ℕ × A)}
        → load h p ≡ some (record { next = q; previous = previous; item = x })
        → ¬ Has p xs
        → Chain h p q xs
        → Chain h previous p ((p, x) ∷ xs)

  -- Two lists share no node.
  abbrev pub Apart : List (ℕ × A) → List (ℕ × A) → Type 0
  Apart xs ys = (a : ℕ) → Has a xs → ¬ Has a ys

  pub Has-append : (a : ℕ) (xs ys : List (ℕ × A)) → Has a (xs ++ ys) → Has a xs ⊎ Has a ys
  Has-append a [] ys h = inr h
  Has-append a (x ∷ xs) ys h = elim h [
    | inl e ↦ inl (inl e)
    | inr r ↦ elim (Has-append a xs ys r) [ inl l ↦ inl (inr l) | inr m ↦ inr m ]
  ]

  pub Has-append_left : (a : ℕ) (xs ys : List (ℕ × A)) → Has a xs → Has a (xs ++ ys)
  Has-append_left a [] ys h = absurd h
  Has-append_left a (x ∷ xs) ys h = elim h [
    | inl e ↦ inl e
    | inr r ↦ inr (Has-append_left a xs ys r)
  ]

  pub Has-append_right : (a : ℕ) (xs ys : List (ℕ × A)) → Has a ys → Has a (xs ++ ys)
  Has-append_right a [] ys h = h
  Has-append_right a (x ∷ xs) ys h = inr (Has-append_right a xs ys h)

  -- A chain is kept where its own nodes are.
  pub Chain-frame :
      (h g : List (Node A)) {previous p : ℕ} {xs : List (ℕ × A)}
      → Chain h previous p xs
      → ((a : ℕ) → Has a xs → (n : Node A) → load h a ≡ some n → load g a ≡ some n)
      → Chain g previous p xs
  Chain-frame h g (nil e) same = nil e
  Chain-frame h g (cons {p} e out c) same =
      cons (same p (inl refl) _ e) out (Chain-frame h g c (λ a i. same a (inr i)))

  -- The address of the last node, `p` if there is none.
  abbrev pub last_address : ℕ → List (ℕ × A) → ℕ
  last_address p [] = p
  last_address p (x ∷ xs) = last_address x.0 xs

  -- The node at an address of a chain is in the heap.
  pub Chain-load :
      (h : List (Node A)) {previous p : ℕ} {xs : List (ℕ × A)}
      → Chain h previous p xs
      → (a : ℕ) → Has a xs
      → (n : Node A) × (load h a ≡ some n)
  Chain-load h (nil e) a i = absurd i
  Chain-load h (cons {p} e out c) a i = elim i [
    | inl q ↦ (_, ap (load h) q ∙ e)
    | inr r ↦ Chain-load h c a r
  ]

  -- The address of the first node, 0 if there is none.
  abbrev pub first_address : List (ℕ × A) → ℕ
  first_address [] = 0
  first_address (x ∷ xs) = x.0

  pub Chain-first :
      (h : List (Node A)) {previous p : ℕ} {xs : List (ℕ × A)}
      → Chain h previous p xs
      → p ≡ first_address xs
  Chain-first h (nil e) = e
  Chain-first h (cons e out c) = refl

  pub Chain-head :
      (h : List (Node A)) {previous p : ℕ} (x : ℕ × A) (xs : List (ℕ × A))
      → Chain h previous p (x ∷ xs)
      → load h p ≡ some (record { next = first_address xs; previous = previous; item = x.1 })
  Chain-head h {previous} x xs (cons e out c) =
      e ∙ ap (λ q. some (record { next = q; previous = previous; item = x.1 })) (Chain-first h c)

  -- A node of a chain behind others: its links lead to the one before it and to the one after it.
  pub Chain-at :
      (h : List (Node A)) {previous p : ℕ} (x : ℕ × A) (xs : List (ℕ × A)) (y : ℕ × A)
      (ys : List (ℕ × A))
      → Chain h previous p (x ∷ xs ++ y ∷ ys)
      → load h y.0
        ≡ some (record { next = first_address ys; previous = last_address x.0 xs; item = y.1 })
  Chain-at h x [] y ys (cons e out (cons f out' c)) =
      f ∙ ap (λ q. some (record { next = q; previous = x.0; item = y.1 })) (Chain-first h c)
  Chain-at h x (z ∷ zs) y ys (cons e out c) = Chain-at h z zs y ys c

  pub last_address-Has : (x : ℕ × A) (xs : List (ℕ × A)) → Has (last_address x.0 xs) (x ∷ xs)
  last_address-Has x [] = inl refl
  last_address-Has x (y ∷ ys) = inr (last_address-Has y ys)

  pub last_address-ne :
      (p : ℕ) (x : ℕ × A) (xs : List (ℕ × A)) → ¬ Has p (x ∷ xs) → last_address x.0 xs ≢ p
  last_address-ne p x xs out e = out (subst (λ b. Has b (x ∷ xs)) e (last_address-Has x xs))

  pub first_address-ne : (p : ℕ) (xs : List (ℕ × A)) → 0 ≢ p → ¬ Has p xs → first_address xs ≢ p
  first_address-ne p [] z out e = z e
  first_address-ne p (x ∷ xs) z out e = out (inl (sym e))

  pub last_address-append :
      (p : ℕ) (xs : List (ℕ × A)) (y : ℕ × A) → last_address p (xs ++ y ∷ []) ≡ y.0
  last_address-append p [] y = refl
  last_address-append p (x ∷ xs) y = last_address-append x.0 xs y

  pub Chain-Apart :
      (h : List (Node A)) {previous p : ℕ} (xs ys : List (ℕ × A))
      → Chain h previous p (xs ++ ys)
      → Apart xs ys
  Chain-Apart h [] ys c a i j = i
  Chain-Apart h (x ∷ xs) ys (cons e out c) a i j = elim i [
    | inl q ↦ out (Has-append_right x.0 xs ys (subst (λ b. Has b ys) q j))
    | inr k ↦ Chain-Apart h xs ys c a k j
  ]

  -- The nodes that are not those of a list are kept.
  abbrev pub Kept : List (ℕ × A) → List (Node A) → List (Node A) → Type 0
  Kept xs h g = (a : ℕ) → ¬ Has a xs → (n : Node A) → load h a ≡ some n → load g a ≡ some n

  -- The nodes of a list are those of another, or new.
  abbrev pub Within : List (ℕ × A) → List (Node A) → List (ℕ × A) → Type 0
  Within xs h ys = (a : ℕ) → Has a ys → Has a xs ⊎ (length h < a)

  -- A list that shares no node with the changed one stays as it is.
  pub Chain-Kept :
      (h g : List (Node A)) {previous p : ℕ} (xs ys : List (ℕ × A))
      → Chain h previous p xs
      → Kept ys h g
      → Apart xs ys
      → Chain g previous p xs
  Chain-Kept h g xs ys c keep away = Chain-frame h g c (λ a i. keep a (away a i))

  -- A changed list still shares no node with another one.
  pub Within-Apart :
      (h : List (Node A)) {previous p : ℕ} (xs ys zs : List (ℕ × A))
      → Chain h previous p zs
      → Within xs h ys
      → Apart xs zs
      → Apart ys zs
  Within-Apart h xs ys zs c within away a i j = elim (within a i) [
    | inl k ↦ away a k j
    | inr lt ↦ (let (n, e) = Chain-load h c a j in let le = load-le h a e in omega (arith, lt))
  ]

  -- The part of a chain from a node on.
  pub Chain-rest :
      (h : List (Node A)) {previous p : ℕ} (xs ys : List (ℕ × A))
      → Chain h previous p (xs ++ ys)
      → (previous' : ℕ) × (p' : ℕ) × Chain h previous' p' ys
  Chain-rest h [] ys c = (_, _, c)
  Chain-rest h (x ∷ xs) ys (cons e out c) = Chain-rest h xs ys c

  -- A node is not one of those behind it.
  pub Chain-once :
      (h : List (Node A)) {previous p : ℕ} (xs : List (ℕ × A)) (y : ℕ × A) (ys : List (ℕ × A))
      → Chain h previous p (xs ++ y ∷ ys)
      → ¬ Has y.0 ys
  Chain-once h xs y ys c = let (q, p, d) = Chain-rest h xs (y ∷ ys) c in first_once d
    where
      first_once : {q p : ℕ} → Chain h q p (y ∷ ys) → ¬ Has y.0 ys
      first_once (cons e out d) = out

  -- The chain behind the first node.
  pub Chain-behind :
      (h : List (Node A)) {previous p : ℕ} (x : ℕ × A) (xs : List (ℕ × A))
      → Chain h previous p (x ∷ xs)
      → Chain h p (first_address xs) xs
  Chain-behind h {p = p} x xs (cons e out c) = subst (λ q. Chain h p q xs) (Chain-first h c) c
