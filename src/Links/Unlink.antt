-- ===== src/Links/Unlink.antt =====
-- The two writes that take a node out of a list.
use huge_pie.Links.{turn_on, Node, load, turn_back}
use huge_pie.Links.Cells.{nonzero, set_next-Stored, Stored, set_previous-Stored, load-le}
use huge_pie.Links.Chain.{
  Chain-at, Chain-once, Kept, Within, Has-append, Has, Chain, Chain-Apart, first_address-ne,
  last_address, first_address, Chain-load, last_address-Has, Has-append_left, Has-append_right,
}
use huge_pie.Links.Edit.{Chain-cut}
use huge_pie.Base.{
  ℕ, ◌≡◌, ◌≢◌, inl, inr, zero, suc, refl, sym, ap, subst, some-injective, ◌∙◌, Option, some, List,
  [], ◌∷◌, ◌++◌, length, Returns, returns, mono, arith,
}

module _ {A : Type 0} where
  -- The links over a node lead from `p` to `q` and back; `q` may be null.
  pub record Detached (h : List (Node A)) (p q : ℕ) (g : List (Node A)) : Type 0 where
    pub others : (b : ℕ) → p ≢ b → q ≢ b → load g b ≡ load h b
    pub on : (n : Node A) → load h p ≡ some n → load g p ≡ some (record n { next = q })
    pub back : (n : Node A) → load h q ≡ some n → load g q ≡ some (record n { previous = p })
    pub size : length g ≡ length h

  -- A pointer is null, or its node is in the heap.
  abbrev pub IsLive : List (Node A) → ℕ → Type 0
  IsLive h q = q ≢ 0 → (n : Node A) × (load h q ≡ some n)

  pub same_node :
      {o : Option (Node A)} {m n : Node A} (f : Node A → Node A)
      → o ≡ some m
      → o ≡ some n
      → some (f m) ≡ some (f n)
  same_node f e l = ap (λ k. some (f k)) (some-injective _ _ (sym e ∙ l))

  no_load : (h : List (Node A)) {n : Node A} → ¬ (load h 0 ≡ some n)
  no_load h e = let le = load-le h 0 e in absurd (omega arith)

  -- The node at `q` leads back to `p`, if there is one.
  pub record Turned (h : List (Node A)) (p q : ℕ) (g : List (Node A)) : Type 0 where
    pub others : (b : ℕ) → q ≢ b → load g b ≡ load h b
    pub back : (n : Node A) → load h q ≡ some n → load g q ≡ some (record n { previous = p })
    pub size : length g ≡ length h

  pub turn_back-Turned :
      (h : List (Node A)) (p q : ℕ) → IsLive h q → Returns (Turned h p q) (turn_back h q p)
  unfolding turn_back
  turn_back-Turned h p zero live =
      returns (record { others = λ b x. refl; back = λ m l. absurd (no_load h l); size = refl })
  turn_back-Turned h p (suc q) live =
      let (n, f) = live (λ z. omega (arith, z)) in
      mono (set_previous-Stored h (suc q) p f) λ g s. record {
        others = s.others;
        back = λ m l. s.here ∙ same_node (λ j. record j { previous = p }) f l;
        size = s.size;
      }

  module _ (h g k : List (Node A)) (p q : ℕ) {n : Node A} (e : load h p ≡ some n) (ne : p ≢ q) where
    -- `if (q != NULL) q->previous = p; p->next = q;`
    pub back_on : Turned h p q g → Stored g p (record n { next = q }) k → Detached h p q k
    back_on t s = record {
      others = λ b x y. s.others b x ∙ t.others b y;
      on = λ m l. s.here ∙ same_node (λ j. record j { next = q }) e l;
      back = λ m l. s.others q ne ∙ t.back m l;
      size = s.size ∙ t.size;
    }

    -- `p->next = q; if (q != NULL) q->previous = p;`
    pub on_back : Stored h p (record n { next = q }) g → Turned g p q k → Detached h p q k
    on_back s t = record {
      others = λ b x y. t.others b y ∙ s.others b x;
      on = λ m l.
          t.others p (λ z. ne (sym z)) ∙ (s.here ∙ same_node (λ j. record j { next = q }) e l);
      back = λ m l. t.back m (s.others q ne ∙ l);
      size = t.size ∙ s.size;
    }

  -- A node of a chain behind the first, between the two that its links lead to.
  module _ (h : List (Node A)) {previous p : ℕ} (x : ℕ × A) (xs : List (ℕ × A)) (y : ℕ × A)
      (ys : List (ℕ × A)) (c : Chain h previous p (x ∷ xs ++ y ∷ ys)) where
    -- What is there on both sides.
    pub before : (n : Node A) × (load h (last_address x.0 xs) ≡ some n)
    before =
        Chain-load h c (last_address x.0 xs)
          (Has-append_left _ (x ∷ xs) (y ∷ ys) (last_address-Has x xs))

    -- They are two.
    pub apart : last_address x.0 xs ≢ first_address ys
    apart q =
        let last = last_address-Has x xs in
        first_address-ne (last_address x.0 xs) ys
          (λ z. no_load h (subst (λ b. load h b ≡ some before.0) (sym z) before.1))
          (λ i. Chain-Apart h (x ∷ xs) (y ∷ ys) c _ last (inr i)) (sym q)

    pub after : IsLive h (first_address ys)
    after z =
        first_live ys (λ a i. Chain-load h c a (Has-append_right a (x ∷ xs) (y ∷ ys) (inr i))) z
      where
        first_live :
            (zs : List (ℕ × A))
            → ((a : ℕ) → Has a zs → (n : Node A) × (load h a ≡ some n))
            → IsLive h (first_address zs)
        first_live [] f z = absurd (z refl)
        first_live (w ∷ ws) f z = f w.0 (inl refl)

    -- Without the node the rest is a chain.
    pub Detached-Chain :
        (g : List (Node A))
        → Detached h (last_address x.0 xs) (first_address ys) g
        → Chain g previous p (x ∷ xs ++ ys)
    Detached-Chain g d = Chain-cut h g x xs y ys c (λ b i. d.others b) d.on d.back

    pub off_first : first_address ys ≢ y.0
    off_first =
        first_address-ne y.0 ys (nonzero h y.0 (Chain-at h x xs y ys c))
          (Chain-once h (x ∷ xs) y ys c)

    pub off_last : last_address x.0 xs ≢ y.0
    off_last q = Chain-Apart h (x ∷ xs) (y ∷ ys) c _ (last_address-Has x xs) (inl q)

    -- Nodes outside the chain are kept.
    pub Detached-Kept :
        (g : List (Node A))
        → Detached h (last_address x.0 xs) (first_address ys) g
        → Kept (x ∷ xs ++ y ∷ ys) h g
    Detached-Kept g d a out n l =
        d.others a
          (λ q. out (
            subst (λ b. Has b (x ∷ xs ++ y ∷ ys)) q
              (Has-append_left _ (x ∷ xs) (y ∷ ys) (last_address-Has x xs))))
          (first_address-ne a ys (nonzero h a l)
            (λ i. out (Has-append_right a (x ∷ xs) (y ∷ ys) (inr i))))
        ∙ l

    pub Detached-Within : Within (x ∷ xs ++ y ∷ ys) h (x ∷ xs ++ ys)
    Detached-Within a i = elim (Has-append a (x ∷ xs) ys i) [
      | inl j ↦ inl (Has-append_left a (x ∷ xs) (y ∷ ys) j)
      | inr j ↦ inl (Has-append_right a (x ∷ xs) (y ∷ ys) (inr j))
    ]

module _ {A : Type 0} where
  pub turn_on-Stored :
      (h : List (Node A)) (p q : ℕ) {n : Node A}
      → load h p ≡ some n
      → Returns (Stored h p (record n { next = q })) (turn_on h p q)
  unfolding turn_on
  turn_on-Stored h zero q e = absurd (nonzero h 0 e refl)
  turn_on-Stored h (suc p) q e = set_next-Stored h (suc p) q e
