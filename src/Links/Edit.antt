-- ===== src/Links/Edit.antt =====
-- A chain after a node was appended behind its last, or taken out.
use huge_pie.Links.{Node, load}
use huge_pie.Links.Chain.{
  Has, Chain, nil, cons, last_address, first_address, last_address-ne, first_address-ne,
  Chain-frame, Has-append, Has-append_left, Has-append_right,
}
use huge_pie.Links.Cells.{nonzero}
use huge_pie.Base.{ℕ, ◌≡◌, ◌≢◌, inl, inr, refl, sym, ◌∙◌, subst, some, List, [], ◌∷◌, ◌++◌}

module _ {A : Type 0} where
  -- The node behind the last one of a chain is written, and the last one leads to it.
  pub Chain-push :
      (h g : List (Node A)) {previous p : ℕ} (x : ℕ × A) (xs : List (ℕ × A)) (a : ℕ) (y : A)
      → Chain h previous p (x ∷ xs)
      → ¬ Has a (x ∷ xs)
      → ((b : ℕ) → Has b (x ∷ xs) → last_address x.0 xs ≢ b → load g b ≡ load h b)
      → ((n : Node A)
          → load h (last_address x.0 xs) ≡ some n
          → load g (last_address x.0 xs) ≡ some (record n { next = a }))
      → load g a ≡ some (record { next = 0; previous = last_address x.0 xs; item = y })
      → Chain g previous p (x ∷ xs ++ (a, y) ∷ [])
  Chain-push h g x [] a y (cons e out (nil z)) new same last fresh =
      cons (last _ e) (λ i. elim i [ inl q ↦ new (inl (sym q)) | inr j ↦ j ])
        (cons fresh (λ i. i) (nil refl))
  Chain-push h g x (z ∷ zs) a y (cons {p} e out c) new same last fresh =
      cons (same p (inl refl) (last_address-ne p z zs out) ∙ e)
        (λ i. elim (Has-append p (z ∷ zs) ((a, y) ∷ []) i) [
          | inl j ↦ out j
          | inr j ↦ elim j [ inl q ↦ new (inl (sym q)) | inr k ↦ k ]
        ])
        (Chain-push h g z zs a y c (λ i. new (inr i)) (λ b i. same b (inr i)) last fresh)

  -- The first node of a chain is led back to another one.
  pub Chain-turn :
      (h g : List (Node A)) {previous p : ℕ} (q : ℕ) (xs : List (ℕ × A))
      → Chain h previous p xs
      → ((b : ℕ) → Has b xs → first_address xs ≢ b → load g b ≡ load h b)
      → ((n : Node A)
          → load h (first_address xs) ≡ some n
          → load g (first_address xs) ≡ some (record n { previous = q }))
      → Chain g q (first_address xs) xs
  Chain-turn h g q [] c same first = nil refl
  Chain-turn h g q (x ∷ xs) (cons {p} e out c) same first =
      cons (first _ e) out (
        Chain-frame h g c
          λ a i n l. same a (inr i) (λ f. out (subst (λ b. Has b xs) (sym f) i)) ∙ l)

  -- The nodes before and behind `y` lead to each other.
  pub Chain-cut :
      (h g : List (Node A)) {previous p : ℕ} (x : ℕ × A) (xs : List (ℕ × A)) (y : ℕ × A)
      (ys : List (ℕ × A))
      → Chain h previous p (x ∷ xs ++ y ∷ ys)
      → ((b : ℕ)
          → Has b (x ∷ xs ++ ys)
          → last_address x.0 xs ≢ b
          → first_address ys ≢ b
          → load g b ≡ load h b)
      → ((n : Node A)
          → load h (last_address x.0 xs) ≡ some n
          → load g (last_address x.0 xs) ≡ some (record n { next = first_address ys }))
      → ((n : Node A)
          → load h (first_address ys) ≡ some n
          → load g (first_address ys) ≡ some (record n { previous = last_address x.0 xs }))
      → Chain g previous p (x ∷ xs ++ ys)
  Chain-cut h g x [] y ys (cons {p} e out (cons f out' c)) same last first =
      cons (last _ e) (λ i. out (inr i))
        (Chain-turn h g p ys c
          (λ b i. same b (inr i) (λ q. out (inr (subst (λ b. Has b ys) (sym q) i)))) first)
  Chain-cut h g x (z ∷ zs) y ys (cons {p} e out c) same last first =
      cons
        (same p (inl refl)
            (last_address-ne p z zs (λ i. out (Has-append_left p (z ∷ zs) (y ∷ ys) i)))
            (first_address-ne p ys (nonzero h p e)
              (λ i. out (Has-append_right p (z ∷ zs) (y ∷ ys) (inr i))))
          ∙ e)
        (λ i. elim (Has-append p (z ∷ zs) ys i) [
          | inl j ↦ out (Has-append_left p (z ∷ zs) (y ∷ ys) j)
          | inr j ↦ out (Has-append_right p (z ∷ zs) (y ∷ ys) (inr j))
        ])
        (Chain-cut h g z zs y ys c (λ b i. same b (inr i)) last first)
