-- ===== src/Links.antt =====
-- The doubly linked lists of kernel/pc/mail.c and kernel/pc/pc.c: nodes with `next` and `previous` in a
-- heap. An address is 0 for the null pointer, and otherwise one more than the place of the node in the
-- heap. `kmalloc` gives an address that was never used before; `none` is a use of a null pointer.
pub mod Cells
pub mod Chain
pub mod Edit
pub mod Unlink
use huge_pie.Base.{
  ℕ, zero, suc, Option, none, some, List, [], ◌∷◌, ◌++◌, get_elem?, set, length, ◌>>=◌, ◌==◌,
  if◌then◌else◌,
}

pub record Node {ℓ} (A : Type ℓ) : Type ℓ where
  pub next : ℕ
  pub previous : ℕ
  pub item : A

module _ {ℓ} {A : Type ℓ} where
  unfoldable pub load : List (Node A) → ℕ → Option (Node A)
  load h zero = none
  load h (suc i) = get_elem? h i

  unfoldable pub store : List (Node A) → ℕ → Node A → List (Node A)
  store h zero n = h
  store h (suc i) n = set h i n

  -- The heap, and the address of the new node.
  unfoldable pub alloc : List (Node A) → Node A → List (Node A) × ℕ
  alloc h n = (h ++ n ∷ [], suc (length h))

  -- `p->next = q`
  unfoldable pub set_next : List (Node A) → ℕ → ℕ → Option (List (Node A))
  set_next h p q = do n ← load h p; some (store h p (record n { next = q }))

  -- `p->previous = q`
  unfoldable pub set_previous : List (Node A) → ℕ → ℕ → Option (List (Node A))
  set_previous h p q = do n ← load h p; some (store h p (record n { previous = q }))

  -- A write to the other fields of `*p`.
  unfoldable pub set_item : List (Node A) → ℕ → (A → A) → Option (List (Node A))
  set_item h p f = do n ← load h p; some (store h p (record n { item = f n.item }))

  -- `if (q != NULL) q->previous = p;`
  unfoldable pub turn_back : List (Node A) → ℕ → ℕ → Option (List (Node A))
  turn_back h zero p = some h
  turn_back h (suc q) p = set_previous h (suc q) p

  -- `if (p != NULL) p->next = q;`
  unfoldable pub turn_on : List (Node A) → ℕ → ℕ → Option (List (Node A))
  turn_on h zero q = some h
  turn_on h (suc p) q = set_next h (suc p) q
