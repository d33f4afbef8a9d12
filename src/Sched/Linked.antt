-- ===== src/Sched/Linked.antt =====
-- The task lists of kernel/pc/pc.c: four doubly linked lists on nodes of their own.
use huge_pie.Sched.{Slot, pri_queue_num}
use huge_pie.Links.{Node}
use huge_pie.Links.Chain.{Chain, Apart, Kept, Within, Chain-Kept, Within-Apart}
use huge_pie.Base.{
  ℕ, zero, suc, ◌+◌, ◌≤◌, ◌≡◌, ◌≢◌, inl, inr, refl, sym, List, ◌∷◌, length, All, ◌==◌,
  if◌then◌else◌, ==_refl, ne→==, ==→eq, ==→ne, Bool-cases, subst, arith,
}

-- The list of a level is replaced.
abbrev pub replaced {ℓ} : {A : Type ℓ} → (ℕ → A) → ℕ → A → ℕ → A
replaced q p xs j = if p == j then xs else q j

pub replaced_self {ℓ} : {A : Type ℓ} (q : ℕ → A) (p : ℕ) (x : A) → replaced q p x p ≡ x
replaced_self q p x = rw (==_refl p) refl

pub replaced_ne {ℓ} : {A : Type ℓ} (q : ℕ → A) (p j : ℕ) (x : A) → p ≢ j → replaced q p x j ≡ q j
replaced_ne q p j x ne = rw (ne→== p j ne) refl

-- A fact on a changed list, from the one at the changed level and those at the others.
pub replaced-all {ℓ} :
    {A : Type ℓ} (P : ℕ → A → Type 0) (q : ℕ → A) (p : ℕ) (x : A)
    → P p x
    → ((j : ℕ) → p ≢ j → P j (q j))
    → (j : ℕ) → P j (replaced q p x j)
replaced-all P q p x here others j = elim (Bool-cases (p == j)) [
  | inl y ↦
      (let e = ==→eq p j y in
        subst (λ i. P i (replaced q p x i)) e (subst (P p) (sym (replaced_self q p x)) here))
  | inr n ↦ (let ne = ==→ne p j n in subst (P j) (sym (replaced_ne q p j x ne)) (others j ne))
]

abbrev pub Lists : Type 0
Lists = ℕ → List (ℕ × Slot)

-- The nodes of a level, with the one at its head, which has no task.
abbrev pub nodes_of : (ℕ → ℕ) → Lists → ℕ → List (ℕ × Slot)
nodes_of heads lists l = (heads l, record { task = 0; level = l }) ∷ lists l

-- The lists of all levels, linked both ways.
pub record Linked (heads : ℕ → ℕ) (lists : Lists) (h : List (Node Slot)) : Type 0 where
  pub chains : (l : ℕ) → l ≤ pri_queue_num → Chain h 0 (heads l) (nodes_of heads lists l)
  pub apart :
      (l m : ℕ)
      → l ≤ pri_queue_num
      → m ≤ pri_queue_num
      → l ≢ m
      → Apart (nodes_of heads lists l) (nodes_of heads lists m)
  pub levels : (l : ℕ) → l ≤ pri_queue_num → All (λ x. x.1.level ≡ l) (lists l)

-- How many tasks there are in the lists.
abbrev pub total : Lists → ℕ
total lists = length (lists 0) + (length (lists 1) + (length (lists 2) + length (lists 3)))

pub length-total : (lists : Lists) (l : ℕ) → l ≤ pri_queue_num → length (lists l) ≤ total lists
length-total lists zero le = omega arith
length-total lists (suc zero) le = omega arith
length-total lists (suc (suc zero)) le = omega arith
length-total lists (suc (suc (suc zero))) le = omega arith
length-total lists (suc (suc (suc (suc n)))) le = absurd (omega arith)

pub length-replaced :
    (lists : Lists) (l : ℕ) (xs : List (ℕ × Slot))
    → length xs ≡ length (lists l)
    → (m : ℕ) → length (replaced lists l xs m) ≡ length (lists m)
length-replaced lists l xs e m =
    replaced-all (λ j ys. length ys ≡ length (lists j)) lists l xs e (λ j ne. refl) m

-- A list is replaced by one that is as long.
pub total-replaced :
    (lists : Lists) (l : ℕ) (xs : List (ℕ × Slot))
    → length xs ≡ length (lists l)
    → total (replaced lists l xs) ≡ total lists
total-replaced lists l xs e = omega (
  arith,
  length-replaced lists l xs e 0,
  length-replaced lists l xs e 1,
  length-replaced lists l xs e 2,
  length-replaced lists l xs e 3,
)

module _ (heads : ℕ → ℕ) (lists : Lists) (h g : List (Node Slot)) (v : Linked heads lists h) (l : ℕ)
    (le : l ≤ pri_queue_num) (ys : List (ℕ × Slot))
    (c : Chain g 0 (heads l) ((heads l, record { task = 0; level = l }) ∷ ys))
    (levels : All (λ x. x.1.level ≡ l) ys) (keep : Kept (nodes_of heads lists l) h g)
    (within : Within
      (nodes_of heads lists l)
      h
      ((heads l, record { task = 0; level = l }) ∷ ys)) where
  -- The nodes of a level when the list is the given one.
  abbrev with_list : ℕ → List (ℕ × Slot) → List (ℕ × Slot)
  with_list j xs = (heads j, record { task = 0; level = j }) ∷ xs

  Apart-from : (j : ℕ) → j ≤ pri_queue_num → l ≢ j → Apart (with_list l ys) (nodes_of heads lists j)
  Apart-from j k ne =
      Within-Apart h (nodes_of heads lists l) (with_list l ys) (nodes_of heads lists j)
        (v.chains j k) within (v.apart l j le k ne)

  -- The list of one level is replaced by one on its own nodes and new ones.
  pub replaced-Linked : Linked heads (replaced lists l ys) g
  replaced-Linked = record {
    chains =
        replaced-all (λ j xs. j ≤ pri_queue_num → Chain g 0 (heads j) (with_list j xs)) lists l ys
          (λ k. c)
          (λ j ne k.
            Chain-Kept h g _ (nodes_of heads lists l) (v.chains j k) keep
              (λ a i n. v.apart l j le k ne a n i));
    apart = λ i j.
        replaced-all
          (λ i xs.
            i ≤ pri_queue_num
            → j ≤ pri_queue_num
            → i ≢ j
            → Apart (with_list i xs) (with_list j (replaced lists l ys j)))
          lists l ys
          (λ m k ne.
            subst (λ xs. Apart (with_list l ys) (with_list j xs))
              (sym (replaced_ne lists l j ys ne)) (Apart-from j k ne))
          (λ i ni m.
            replaced-all
              (λ j xs. j ≤ pri_queue_num → i ≢ j → Apart (with_list i (lists i)) (with_list j xs))
              lists l ys (λ k ne a x y. Apart-from i m ni a y x) (λ j nj k ne. v.apart i j m k ne)
              j)
          i;
    levels =
        replaced-all (λ j xs. j ≤ pri_queue_num → All (λ x. x.1.level ≡ j) xs) lists l ys
          (λ k. levels) (λ j ne k. v.levels j k);
  }
