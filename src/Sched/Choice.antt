-- ===== src/Sched/Choice.antt =====
-- `pc_find_next` of kernel/pc/pc.c: what it may choose, and what it leaves.
use huge_pie.Sched.{Sched, Slot}
use huge_pie.Sched.Schedule.{is_ready}
use huge_pie.Sched.Linked.{Lists, Linked, total}
use huge_pie.Sched.Count.{count, count_ne, Reordered}
use huge_pie.Sched.Invariant.{IsQueue}
use huge_pie.Links.{Node}
use huge_pie.Base.{
  ℕ, ◌<◌, ◌≡◌, ◌≢◌, inl, inr, refl, ap, true, some, List, [], ◌∷◌, ◌++◌, All, ◌==◌, subst, arith,
  Bool-cases, ==→eq, ==→ne,
}

-- The process that is chosen: a ready one, or the current one if that is the idle process.
pub data Chosen (lists : Lists) (s : Sched) (idle_current : Type 0) (n : ℕ) : Type 0 where
  switched :
      (l : ℕ)
      → IsQueue l
      → n ≢ s.current_task
      → 0 < count n (lists l)
      → is_ready s.tasks n ≡ some true
      → Chosen lists s idle_current n
  stayed : n ≡ s.current_task → idle_current → Chosen lists s idle_current n

-- The choice, and the lists, of which one may be in another order. That of the current process is as it was.
pub record Next (heads : ℕ → ℕ) (lists : Lists) (s : Sched) (lc : ℕ) (idle_current : Type 0)
    (r : ℕ × Sched) : Type 0 where
  pub nodes : List (Node Slot)
  pub lists' : Lists
  pub result : r.1 ≡ record s { nodes = nodes }
  pub linked : Linked heads lists' nodes
  pub reordered : Reordered lists lists'
  pub same : lists' lc ≡ lists lc
  pub size : total lists' ≡ total lists
  pub exits : lists' 3 ≡ lists 3
  pub chosen : Chosen lists s idle_current r.0

pub count-All :
    (P : ℕ → Type 0) (xs : List (ℕ × Slot))
    → All (λ x. P x.1.task) xs
    → (p : ℕ) → 0 < count p xs
    → P p
count-All P [] all p lt = absurd (omega arith)
count-All P (x ∷ xs) all p lt = elim (Bool-cases (x.1.task == p)) [
  | inl y ↦ subst P (==→eq x.1.task p y) all.0
  | inr n ↦ count-All P xs all.1 p (subst (λ k. 0 < k) (count_ne p x xs (==→ne x.1.task p n)) lt)
]

pub append-snoc :
    (ys : List (ℕ × Slot)) (x : ℕ × Slot) (zs : List (ℕ × Slot))
    → ys ++ x ∷ zs ≡ (ys ++ x ∷ []) ++ zs
append-snoc [] x zs = refl
append-snoc (y ∷ ys) x zs = ap (λ xs. y ∷ xs) (append-snoc ys x zs)
