-- ===== src/Sched/Walk.antt =====
-- The walks over a task list of kernel/pc/pc.c.
use huge_pie.Sched.{Slot, Task, pc_ready, task_at}
use huge_pie.Sched.Lists.{find_node_loop, tail_loop}
use huge_pie.Sched.Schedule.{is_ready, available_loop}
use huge_pie.Links.{Node}
use huge_pie.Links.Chain.{Chain, nil, cons, last_address}
use huge_pie.Links.Cells.{nonzero}
use huge_pie.Base.{
  ℕ, zero, suc, ◌<◌, ◌≡◌, inl, inr, refl, sym, ap, ◌∙◌, ℤ, true, false, some, List, [], ◌∷◌, ◌++◌,
  length, All, eqb_ℤ, ◌==◌, ne→==, arith, Bool-cases,
}

-- The node has a task with a property.
abbrev pub Tasked : (Task → Type 0) → List Task → ℕ × Slot → Type 0
Tasked P tasks x = (t : Task) × (task_at tasks x.1.task ≡ some t) × P t

-- Its task is not ready, or it has none.
abbrev pub NotReady : List Task → ℕ × Slot → Type 0
NotReady tasks x = is_ready tasks x.1.task ≡ some false

-- Its task has another id.
abbrev pub IsOther : ℤ → List Task → ℕ × Slot → Type 0
IsOther pid = Tasked (λ t. eqb_ℤ t.pid pid ≡ false)

task_nonzero : (tasks : List Task) (p : ℕ) {t : Task} → task_at tasks p ≡ some t → (p == 0) ≡ false
unfolding task_at
task_nonzero tasks zero e = absurd cc
task_nonzero tasks (suc i) e = ne→== (suc i) 0 (λ z. omega (arith, z))

module _ (fuel : ℕ) (tasks : List Task) (h : List (Node Slot)) where
  -- The first node that has the process.
  pub find_loop_at :
      (n : ℕ) (pid : ℤ) {previous p : ℕ} (ys : List (ℕ × Slot)) (x : ℕ × Slot)
      (zs : List (ℕ × Slot))
      → Chain h previous p (ys ++ x ∷ zs)
      → length ys < n
      → All (IsOther pid tasks) ys
      → Tasked (λ t. eqb_ℤ t.pid pid ≡ true) tasks x
      → find_node_loop fuel n tasks h pid p ≡ some x.0
  unfolding find_node_loop
  find_loop_at n pid {p = zero} [] x zs (cons e out c) lt others here = absurd (nonzero h 0 e refl)
  find_loop_at zero pid {p = suc p} [] x zs (cons e out c) lt others here = absurd (omega arith)
  find_loop_at (suc n) pid {p = suc p} [] x zs (cons e out c) lt others (t, at, same) =
      rw (e, task_nonzero tasks x.1.task at, at, same) refl
  find_loop_at n pid {p = zero} (y ∷ ys) x zs (cons e out c) lt others here =
      absurd (nonzero h 0 e refl)
  find_loop_at zero pid {p = suc p} (y ∷ ys) x zs (cons e out c) lt others here =
      absurd (omega arith)
  find_loop_at (suc n) pid {p = suc p} (y ∷ ys) x zs (cons e out c) lt ((t, at, other), others)
        here =
      rw
        (
          e,
          task_nonzero tasks y.1.task at,
          at,
          other,
          find_loop_at n pid ys x zs c (omega arith) others here,
        )
        refl

  -- The first node whose task is ready.
  pub available_at :
      (n : ℕ) {previous p : ℕ} (ys : List (ℕ × Slot)) (x : ℕ × Slot) (zs : List (ℕ × Slot))
      → Chain h previous p (ys ++ x ∷ zs)
      → length ys < n
      → All (NotReady tasks) ys
      → is_ready tasks x.1.task ≡ some true
      → available_loop fuel n tasks h p ≡ some x.0
  unfolding available_loop
  available_at n {p = zero} [] x zs (cons e out c) lt others here = absurd (nonzero h 0 e refl)
  available_at zero {p = suc p} [] x zs (cons e out c) lt others here = absurd (omega arith)
  available_at (suc n) {p = suc p} [] x zs (cons e out c) lt others here = rw (e, here) refl
  available_at n {p = zero} (y ∷ ys) x zs (cons e out c) lt others here =
      absurd (nonzero h 0 e refl)
  available_at zero {p = suc p} (y ∷ ys) x zs (cons e out c) lt others here = absurd (omega arith)
  available_at (suc n) {p = suc p} (y ∷ ys) x zs (cons e out c) lt (other, others) here =
      rw (e, other, available_at n ys x zs c (omega arith) others here) refl

  -- No node with a ready task.
  pub available_none :
      (n : ℕ) {previous p : ℕ} (ys : List (ℕ × Slot))
      → Chain h previous p ys
      → length ys < n
      → All (NotReady tasks) ys
      → available_loop fuel n tasks h p ≡ some 0
  unfolding available_loop
  available_none n [] (nil e) lt others = rw e refl
  available_none n {p = zero} (y ∷ ys) (cons e out c) lt others = absurd (nonzero h 0 e refl)
  available_none zero {p = suc p} (y ∷ ys) (cons e out c) lt others = absurd (omega arith)
  available_none (suc n) {p = suc p} (y ∷ ys) (cons e out c) lt (other, others) =
      rw (e, other, available_none n ys c (omega arith) others) refl

  -- The last node.
  pub tail_loop_last :
      (n : ℕ) {previous p : ℕ} (x : ℕ × Slot) (xs : List (ℕ × Slot))
      → Chain h previous p (x ∷ xs)
      → length xs < n
      → tail_loop fuel n h p ≡ some (last_address x.0 xs)
  unfolding tail_loop
  tail_loop_last n {p = zero} x xs (cons e out c) lt = absurd (nonzero h 0 e refl)
  tail_loop_last zero {p = suc p} x xs (cons e out c) lt = absurd (omega arith)
  tail_loop_last (suc n) {p = suc p} x [] (cons e out (nil z)) lt = rw (e, z) refl
  tail_loop_last (suc n) {p = suc p} x (y ∷ ys) (cons e out (cons f out' c)) lt =
      rw
        (
          e,
          ne→== y.0 0 (λ z. nonzero h y.0 f (sym z)),
          tail_loop_last n y ys (cons f out' c) (omega arith),
        )
        refl

-- Every list has a first node with a ready task, or none.
pub data ReadySplit (tasks : List Task) : List (ℕ × Slot) → Type 0 where
  none_ready : {xs : List (ℕ × Slot)} → All (NotReady tasks) xs → ReadySplit tasks xs
  first_ready :
      (ys : List (ℕ × Slot)) (x : ℕ × Slot) (zs : List (ℕ × Slot))
      → All (NotReady tasks) ys
      → is_ready tasks x.1.task ≡ some true
      → ReadySplit tasks (ys ++ x ∷ zs)

-- The node has a task.
abbrev pub HasTask : List Task → ℕ × Slot → Type 0
HasTask tasks x = (t : Task) × (task_at tasks x.1.task ≡ some t)

pub is_ready_lem :
    (tasks : List Task) (p : ℕ) {t : Task}
    → task_at tasks p ≡ some t
    → is_ready tasks p ≡ some (t.state == pc_ready)
unfolding is_ready task_at
is_ready_lem tasks zero e = absurd cc
is_ready_lem tasks (suc i) e = rw e refl

skip_ready :
    (tasks : List Task) (x : ℕ × Slot) (xs : List (ℕ × Slot))
    → NotReady tasks x
    → ReadySplit tasks xs
    → ReadySplit tasks (x ∷ xs)
skip_ready tasks x xs n (none_ready rest) = none_ready (n, rest)
skip_ready tasks x _ n (first_ready ys z zs rest here) = first_ready (x ∷ ys) z zs (n, rest) here

pub split_ready :
    (tasks : List Task) (xs : List (ℕ × Slot)) → All (HasTask tasks) xs → ReadySplit tasks xs
split_ready tasks [] all = none_ready tt
split_ready tasks (x ∷ xs) ((t, at), all) = elim (Bool-cases (t.state == pc_ready)) [
  | inl y ↦ first_ready [] x xs tt (is_ready_lem tasks x.1.task at ∙ ap some y)
  | inr n ↦
      skip_ready tasks x xs (is_ready_lem tasks x.1.task at ∙ ap some n) (split_ready tasks xs all)
]

pub is_ready_congr :
    (tasks tasks' : List Task) (p : ℕ)
    → task_at tasks' p ≡ task_at tasks p
    → is_ready tasks' p ≡ is_ready tasks p
unfolding is_ready
is_ready_congr tasks tasks' zero e = refl
is_ready_congr tasks tasks' (suc p) e = rw e refl
