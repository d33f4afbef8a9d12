-- ===== src/Sched/Age.antt =====
-- Writes to a task of kernel/pc/pc.c, and what a process and the lists are when it goes one level down.
use huge_pie.Sched.{
  Sched, Slot, Task, pri_queue_num, time_unit, pc_finish, task_at, put_task, edit_task,
}
use huge_pie.Sched.Linked.{Lists, replaced}
use huge_pie.Base.{
  ℕ, zero, suc, ◌+◌, ◌-◌, ◌*◌, ◌<◌, ◌≡◌, ◌≢◌, inl, inr, refl, ap, pos, Bool, ◌||◌, some, List, ◌==◌,
  eqb_ℤ, if◌then◌else◌, get_elem?-set_self, get_elem?-set_ne, get_elem?-lt, dec_int, Bool-cases,
  arith,
}

pub task_at-replaced_self :
    (tasks : List Task) (p : ℕ) {t : Task} (u : Task)
    → task_at tasks p ≡ some t
    → task_at (put_task tasks p u) p ≡ some u
unfolding task_at put_task
task_at-replaced_self tasks zero u e = absurd cc
task_at-replaced_self tasks (suc i) u e = get_elem?-set_self tasks i u (get_elem?-lt tasks i e)

pub task_at-replaced_ne :
    (tasks : List Task) (p q : ℕ) (u : Task)
    → p ≢ q
    → task_at (put_task tasks p u) q ≡ task_at tasks q
unfolding task_at put_task
task_at-replaced_ne tasks zero q u ne = refl
task_at-replaced_ne tasks (suc i) zero u ne = refl
task_at-replaced_ne tasks (suc i) (suc j) u ne = get_elem?-set_ne tasks i j u (λ e. ne (ap suc e))

pub edit_task_lem :
    (p : ℕ) (f : Task → Task) (s : Sched) {t : Task}
    → task_at s.tasks p ≡ some t
    → edit_task p f s ≡ some (record s { tasks = put_task s.tasks p (f t) })
unfolding edit_task
edit_task_lem p f s e = rw e refl

pub task_at-nonzero : (tasks : List Task) (p : ℕ) {t : Task} → task_at tasks p ≡ some t → 0 ≢ p
unfolding task_at
task_at-nonzero tasks zero e z = absurd cc
task_at-nonzero tasks (suc i) e z = omega (arith, z)

-- The process stays at its level.
abbrev pub keeps_level : Task → Bool
keeps_level t = eqb_ℤ t.fixed (pos 1) || ((t.level == pri_queue_num - 1) || (t.state == pc_finish))

-- A process after a time slice: one that is not fixed and not at the lowest level has a unit of time less, and goes a level
-- down with the time of that level when none is left.
unfoldable pub aged : Task → Task
aged t =
    if keeps_level t
    then t
    else if eqb_ℤ (dec_int t.time_cnt) (pos 0)
    then record t { time_cnt = pos (time_unit * (t.level + 1 + 1)); level = t.level + 1 }
    else record t { time_cnt = dec_int t.time_cnt }

-- A sum over the levels when one thing goes from a level to the next.
pub shift_sum :
    (f : List (ℕ × Slot) → ℕ) (lists : Lists) (l : ℕ) (xs ys : List (ℕ × Slot))
    → l < 2
    → suc (f xs) ≡ f (lists l)
    → f ys ≡ suc (f (lists (l + 1)))
    → f (replaced (replaced lists l xs) (l + 1) ys 0)
        + (f (replaced (replaced lists l xs) (l + 1) ys 1)
            + (f (replaced (replaced lists l xs) (l + 1) ys 2)
                + f (replaced (replaced lists l xs) (l + 1) ys 3)))
      ≡ f (lists 0) + (f (lists 1) + (f (lists 2) + f (lists 3)))
shift_sum f lists zero xs ys lt a b = omega (arith, a, b)
shift_sum f lists (suc zero) xs ys lt a b = omega (arith, a, b)
shift_sum f lists (suc (suc l)) xs ys lt a b = absurd (omega arith)

pub aged-state : (t : Task) → (aged t).state ≡ t.state
unfolding aged
aged-state t = elim (Bool-cases (keeps_level t)) [
  | inl y ↦ rw y refl
  | inr n ↦ elim (Bool-cases (eqb_ℤ (dec_int t.time_cnt) (pos 0))) [
    | inl z ↦ rw (n, z) refl
    | inr m ↦ rw (n, m) refl
  ]
]
