-- ===== src/Sched/Keep.antt =====
-- The invariant of the scheduler of kernel/pc/pc.c after changes of the lists and of the tasks.
use huge_pie.Sched.{Sched, Slot, Task, pri_queue_num, task_at}
use huge_pie.Sched.Walk.{is_ready_congr}
use huge_pie.Sched.Linked.{Lists, Linked, total}
use huge_pie.Sched.Count.{count, census}
use huge_pie.Sched.Invariant.{IsQueue, IsSched, current_once}
use huge_pie.Links.{Node}
use huge_pie.Base.{
  ℕ, zero, suc, ◌≤◌, ◌<◌, ◌≡◌, ◌≢◌, inl, inr, refl, sym, ap, ◌∙◌, pos, true, false, some,
  some-injective, List, eqb_ℤ, ltb_ℤ, ◌==◌, subst, arith, ==→eq, ==→ne, Bool-cases,
}

-- A task of the same process.
pub record Same (t u : Task) : Type 0 where
  pub pid : u.pid ≡ t.pid
  pub level : u.level ≡ t.level

-- A process stands in one list only.
pub one_level :
    (lists : Lists) (p l m : ℕ)
    → IsQueue l
    → IsQueue m
    → census lists p ≡ 1
    → 0 < count p (lists l)
    → 0 < count p (lists m)
    → l ≡ m
one_level lists p zero zero a b one x y = omega arith
one_level lists p zero (suc zero) a b one x y = omega arith
one_level lists p zero (suc (suc zero)) a b one x y = omega arith
one_level lists p (suc zero) zero a b one x y = omega arith
one_level lists p (suc zero) (suc zero) a b one x y = omega arith
one_level lists p (suc zero) (suc (suc zero)) a b one x y = omega arith
one_level lists p (suc (suc zero)) zero a b one x y = omega arith
one_level lists p (suc (suc zero)) (suc zero) a b one x y = omega arith
one_level lists p (suc (suc zero)) (suc (suc zero)) a b one x y = omega arith
one_level lists p (suc (suc (suc l))) m a b one x y = absurd (omega arith)
one_level lists p l (suc (suc (suc m))) a b one x y = absurd (omega arith)

module _ (fuel : ℕ) (heads : ℕ → ℕ) (lists : Lists) (s : Sched)
    (v : IsSched fuel heads lists s) where
  -- The lists of the other processes hold the same, and the current one stands in the list of its level.
  pub record Rebuilt (lists' : Lists) (nodes' : List (Node Slot)) (tasks' : List Task)
      : Type 0 where
    pub linked : Linked heads lists' nodes'
    pub size : total lists' ≡ total lists
    pub others : (l p : ℕ) → p ≢ s.current_task → count p (lists' l) ≡ count p (lists l)
    pub exits : (p : ℕ) → count p (lists' 3) ≡ count p (lists 3)
    pub task : Task
    pub task_here : task_at tasks' s.current_task ≡ some task
    pub pid : task.pid ≡ v.current.pid
    pub low : IsQueue task.level
    pub here : 0 < count s.current_task (lists' task.level)
    pub once : census lists' s.current_task ≡ 1
    pub idle : 0 < count s.current_task (lists 2) → 0 < count s.current_task (lists' 2)
    pub tasks_kept : (p : ℕ) → p ≢ s.current_task → task_at tasks' p ≡ task_at s.tasks p

  module _ (lists' : Lists) (nodes' : List (Node Slot)) (tasks' : List Task)
      (r : Rebuilt lists' nodes' tasks') where
    abbrev c : ℕ
    c = s.current_task

    -- No process is lost or doubled.
    pub census_kept : (p : ℕ) → census lists' p ≡ census lists p
    census_kept p = elim (Bool-cases (p == c)) [
      | inl y ↦
          subst (λ q. census lists' q ≡ census lists q) (sym (==→eq p c y))
            (r.once ∙ sym (current_once fuel heads lists s v))
      | inr n ↦
          (let ne = ==→ne p c n in
            omega (arith, r.others 0 p ne, r.others 1 p ne, r.others 2 p ne, r.others 3 p ne))
    ]

    -- A task that stands in a list, and the one that was there.
    old :
        (p : ℕ) (t : Task)
        → 0 < census lists' p
        → task_at tasks' p ≡ some t
        → (u : Task) × (task_at s.tasks p ≡ some u) × (t.pid ≡ u.pid)
    old p t lt at = elim (Bool-cases (p == c)) [
      | inl y ↦
          (let e = ==→eq p c y in
            let same : r.task ≡ t =
              some-injective _ _ (sym r.task_here ∙ (ap (task_at tasks') (sym e) ∙ at)) in
            (v.current, ap (task_at s.tasks) e ∙ v.current_at, ap (λ x. x.pid) (sym same) ∙ r.pid))
      | inr n ↦ (t, sym (r.tasks_kept p (==→ne p c n)) ∙ at, refl)
    ]

    live :
        (l p : ℕ)
        → l ≤ pri_queue_num
        → 0 < count p (lists' l)
        → (t : Task) × (task_at tasks' p ≡ some t) × (ltb_ℤ t.pid (pos 0) ≡ false)
    live l p le lt = elim (Bool-cases (p == c)) [
      | inl y ↦
          (let e = ==→eq p c y in
            let (t, at, n) =
              v.live v.current.level c (omega (arith, v.current_level)) v.current_queued in
            let same : t.pid ≡ r.task.pid =
              ap (λ x. x.pid) (some-injective _ _ (sym at ∙ v.current_at)) ∙ sym r.pid in
            (
              r.task,
              ap (task_at tasks') e ∙ r.task_here,
              subst (λ z. ltb_ℤ z (pos 0) ≡ false) same n,
            ))
      | inr n ↦
          (let ne = ==→ne p c n in
            let (t, at, k) = v.live l p le (rw (r.others l p ne) at lt) in
            (t, r.tasks_kept p ne ∙ at, k))
    ]

    level :
        (l p : ℕ) (t : Task)
        → IsQueue l
        → 0 < count p (lists' l)
        → task_at tasks' p ≡ some t
        → t.level ≡ l
    level l p t q lt at = elim (Bool-cases (p == c)) [
      | inl y ↦
          (let e = ==→eq p c y in
            let same : r.task ≡ t =
              some-injective _ _ (sym r.task_here ∙ (ap (task_at tasks') (sym e) ∙ at)) in
            let there : 0 < count c (lists' l) = subst (λ z. 0 < count z (lists' l)) e lt in
            ap (λ x. x.level) (sym same)
            ∙ one_level lists' c r.task.level l r.low q r.once r.here there)
      | inr n ↦
          (let ne = ==→ne p c n in
            v.level l p t q (rw (r.others l p ne) at lt) (sym (r.tasks_kept p ne) ∙ at))
    ]

    distinct :
        (p q : ℕ) (t u : Task)
        → 0 < census lists' p
        → 0 < census lists' q
        → task_at tasks' p ≡ some t
        → task_at tasks' q ≡ some u
        → eqb_ℤ t.pid u.pid ≡ true
        → p ≡ q
    distinct p q t u lp lq at bt e =
        let (t', f, tp) = old p t lp at in
        let (u', g, up) = old q u lq bt in
        v.distinct p q t' u' (rw (census_kept p) at lp) (rw (census_kept q) at lq) f g
          (rw (tp, up) at e)

    idle_found : (t : Task) × (task_at tasks' v.idle ≡ some t) × (t.pid ≡ pos 0)
    idle_found = elim (Bool-cases (v.idle == c)) [
      | inl y ↦
          (let e = ==→eq v.idle c y in
            let same : v.idle_task ≡ v.current =
              some-injective _ _ (sym v.idle_at ∙ (ap (task_at s.tasks) e ∙ v.current_at)) in
            (
              r.task,
              ap (task_at tasks') e ∙ r.task_here,
              r.pid ∙ (ap (λ x. x.pid) (sym same) ∙ v.idle_pid),
            ))
      | inr n ↦ (v.idle_task, r.tasks_kept v.idle (==→ne v.idle c n) ∙ v.idle_at, v.idle_pid)
    ]

    idle_there : 0 < count v.idle (lists' 2)
    idle_there = elim (Bool-cases (v.idle == c)) [
      | inl y ↦
          (let e = ==→eq v.idle c y in
            subst (λ z. 0 < count z (lists' 2)) (sym e)
              (r.idle (subst (λ z. 0 < count z (lists 2)) e v.idle_queued)))
      | inr n ↦ rw (r.others 2 v.idle (==→ne v.idle c n)) v.idle_queued
    ]

    pub rebuild : IsSched fuel heads lists' (record s { nodes = nodes'; tasks = tasks' })
    rebuild = record {
      linked = r.linked;
      tops = v.tops;
      exit = v.exit;
      short = omega (arith, v.short, r.size);
      once = λ p. omega (arith, v.once p, census_kept p);
      live = live;
      distinct = distinct;
      level = level;
      ready = λ l p q ne lt.
          is_ready_congr s.tasks tasks' p (r.tasks_kept p ne)
          ∙ v.ready l p q ne (rw (r.others l p ne) at lt);
      idle = v.idle;
      idle_task = idle_found.0;
      idle_at = idle_found.1;
      idle_pid = idle_found.2;
      idle_queued = idle_there;
      current = r.task;
      current_at = r.task_here;
      current_level = r.low;
      current_queued = r.here;
    }
