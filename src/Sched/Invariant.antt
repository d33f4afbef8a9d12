-- ===== src/Sched/Invariant.antt =====
-- What the scheduler of kernel/pc/pc.c keeps from one time slice to the next.
use huge_pie.Sched.{Sched, Task, pri_queue_num, task_at}
use huge_pie.Sched.Lists.{list_find_by_pid}
use huge_pie.Sched.Schedule.{is_ready}
use huge_pie.Sched.Walk.{HasTask, IsOther}
use huge_pie.Sched.Linked.{Lists, Linked, total, length-total}
use huge_pie.Sched.Edit.{AreHeads, here, list_find_at}
use huge_pie.Sched.Count.{count, count-append, count_self, All-count, At, census}
use huge_pie.Links.{load}
use huge_pie.Links.Chain.{first_address, last_address}
use huge_pie.Base.{
  ℕ, zero, suc, ◌≤◌, ◌<◌, ◌≡◌, ◌≢◌, inl, inr, sym, ap, ◌∙◌, ℤ, pos, true, false, some,
  some-injective, ◌∷◌, length, All, All-append_right, ltb_ℤ, eqb_ℤ, subst, arith, length-append,
  Bool-cases,
}

-- The level is one of a process that can run.
abbrev pub IsQueue : ℕ → Type 0
IsQueue l = l < pri_queue_num

pub count-le_census :
    (lists : Lists) (l p : ℕ) → l ≤ pri_queue_num → count p (lists l) ≤ census lists p
count-le_census lists zero p le = omega arith
count-le_census lists (suc zero) p le = omega arith
count-le_census lists (suc (suc zero)) p le = omega arith
count-le_census lists (suc (suc (suc zero))) p le = omega arith
count-le_census lists (suc (suc (suc (suc n)))) p le = absurd (omega arith)

pub record IsSched (fuel : ℕ) (heads : ℕ → ℕ) (lists : Lists) (s : Sched) : Type 0 where
  -- Each list is linked both ways, and a walk over it ends.
  pub linked : Linked heads lists s.nodes
  pub tops : AreHeads heads s
  pub exit : s.exit_list ≡ heads pri_queue_num
  pub short : suc (total lists) < fuel
  -- No process is in two places, and no two share an id.
  pub once : (p : ℕ) → census lists p ≤ 1
  pub live :
      (l p : ℕ)
      → l ≤ pri_queue_num
      → 0 < count p (lists l)
      → (t : Task) × (task_at s.tasks p ≡ some t) × (ltb_ℤ t.pid (pos 0) ≡ false)
  pub distinct :
      (p q : ℕ) (t u : Task)
      → 0 < census lists p
      → 0 < census lists q
      → task_at s.tasks p ≡ some t
      → task_at s.tasks q ≡ some u
      → eqb_ℤ t.pid u.pid ≡ true
      → p ≡ q
  -- A process knows its level, and is ready unless it is the current one.
  pub level :
      (l p : ℕ) (t : Task)
      → IsQueue l
      → 0 < count p (lists l)
      → task_at s.tasks p ≡ some t
      → t.level ≡ l
  pub ready :
      (l p : ℕ)
      → IsQueue l
      → p ≢ s.current_task
      → 0 < count p (lists l)
      → is_ready s.tasks p ≡ some true
  -- The idle process is at the lowest level.
  pub idle : ℕ
  pub idle_task : Task
  pub idle_at : task_at s.tasks idle ≡ some idle_task
  pub idle_pid : idle_task.pid ≡ pos 0
  pub idle_queued : 0 < count idle (lists 2)
  -- The current process is in one of the lists.
  pub current : Task
  pub current_at : task_at s.tasks s.current_task ≡ some current
  pub current_level : IsQueue current.level
  pub current_queued : 0 < count s.current_task (lists current.level)

module _ (fuel : ℕ) (heads : ℕ → ℕ) (lists : Lists) (s : Sched)
    (v : IsSched fuel heads lists s) where
  pub tasked : (l : ℕ) → l ≤ pri_queue_num → All (HasTask s.tasks) (lists l)
  tasked l le =
      All-count (λ p. (t : Task) × (task_at s.tasks p ≡ some t)) (lists l)
        (λ p lt. let (t, at, n) = v.live l p le lt in (t, at))

  pub fits : (l : ℕ) → l ≤ pri_queue_num → suc (length (lists l)) < fuel
  fits l le = omega (arith, v.short, length-total lists l le)

  pub eqb_ℤ_refl : (a : ℤ) → eqb_ℤ a a ≡ true
  eqb_ℤ_refl a = ground arith

  -- The current process stands in its list once.
  pub current_once : census lists s.current_task ≡ 1
  current_once =
      let a = v.once s.current_task in
      let b =
        count-le_census lists v.current.level s.current_task (omega (arith, v.current_level)) in
      omega (arith, a, b, v.current_queued)

  pub current_positive : ltb_ℤ v.current.pid (pos 0) ≡ false
  current_positive =
      let (t, at, n) =
        v.live v.current.level s.current_task (omega (arith, v.current_level)) v.current_queued in
      subst (λ u. ltb_ℤ u.pid (pos 0) ≡ false) (some-injective _ _ (sym at ∙ v.current_at)) n

  -- A process of a list is found there by its id.
  module _ (l p : ℕ) (le : l ≤ pri_queue_num) (t : Task) (at : task_at s.tasks p ≡ some t)
      (r : At p (lists l)) where
    pub count_here : 0 < count p (lists l)
    count_here = rw r.split (
        rw (← r.task) (
          omega (
            arith,
            count-append r.entry.1.task r.before (r.entry ∷ r.after),
            count_self r.entry r.after,
          )))

    pub short_here : length r.before < fuel
    short_here =
        omega (arith, fits l le, ap length r.split, length-append r.before (r.entry ∷ r.after))

    pub level_here : r.entry.1.level ≡ l
    level_here =
        (All-append_right (λ y. y.1.level ≡ l) r.before (r.entry ∷ r.after)
          (subst (All (λ y. y.1.level ≡ l)) r.split (v.linked.levels l le))).0

    pub entry_at : task_at s.tasks r.entry.1.task ≡ some t
    entry_at = ap (task_at s.tasks) r.task ∙ at

    pub entry_here :
        load s.nodes r.entry.0
        ≡ some (record {
          next = first_address r.after;
          previous = last_address (heads l) r.before;
          item = r.entry.1;
        })
    entry_here =
        here fuel heads lists s v.linked v.tops l le r.before r.entry r.after r.split short_here

    pub others : All (IsOther t.pid s.tasks) r.before
    others =
        All-count (λ q. (u : Task) × (task_at s.tasks q ≡ some u) × (eqb_ℤ u.pid t.pid ≡ false))
          r.before other
      where
        other :
            (q : ℕ)
            → 0 < count q r.before
            → (u : Task) × (task_at s.tasks q ≡ some u) × (eqb_ℤ u.pid t.pid ≡ false)
        other q lt =
            let there : 0 < count q (lists l) =
              rw r.split (omega (arith, count-append q r.before (r.entry ∷ r.after))) in
            let (u, f, n) = v.live l q le there in
            (
              u,
              f,
              elim (Bool-cases (eqb_ℤ u.pid t.pid)) [
                | inl y ↦
                    (let e =
                        v.distinct q p u t (omega (arith, count-le_census lists l q le))
                          (omega (arith, count-le_census lists l p le, count_here)) f at y in
                      absurd (omega (arith, r.first, ap (λ z. count z r.before) e)))
                | inr n ↦ n
              ],
            )

    pub found : list_find_by_pid fuel l t.pid s ≡ some r.entry.0
    found =
        let (u, f, n) = v.live l p le count_here in
        let same : ltb_ℤ t.pid (pos 0) ≡ false = rw (some-injective _ _ (sym at ∙ f)) n in
        list_find_at fuel heads lists s v.linked v.tops l le r.before r.entry r.after r.split
          short_here t entry_at same others (eqb_ℤ_refl t.pid)
