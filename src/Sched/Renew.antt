-- ===== src/Sched/Renew.antt =====
-- The invariant of the scheduler of kernel/pc/pc.c when another process is the current one.
use huge_pie.Sched.{Sched, Task, pri_queue_num, task_at}
use huge_pie.Sched.Schedule.{is_ready}
use huge_pie.Sched.Linked.{Lists}
use huge_pie.Sched.Count.{count, census}
use huge_pie.Sched.Invariant.{IsQueue, IsSched}
use huge_pie.Sched.Keep.{Same}
use huge_pie.Base.{
  ℕ, zero, suc, ◌≤◌, ◌<◌, ◌≡◌, ◌≢◌, ◌⊎◌, inl, inr, refl, sym, ◌∙◌, pos, true, false, some,
  some-injective, List, eqb_ℤ, ltb_ℤ, subst, arith,
}

positive : (n : ℕ) → (0 < n) ⊎ (n ≡ 0)
positive zero = inr refl
positive (suc n) = inl (omega arith)

module _ (fuel : ℕ) (heads : ℕ → ℕ) (lists : Lists) (s : Sched)
    (v : IsSched fuel heads lists s) where
  -- Another process of the lists is the current one, and the tasks have other states and registers.
  pub record Renewed (tasks' : List Task) (n l : ℕ) (t : Task) : Type 0 where
    pub same :
        (p : ℕ) (u : Task)
        → task_at s.tasks p ≡ some u
        → (w : Task) × (task_at tasks' p ≡ some w) × Same u w
    pub here : task_at tasks' n ≡ some t
    pub low : IsQueue l
    pub queued : 0 < count n (lists l)
    pub ready :
        (m p : ℕ) → IsQueue m → p ≢ n → 0 < count p (lists m) → is_ready tasks' p ≡ some true

  module _ (tasks' : List Task) (n l : ℕ) (t : Task) (r : Renewed tasks' n l t) where
    -- The task that was there.
    old :
        (m p : ℕ) (w : Task)
        → m ≤ pri_queue_num
        → 0 < count p (lists m)
        → task_at tasks' p ≡ some w
        → (u : Task) × (task_at s.tasks p ≡ some u) × Same u w
    old m p w le lt at =
        let (u, f, k) = v.live m p le lt in
        let (w', g, same) = r.same p u f in
        (u, f, subst (Same u) (some-injective _ _ (sym g ∙ at)) same)

    queue_le : (m : ℕ) → IsQueue m → m ≤ pri_queue_num
    queue_le m q = omega arith

    live :
        (m p : ℕ)
        → m ≤ pri_queue_num
        → 0 < count p (lists m)
        → (w : Task) × (task_at tasks' p ≡ some w) × (ltb_ℤ w.pid (pos 0) ≡ false)
    live m p le lt =
        let (u, f, k) = v.live m p le lt in
        let (w, g, same) = r.same p u f in
        (w, g, subst (λ z. ltb_ℤ z (pos 0) ≡ false) (sym same.pid) k)

    level :
        (m p : ℕ) (w : Task)
        → IsQueue m
        → 0 < count p (lists m)
        → task_at tasks' p ≡ some w
        → w.level ≡ m
    level m p w q lt at =
        let (u, f, same) = old m p w (queue_le m q) lt at in same.level ∙ v.level m p u q lt f

    -- A process of the lists stands at some level.
    where_is :
        (p : ℕ) → 0 < census lists p → (m : ℕ) × (m ≤ pri_queue_num) × (0 < count p (lists m))
    where_is p lt = elim (positive (count p (lists 0))) [
      | inl a ↦ (0, omega arith, a)
      | inr z ↦ elim (positive (count p (lists 1))) [
        | inl a ↦ (1, omega arith, a)
        | inr y ↦ elim (positive (count p (lists 2))) [
          | inl a ↦ (2, omega arith, a)
          | inr x ↦ (3, omega arith, omega arith)
        ]
      ]
    ]

    distinct :
        (p q : ℕ) (w x : Task)
        → 0 < census lists p
        → 0 < census lists q
        → task_at tasks' p ≡ some w
        → task_at tasks' q ≡ some x
        → eqb_ℤ w.pid x.pid ≡ true
        → p ≡ q
    distinct p q w x lp lq at bt e =
        let (m, a, b) = where_is p lp in
        let (k, c, d) = where_is q lq in
        let (u, f, same) = old m p w a b at in
        let (y, g, same') = old k q x c d bt in
        v.distinct p q u y lp lq f g (rw (same.pid, same'.pid) at e)

    pub renew : IsSched fuel heads lists (record s { tasks = tasks'; current_task = n })
    renew =
        let (i, i_at, i_same) = r.same v.idle v.idle_task v.idle_at in
        let at_level : t.level ≡ l = level l n t r.low r.queued r.here in
        record {
          linked = v.linked;
          tops = v.tops;
          exit = v.exit;
          short = v.short;
          once = v.once;
          live = live;
          distinct = distinct;
          level = level;
          ready = r.ready;
          idle = v.idle;
          idle_task = i;
          idle_at = i_at;
          idle_pid = i_same.pid ∙ v.idle_pid;
          idle_queued = v.idle_queued;
          current = t;
          current_at = r.here;
          current_level = rw at_level r.low;
          current_queued = rw at_level r.queued;
        }
