-- ===== src/Sched/Switch.antt =====
-- The change from one process of kernel/pc/pc.c to the next, and the empty exit list.
use huge_pie.Sched.{
  Sched, Task, Context, copy_context, pc_ready, pc_running, pc_finish, task_at, put_task,
}
use huge_pie.Sched.Schedule.{is_ready, switch, clear_loop, pc_clear_exit, running, finish}
use huge_pie.Sched.Walk.{is_ready_congr, is_ready_lem}
use huge_pie.Sched.Linked.{Lists}
use huge_pie.Sched.Count.{count}
use huge_pie.Sched.Invariant.{IsQueue, IsSched}
use huge_pie.Sched.Keep.{Same}
use huge_pie.Sched.Age.{task_at-replaced_self, task_at-replaced_ne, edit_task_lem}
use huge_pie.Links.Chain.{Chain-head}
use huge_pie.Links.Cells.{nonzero}
use huge_pie.Base.{
  ℕ, zero, suc, ◌<◌, ◌≡◌, ◌≢◌, inl, inr, refl, sym, ap, ◌∙◌, pos, true, false, some, some-injective,
  List, [], ◌==◌, ne→==, ==→eq, ==→ne, Bool-cases, arith, Returns, returns,
}
use huge_pie.Sched.Renew.{Renewed, renew}

module _ (fuel : ℕ) (heads : ℕ → ℕ) (lists : Lists) (s : Sched)
    (v : IsSched fuel heads lists s) where
  clear_none : (n : ℕ) → 0 < n → lists 3 ≡ [] → clear_loop fuel n s ≡ some (pos 0, s)
  unfolding clear_loop
  clear_none zero lt e = absurd (omega arith)
  clear_none (suc n) lt e =
      let c =
        Chain-head s.nodes (heads 3, record { task = 0; level = 3 }) (lists 3)
          (v.linked.chains 3 (omega arith)) in
      rw (v.exit, c, e) refl

  -- Nothing is to do when no process has finished.
  pub finish_none : (regs : Context) → lists 3 ≡ [] → finish fuel s regs ≡ some (running s regs)
  unfolding finish pc_clear_exit
  finish_none regs e =
      let c =
        Chain-head s.nodes (heads 3, record { task = 0; level = 3 }) (lists 3)
          (v.linked.chains 3 (omega arith)) in
      let ne : (s.exit_list == 0) ≡ false =
        ne→== s.exit_list 0 (λ z. nonzero s.nodes (heads 3) c (sym z ∙ v.exit)) in
      rw (ne, clear_none fuel (omega (arith, v.short)) e) refl

  -- What the change to the process `n` does: the registers are saved, the next ones loaded, and only the two processes have
  -- other states.
  pub record Switched (n : ℕ) (regs : Context) (r : Sched × Context) : Type 0 where
    pub tasks' : List Task
    pub result : r.0 ≡ record s { tasks = tasks'; current_task = n }
    pub valid : IsSched fuel heads lists (record s { tasks = tasks'; current_task = n })
    pub saved :
        task_at tasks' s.current_task ≡ some (record v.current { context = regs; state = pc_ready })
    pub next : Task
    pub next_at : task_at s.tasks n ≡ some next
    pub loaded : r.1 ≡ next.context
    pub runs : task_at tasks' n ≡ some (record next { state = pc_running })
    pub tasks_kept : (p : ℕ) → p ≢ s.current_task → p ≢ n → task_at tasks' p ≡ task_at s.tasks p

  module _ (regs : Context) (n l : ℕ) (low : IsQueue l) (ne : n ≢ s.current_task)
      (queued : 0 < count n (lists l)) (active : (v.current.state == pc_finish) ≡ false) where
    abbrev c : ℕ
    c = s.current_task

    next_task : (t : Task) × (task_at s.tasks n ≡ some t)
    next_task = let (t, at, k) = v.live l n (omega (arith, low)) queued in (t, at)

    abbrev t : Task
    t = next_task.0

    abbrev saved : Task
    saved = record v.current { context = regs }

    abbrev waiting : Task
    waiting = record v.current { context = regs; state = pc_ready }

    abbrev going : Task
    going = record t { state = pc_running }

    abbrev tasks2 : List Task
    tasks2 = put_task (put_task s.tasks c saved) c waiting

    saved_at : task_at (put_task s.tasks c saved) c ≡ some saved
    saved_at = task_at-replaced_self s.tasks c saved v.current_at

    next_at2 : task_at tasks2 n ≡ some t
    next_at2 =
        task_at-replaced_ne _ c n waiting (λ q. ne (sym q))
        ∙ (task_at-replaced_ne s.tasks c n saved (λ q. ne (sym q)) ∙ next_task.1)

    waiting_at : task_at (put_task tasks2 n going) c ≡ some waiting
    waiting_at =
        task_at-replaced_ne tasks2 n c going ne
        ∙ task_at-replaced_self (put_task s.tasks c saved) c waiting saved_at

    going_at : task_at (put_task tasks2 n going) n ≡ some going
    going_at = task_at-replaced_self tasks2 n going next_at2

    others_kept : (p : ℕ) → p ≢ c → p ≢ n → task_at (put_task tasks2 n going) p ≡ task_at s.tasks p
    others_kept p a b =
        task_at-replaced_ne tasks2 n p going (λ q. b (sym q))
        ∙ (task_at-replaced_ne _ c p waiting (λ q. a (sym q))
            ∙ task_at-replaced_ne s.tasks c p saved (λ q. a (sym q)))

    renewed : Renewed fuel heads lists s v (put_task tasks2 n going) n l going
    renewed = record { same = same; here = going_at; low = low; queued = queued; ready = ready }
      where
        same :
            (p : ℕ) (u : Task)
            → task_at s.tasks p ≡ some u
            → (w : Task) × (task_at (put_task tasks2 n going) p ≡ some w) × Same u w
        same p u at = elim (Bool-cases (p == c)) [
          | inl y ↦
              (let e = ==→eq p c y in
                let k : v.current ≡ u =
                  some-injective _ _ (sym v.current_at ∙ (ap (task_at s.tasks) (sym e) ∙ at)) in
                (
                  waiting,
                  ap (task_at (put_task tasks2 n going)) e ∙ waiting_at,
                  record { pid = ap (λ x. x.pid) k; level = ap (λ x. x.level) k },
                ))
          | inr m ↦ elim (Bool-cases (p == n)) [
            | inl y ↦
                (let e = ==→eq p n y in
                  let k : t ≡ u =
                    some-injective _ _ (sym next_task.1 ∙ (ap (task_at s.tasks) (sym e) ∙ at)) in
                  (
                    going,
                    ap (task_at (put_task tasks2 n going)) e ∙ going_at,
                    record { pid = ap (λ x. x.pid) k; level = ap (λ x. x.level) k },
                  ))
            | inr k ↦ (
              u,
              others_kept p (==→ne p c m) (==→ne p n k) ∙ at,
              record { pid = refl; level = refl },
            )
          ]
        ]

        ready :
            (m p : ℕ)
            → IsQueue m
            → p ≢ n
            → 0 < count p (lists m)
            → is_ready (put_task tasks2 n going) p ≡ some true
        ready m p q off lt = elim (Bool-cases (p == c)) [
          | inl y ↦
              ap (is_ready (put_task tasks2 n going)) (==→eq p c y) ∙ is_ready_lem _ c waiting_at
          | inr k ↦
              (let other = ==→ne p c k in
                is_ready_congr s.tasks _ p (others_kept p other off) ∙ v.ready m p q other lt)
        ]

    pub switch-Switched : Returns (Switched n regs) (switch fuel n regs s)
    unfolding switch copy_context
    switch-Switched =
        rw
          (
            v.current_at,
            active,
            edit_task_lem c (λ u. record u { context = copy_context regs u.context }) s
                v.current_at,
          )
          (rw
            (edit_task_lem c (λ u. record u { state = pc_ready })
              (record s { tasks = put_task s.tasks c saved }) saved_at)
            (rw
              (
                next_at2,
                edit_task_lem n (λ u. record u { state = pc_running })
                    (record s { tasks = tasks2; current_task = n }) next_at2,
              )
              (returns (record {
                tasks' = put_task tasks2 n going;
                result = refl;
                valid = renew fuel heads lists s v (put_task tasks2 n going) n l going renewed;
                saved = waiting_at;
                next = t;
                next_at = next_task.1;
                loaded = refl;
                runs = going_at;
                tasks_kept = others_kept;
              }))))
