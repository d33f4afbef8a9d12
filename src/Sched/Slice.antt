-- ===== src/Sched/Slice.antt =====
-- `pc_schedule` of kernel/pc/pc.c at the end of a time slice.
use huge_pie.Sched.{Sched, Task, Context, idle_pid, pc_ready, pc_running, pc_finish, task_at}
use huge_pie.Sched.Schedule.{
  is_ready, pc_clear_exit, retire, demote, switch, Scheduled, running, halted, finish, pc_schedule,
}
use huge_pie.Sched.Linked.{Lists}
use huge_pie.Sched.Count.{count, census, At}
use huge_pie.Sched.Invariant.{IsQueue, IsSched, found, entry_here, current_once}
use huge_pie.Sched.Choice.{Next, Chosen, switched, stayed}
use huge_pie.Sched.Next.{place}
use huge_pie.Sched.Pick.{pc_find_next-Next}
use huge_pie.Sched.Keep.{Rebuilt, rebuild}
use huge_pie.Sched.Age.{aged, aged-state, task_at-nonzero}
use huge_pie.Sched.Demote.{Demoted, demote-Demoted}
use huge_pie.Sched.Switch.{switch-Switched, finish_none}
use huge_pie.Links.Cells.{nonzero}
use huge_pie.Base.{
  ℕ, ◌<◌, ◌≡◌, ◌≢◌, refl, sym, ap, ◌∙◌, pos, true, false, not, Option, some, some-injective, [],
  ◌==◌, ==_refl, eqb_ℤ, if◌then◌else◌, ne→==, subst, arith, ◌>>=◌, Returns, returns, bind,
}

-- A process that runs: it has not finished, and it is marked as ready only if it is the idle process.
pub record IsActive (t : Task) : Type 0 where
  pub unfinished : (t.state == pc_finish) ≡ false
  pub own : (t.state == pc_ready) ≡ true → t.pid ≡ pos 0

-- What a time slice does to the processes.
pub data Changed (s : Sched) (t : Task) (regs : Context) (s' : Sched) (regs' : Context)
    : Type 0 where
  -- The idle process goes on, as no other one is chosen.
  same_process :
      s'.current_task ≡ s.current_task
      → s'.tasks ≡ s.tasks
      → regs' ≡ regs
      → t.pid ≡ pos 0
      → Changed s t regs s' regs'
  -- The current process is older and waits with its registers, and a ready one runs with its own.
  other_process :
      s'.current_task ≢ s.current_task
      → is_ready s.tasks s'.current_task ≡ some true
      → task_at s'.tasks s.current_task
        ≡ some (record (aged t) { context = regs; state = pc_ready })
      → (n : Task) → task_at s.tasks s'.current_task ≡ some n
      → task_at s'.tasks s'.current_task ≡ some (record n { state = pc_running })
      → regs' ≡ n.context
      → ((p : ℕ)
          → p ≢ s.current_task
          → p ≢ s'.current_task
          → task_at s'.tasks p ≡ task_at s.tasks p)
      → Changed s t regs s' regs'

-- A process that waits, with its registers.
abbrev waits : Context → Task → Task
waits regs t = record t { context = regs; state = pc_ready }

going-IsActive : (n t : Task) → t ≡ record n { state = pc_running } → IsActive t
going-IsActive n t e = subst IsActive (sym e) (record { unfinished = refl; own = λ q. absurd cc })

module _ (fuel : ℕ) (heads : ℕ → ℕ) where
  -- The state after a time slice that ends as it should.
  pub data Sliced (lists : Lists) (s : Sched) (t : Task) (regs : Context) : Scheduled → Type 0 where
    sliced :
        {s' : Sched} {regs' : Context} (lists' : Lists) (valid : IsSched fuel heads lists' s')
        → ((p : ℕ) → census lists' p ≡ census lists p)
        → lists' 3 ≡ []
        → IsActive valid.current
        → Changed s t regs s' regs'
        → Sliced lists s t regs (running s' regs')

  module _ (lists : Lists) (s : Sched) (v : IsSched fuel heads lists s)
      (active : IsActive v.current) (none_left : lists 3 ≡ []) (regs : Context) where
    abbrev c : ℕ
    c = s.current_task

    abbrev lc : ℕ
    lc = v.current.level

    abbrev at : At c (lists lc)
    at = place fuel heads lists s v active.own

    abbrev Idle : Type 0
    Idle = v.current.pid ≡ pos 0

    -- The state after the search for the next process.
    module _ (r : ℕ × Sched) (w : Next heads lists s lc Idle r) where
      abbrev s1 : Sched
      s1 = record s { nodes = w.nodes }

      here1 : 0 < count c (w.lists' lc)
      here1 = rw (ap (count c) w.same) v.current_queued

      v1-Rebuilt : Rebuilt fuel heads lists s v w.lists' w.nodes s.tasks
      v1-Rebuilt = record {
        linked = w.linked;
        size = w.size;
        others = λ l p ne. w.reordered l p;
        exits = λ p. ap (count p) w.exits;
        task = v.current;
        task_here = v.current_at;
        pid = refl;
        low = v.current_level;
        here = here1;
        once = omega (
          arith,
          current_once fuel heads lists s v,
          w.reordered 0 c,
          w.reordered 1 c,
          w.reordered 2 c,
          w.reordered 3 c,
        );
        idle = λ lt. omega (arith, w.reordered 2 c);
        tasks_kept = λ p ne. refl;
      }

      v1 : IsSched fuel heads w.lists' s1
      v1 = rebuild fuel heads lists s v w.lists' w.nodes s.tasks v1-Rebuilt

      -- The current process stands at the same node.
      same_current : v1.current ≡ v.current
      same_current = some-injective _ _ (sym v1.current_at ∙ v.current_at)

      abbrev at1 : At c (w.lists' v1.current.level)
      at1 = record {
        before = at.before;
        entry = at.entry;
        after = at.after;
        split = ap (λ t. w.lists' t.level) same_current ∙ (w.same ∙ at.split);
        task = at.task;
        first = at.first;
      }

      active1 : IsActive v1.current
      active1 = subst IsActive (sym same_current) active

      retire_none : retire fuel at.entry.0 s1 ≡ some s1
      unfolding retire
      retire_none = rw (v.current_at, active.unfinished) refl

      kept1 : (p : ℕ) → census w.lists' p ≡ census lists p
      kept1 p = omega (arith, w.reordered 0 p, w.reordered 1 p, w.reordered 2 p, w.reordered 3 p)

      -- `pc_schedule` from the choice on.
      go_on : ℕ → Option Scheduled
      go_on next = if next == 0 then (do cleared ← pc_clear_exit fuel s1; some halted) else (do
        s2 ← retire fuel at.entry.0 s1
        if at.entry.0 == 0
            then (do cleared ← pc_clear_exit fuel s2; some halted)
            else if not (next == s2.current_task)
            then (do
              s3 ← demote fuel at.entry.0 s2
              (s4, regs') ← switch fuel next regs s3
              finish fuel s4 regs')
            else if eqb_ℤ v.current.pid idle_pid
            then finish fuel s2 regs
            else (do cleared ← pc_clear_exit fuel s2; some halted))

      entry_ne : (at.entry.0 == 0) ≡ false
      entry_ne = ne→== at.entry.0 0 (λ q.
          nonzero s.nodes at.entry.0
            (entry_here fuel heads lists s v lc c (omega (arith, v.current_level)) v.current
              v.current_at at)
            (sym q))

      -- The current process is older, and then another one runs.
      after_switch :
          (n l : ℕ)
          → IsQueue l
          → n ≢ c
          → 0 < count n (lists l)
          → is_ready s.tasks n ≡ some true
          → (r : Sched) (d : Demoted fuel heads w.lists' s1 v1 r)
          → Returns
              (Sliced lists s v.current regs)
              (do (s4, regs') ← switch fuel n regs r; finish fuel s4 regs')
      after_switch n l low ne queued ready r d =
          let older : d.valid.current ≡ aged v.current =
            some-injective _ _ (sym d.valid.current_at ∙ d.here) ∙ ap aged same_current in
          let state : (d.valid.current.state == pc_finish) ≡ false =
            ap (λ t. t.state == pc_finish) older
            ∙ (ap (λ k. k == pc_finish) (aged-state v.current) ∙ active.unfinished) in
          let there : 0 < count n (d.lists' l) =
            omega (arith, queued, d.others l n ne, w.reordered l n) in
          let none3 : d.lists' 3 ≡ [] = d.exits ∙ (w.exits ∙ none_left) in
          rw d.result (
            bind
              (switch-Switched fuel heads d.lists'
                (record s1 { nodes = d.nodes'; tasks = d.tasks' }) d.valid regs n l low ne there
                state)
              λ q z. rw z.result (
                rw
                  (finish_none fuel heads d.lists'
                    (record s { nodes = d.nodes'; tasks = z.tasks'; current_task = n }) z.valid q.1
                    none3)
                  (returns (
                    sliced d.lists' z.valid (λ p. d.kept p ∙ kept1 p) none3
                      (going-IsActive z.next z.valid.current
                        (some-injective _ _ (sym z.valid.current_at ∙ z.runs)))
                      (other_process ne ready (z.saved ∙ ap (λ t. some (waits regs t)) older) z.next
                        (sym (d.tasks_kept n ne) ∙ z.next_at) z.runs z.loaded
                        (λ p a b. z.tasks_kept p a b ∙ d.tasks_kept p a))))))

      Chosen-Sliced :
          (n : ℕ) → Chosen lists s Idle n → Returns (Sliced lists s v.current regs) (go_on n)
      unfolding go_on
      Chosen-Sliced n (stayed e idle) =
          let test : eqb_ℤ v.current.pid idle_pid ≡ true = ap (λ z. eqb_ℤ z idle_pid) idle in
          rw
            (
              e,
              ne→== c 0 (λ q. task_at-nonzero s.tasks c v.current_at (sym q)),
              retire_none,
              entry_ne,
              ==_refl c,
              test,
              finish_none fuel heads w.lists' s1 v1 regs (w.exits ∙ none_left),
            )
            (returns (
              sliced w.lists' v1 kept1 (w.exits ∙ none_left) active1
                (same_process refl refl refl idle)))
      Chosen-Sliced n (switched l low ne queued ready) =
          let (t, at_n, k) = v.live l n (omega (arith, low)) queued in
          rw
            (
              ne→== n 0 (λ q. task_at-nonzero s.tasks n at_n (sym q)),
              retire_none,
              entry_ne,
              ne→== n c ne,
            )
            (bind (demote-Demoted fuel heads w.lists' s1 v1 at1)
              λ r d. after_switch n l low ne queued ready r d)

    -- The current process has not finished, the exit list is empty, and the state is as it should be: then `pc_schedule` runs
    -- without a fault and without a loop that does not end.
    pub pc_schedule-Sliced : Returns (Sliced lists s v.current regs) (pc_schedule fuel regs s)
    unfolding pc_schedule go_on
    pc_schedule-Sliced =
        rw
          (
            v.current_at,
            found fuel heads lists s v lc c (omega (arith, v.current_level)) v.current v.current_at
                at,
          )
          (bind (pc_find_next-Next fuel heads lists s v active.own)
            λ r w. rw w.result (Chosen-Sliced r w r.0 w.chosen))
