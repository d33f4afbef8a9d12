-- ===== src/Sched/Demote.antt =====
-- A process of kernel/pc/pc.c whose time slice ends: its time runs, and it may go one level down.
use huge_pie.Sched.{
  Sched, Slot, Task, pri_queue_num, time_unit, pc_finish, task_at, put_task, edit_task,
}
use huge_pie.Sched.Lists.{list_delete, add_task_to_list}
use huge_pie.Sched.Schedule.{demote}
use huge_pie.Sched.Linked.{Lists, Linked, replaced_self}
use huge_pie.Sched.Edit.{list_delete-Edited}
use huge_pie.Sched.Append.{add_task_to_list-Edited}
use huge_pie.Sched.Count.{count, count-append, count_self, At, census}
use huge_pie.Sched.Invariant.{
  IsSched, fits, entry_here, entry_at, short_here, level_here, others, eqb_ℤ_refl, current_once,
  current_positive,
}
use huge_pie.Sched.Keep.{Rebuilt, rebuild, census_kept}
use huge_pie.Sched.Age.{
  task_at-replaced_self, task_at-replaced_ne, edit_task_lem, task_at-nonzero, keeps_level, aged,
}
use huge_pie.Sched.Drop.{
  lists2, lists3, joined, lists2_next, others_kept, exits3, sum_total, sum_census,
}
use huge_pie.Links.{Node, load}
use huge_pie.Base.{
  ℕ, suc, ◌+◌, ◌*◌, ◌≤◌, ◌<◌, ◌≡◌, ◌≢◌, inl, inr, refl, sym, ap, ◌∙◌, pos, Bool, true, false, ◌||◌,
  some, List, [], ◌∷◌, length, ◌==◌, eqb_ℤ, dec_int, arith, ◌>>=◌, Bool-cases, Returns, returns,
  bind, ==→ne,
}

or_middle : (a b c : Bool) → (a || (b || c)) ≡ false → b ≡ false
or_middle true b c e = absurd cc
or_middle false true c e = absurd cc
or_middle false false c e = refl

module _ (fuel : ℕ) (heads : ℕ → ℕ) (lists : Lists) (s : Sched)
    (v : IsSched fuel heads lists s) where
  abbrev c : ℕ
  c = s.current_task

  abbrev lc : ℕ
  lc = v.current.level

  -- After the time slice: the lists hold the same processes, and the current one is older.
  pub record Demoted (r : Sched) : Type 0 where
    pub lists' : Lists
    pub nodes' : List (Node Slot)
    pub tasks' : List Task
    pub result : r ≡ record s { nodes = nodes'; tasks = tasks' }
    pub valid : IsSched fuel heads lists' (record s { nodes = nodes'; tasks = tasks' })
    pub kept : (p : ℕ) → census lists' p ≡ census lists p
    pub exits : lists' 3 ≡ lists 3
    pub others : (l p : ℕ) → p ≢ c → count p (lists' l) ≡ count p (lists l)
    pub tasks_kept : (p : ℕ) → p ≢ c → task_at tasks' p ≡ task_at s.tasks p
    pub here : task_at tasks' c ≡ some (aged v.current)

  stays : keeps_level v.current ≡ true → Demoted s
  unfolding aged
  stays e = record {
    lists' = lists;
    nodes' = s.nodes;
    tasks' = s.tasks;
    result = refl;
    valid = v;
    kept = λ p. refl;
    exits = refl;
    others = λ l p ne. refl;
    tasks_kept = λ p ne. refl;
    here = rw e v.current_at;
  }

  -- The current process is replaced in the array of tasks.
  abbrev retask : Task → List Task
  retask t = put_task s.tasks c t

  retask-Rebuilt :
      (t : Task)
      → t.pid ≡ v.current.pid
      → t.level ≡ lc
      → Rebuilt fuel heads lists s v lists s.nodes (retask t)
  retask-Rebuilt t e f = record {
    linked = v.linked;
    size = refl;
    others = λ l p ne. refl;
    exits = λ p. refl;
    task = t;
    task_here = task_at-replaced_self s.tasks c t v.current_at;
    pid = e;
    low = rw f v.current_level;
    here = rw f v.current_queued;
    once = current_once fuel heads lists s v;
    idle = λ lt. lt;
    tasks_kept = λ p ne. task_at-replaced_ne s.tasks c p t (λ q. ne (sym q));
  }

  -- A unit of time less.
  abbrev tick : Task
  tick = record v.current { time_cnt = dec_int v.current.time_cnt }

  ticks :
      keeps_level v.current ≡ false
      → eqb_ℤ (dec_int v.current.time_cnt) (pos 0) ≡ false
      → Demoted (record s { tasks = retask tick })
  unfolding aged
  ticks e z =
      let r = retask-Rebuilt tick refl refl in
      record {
        lists' = lists;
        nodes' = s.nodes;
        tasks' = retask tick;
        result = refl;
        valid = rebuild fuel heads lists s v lists s.nodes (retask tick) r;
        kept = λ p. refl;
        exits = refl;
        others = λ l p ne. refl;
        tasks_kept = r.tasks_kept;
        here = rw (e, z) (task_at-replaced_self s.tasks c tick v.current_at);
      }

  module _ (e : keeps_level v.current ≡ false) (at : At c (lists lc)) where
    -- The state when the time was counted down.
    abbrev s1 : Sched
    s1 = record s { tasks = retask tick }

    v1 : IsSched fuel heads lists s1
    v1 = rebuild fuel heads lists s v lists s.nodes (retask tick) (retask-Rebuilt tick refl refl)

    tick_at : task_at s1.tasks c ≡ some tick
    tick_at = task_at-replaced_self s.tasks c tick v.current_at

    low : lc < 2
    low =
        let ne : lc ≢ 2 =
          ==→ne lc 2 (
            or_middle (eqb_ℤ v.current.fixed (pos 1)) (lc == 2) (v.current.state == pc_finish) e) in
        omega (arith, ne, v.current_level)

    le : lc ≤ pri_queue_num
    le = omega (arith, low)

    -- The process as it stands one level below.
    abbrev dropped : Task
    dropped = record v.current { time_cnt = pos (time_unit * (lc + 1 + 1)); level = lc + 1 }

    -- The tasks after the three writes to the current one.
    abbrev tasks3 : List Task
    tasks3 = put_task (put_task (retask tick) c (record tick { level = lc + 1 })) c dropped

    level_at :
        task_at (put_task (retask tick) c (record tick { level = lc + 1 })) c
        ≡ some (record tick { level = lc + 1 })
    level_at = task_at-replaced_self (retask tick) c (record tick { level = lc + 1 }) tick_at

    dropped_at : task_at tasks3 c ≡ some dropped
    dropped_at =
        task_at-replaced_self (put_task (retask tick) c (record tick { level = lc + 1 })) c dropped
          level_at

    tasks3_kept : (p : ℕ) → p ≢ c → task_at tasks3 p ≡ task_at s.tasks p
    tasks3_kept p ne =
        let off : c ≢ p = (λ q. ne (sym q)) in
        task_at-replaced_ne _ c p dropped off
        ∙ (task_at-replaced_ne _ c p (record tick { level = lc + 1 }) off
            ∙ task_at-replaced_ne _ c p tick off)

    dropped-Demoted :
        (z : eqb_ℤ (dec_int v.current.time_cnt) (pos 0) ≡ true) (n : ℕ) (g : List (Node Slot))
        → Linked heads (lists3 fuel heads lists s v at low n) g
        → Demoted (record s { nodes = g; tasks = tasks3 })
    unfolding aged
    dropped-Demoted z n g linked =
        let r : Rebuilt fuel heads lists s v (lists3 fuel heads lists s v at low n) g tasks3 =
          record {
            linked = linked;
            size = sum_total fuel heads lists s v at low n;
            others = others_kept fuel heads lists s v at low n;
            exits = λ p. ap (count p) (exits3 fuel heads lists s v at low n);
            task = dropped;
            task_here = dropped_at;
            pid = refl;
            low = omega (arith, low);
            here =
                rw
                  (replaced_self (lists2 fuel heads lists s v at low) (lc + 1)
                    (joined fuel heads lists s v at low n))
                  (omega (
                    arith,
                    count_self (n, record { task = c; level = lc + 1 }) [],
                    count-append c ((lists2 fuel heads lists s v at low) (lc + 1))
                        ((n, record { task = c; level = lc + 1 }) ∷ []),
                  ));
            once = sum_census fuel heads lists s v at low n ∙ current_once fuel heads lists s v;
            idle = λ lt.
                (let k = v.level 2 c v.current (omega arith) lt v.current_at in
                  absurd (omega (arith, k, low)));
            tasks_kept = tasks3_kept;
          } in
        record {
          lists' = lists3 fuel heads lists s v at low n;
          nodes' = g;
          tasks' = tasks3;
          result = refl;
          valid = rebuild fuel heads lists s v (lists3 fuel heads lists s v at low n) g tasks3 r;
          kept = census_kept fuel heads lists s v (lists3 fuel heads lists s v at low n) g tasks3 r;
          exits = exits3 fuel heads lists s v at low n;
          others = others_kept fuel heads lists s v at low n;
          tasks_kept = tasks3_kept;
          here = rw (e, z) dropped_at;
        }

    abbrev entry : ℕ
    entry = at.entry.0

    -- The node of the current process is taken out and one is made at the next level.
    drops :
        eqb_ℤ (dec_int v.current.time_cnt) (pos 0) ≡ true
        → Returns Demoted (do
          x ← load s1.nodes entry
          (code, t2) ← list_delete fuel x.item.level entry s1
          (code', t3) ← add_task_to_list fuel (v.current.level + 1) t2.current_task t2
          t4 ← edit_task t3.current_task (λ t. record t { level = t.level + 1 }) t3
          edit_task t4.current_task
              (λ t. record t { time_cnt = pos (time_unit * (t.level + 1)) })
              t4)
    drops z = rw (entry_here fuel heads lists s1 v1 lc c le tick tick_at at) (
        rw (level_here fuel heads lists s1 v1 lc c le tick tick_at at) (
          bind
            (list_delete-Edited fuel heads lists s1 v.linked v.tops lc le at.before at.entry
              at.after at.split (short_here fuel heads lists s1 v1 lc c le tick tick_at at) tick
              (entry_at fuel heads lists s1 v1 lc c le tick tick_at at)
              (current_positive fuel heads lists s v)
              (others fuel heads lists s1 v1 lc c le tick tick_at at)
              (eqb_ℤ_refl fuel heads lists s1 v1 v.current.pid))
            λ r w. rw w.result (
              bind
                (add_task_to_list-Edited fuel heads (lists2 fuel heads lists s v at low)
                  (record s1 { nodes = w.nodes }) w.linked v.tops (lc + 1) (omega (arith, low))
                  (let f = fits fuel heads lists s v (lc + 1) (omega (arith, low)) in
                    omega (
                      arith,
                      f,
                      ap length (lists2_next fuel heads lists s v at low (suc (length w.nodes))),
                    ))
                  c (task_at-nonzero s.tasks c v.current_at))
                λ q u.
                  rw
                    (
                      u.result,
                      edit_task_lem c (λ t. record t { level = t.level + 1 })
                          (record s1 { nodes = u.nodes }) tick_at,
                    )
                    (rw
                      (edit_task_lem c
                        (λ t. record t { time_cnt = pos (time_unit * (t.level + 1)) })
                        (record s1 {
                          nodes = u.nodes;
                          tasks = put_task (retask tick) c (record tick { level = lc + 1 });
                        })
                        level_at)
                      (returns (dropped-Demoted z (suc (length w.nodes)) u.nodes u.linked))))))

  -- `demote` is `aged` for the current process, and moves it from its list to the end of the next one when it goes a level down.
  pub demote-Demoted : (at : At c (lists lc)) → Returns Demoted (demote fuel at.entry.0 s)
  unfolding demote
  demote-Demoted at = elim (Bool-cases (keeps_level v.current)) [
    | inl y ↦ rw (v.current_at, y) (returns (stays y))
    | inr n ↦
        rw
          (
            v.current_at,
            n,
            edit_task_lem c (λ t. record t { time_cnt = dec_int t.time_cnt }) s v.current_at,
          )
          (elim (Bool-cases (eqb_ℤ (dec_int v.current.time_cnt) (pos 0))) [
            | inl z ↦ rw z (drops n at z)
            | inr m ↦ rw m (returns (ticks n m))
          ])
  ]
