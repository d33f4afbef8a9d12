-- ===== src/Sched/Next.antt =====
-- `pc_find_next` of kernel/pc/pc.c: the process that runs next.
use huge_pie.Sched.{Sched, Slot, pri_queue_num, pc_ready, task_at}
use huge_pie.Sched.Schedule.{is_ready, task_of, pc_find_available, find_in_order}
use huge_pie.Sched.Choice.{Chosen, switched, stayed, Next, count-All, append-snoc}
use huge_pie.Sched.Walk.{NotReady, is_ready_lem}
use huge_pie.Sched.Linked.{Lists}
use huge_pie.Sched.Edit.{here}
use huge_pie.Sched.Count.{count, count-append, count_self, At, At-count}
use huge_pie.Sched.Find.{
  Available, nothing, node, Reached, nowhere, reached, pc_find_available-Available,
  first_available-Reached,
}
use huge_pie.Sched.Invariant.{IsQueue, IsSched, count-le_census, tasked, fits, level_here}
use huge_pie.Links.{Node, load}
use huge_pie.Links.Chain.{first_address, last_address}
use huge_pie.Links.Cells.{nonzero}
use huge_pie.Base.{
  ℕ, suc, ◌≤◌, ◌<◌, ◌≡◌, ◌≢◌, inl, inr, refl, sym, ap, ◌∙◌, pos, true, false, not, Option, some,
  some-injective, List, [], ◌∷◌, ◌++◌, length, All, ◌==◌, if◌then◌else◌, subst, arith,
  length-append, ◌>>=◌, Bool-cases, Returns, returns, ==→eq, ==→ne, ne→==,
}

module _ (fuel : ℕ) (heads : ℕ → ℕ) (lists : Lists) (s : Sched) (v : IsSched fuel heads lists s)
    (own : (v.current.state == pc_ready) ≡ true → v.current.pid ≡ pos 0) where
  abbrev pub c : ℕ
  c = s.current_task

  abbrev pub lc : ℕ
  lc = v.current.level

  abbrev pub Idle : Type 0
  Idle = v.current.pid ≡ pos 0

  -- Where the current process stands.
  pub place : At c (lists lc)
  place = At-count c (lists lc) v.current_queued

  pub current_le : lc ≤ pri_queue_num
  current_le = omega (arith, v.current_level)

  -- A ready process of a list is a choice.
  pub ready_choice :
      (l p : ℕ)
      → IsQueue l
      → 0 < count p (lists l)
      → is_ready s.tasks p ≡ some true
      → Chosen lists s Idle p
  ready_choice l p q lt ready = elim (Bool-cases (p == c)) [
    | inl y ↦
        (let e = ==→eq p c y in
          stayed e (
            own (
              some-injective _ _ (
                sym (is_ready_lem s.tasks c v.current_at)
                ∙ (ap (is_ready s.tasks) (sym e) ∙ ready)))))
    | inr n ↦ switched l q (==→ne p c n) lt ready
  ]

  pub count_split :
      (l : ℕ) (ys : List (ℕ × Slot)) (x : ℕ × Slot) (zs : List (ℕ × Slot))
      → lists l ≡ ys ++ x ∷ zs
      → 0 < count x.1.task (lists l)
  count_split l ys x zs e = rw e (omega (arith, count-append x.1.task ys (x ∷ zs), count_self x zs))

  -- The task of a node of a list.
  pub task_here :
      (l : ℕ)
      → l ≤ pri_queue_num
      → (ys : List (ℕ × Slot)) (x : ℕ × Slot) (zs : List (ℕ × Slot)) → lists l ≡ ys ++ x ∷ zs
      → task_of fuel x.0 s ≡ some x.1.task
  task_here l le ys x zs e =
      rw
        (here fuel heads lists s v.linked v.tops l le ys x zs e
          (omega (arith, fits fuel heads lists s v l le, ap length e, length-append ys (x ∷ zs))))
        refl

  -- The lists are not changed.
  pub kept : (p : ℕ) → Chosen lists s Idle p → Next heads lists s lc Idle (p, s)
  kept p chosen = record {
    nodes = s.nodes;
    lists' = lists;
    result = refl;
    linked = v.linked;
    reordered = λ l p. refl;
    same = refl;
    size = refl;
    exits = refl;
    chosen = chosen;
  }

  -- The idle process is ready, if it is not the current one.
  pub idle_ready : v.idle ≢ c → is_ready s.tasks v.idle ≡ some true
  idle_ready ne = v.ready 2 v.idle (omega arith) ne v.idle_queued

  some_ready : All (NotReady s.tasks) (lists 2) → v.idle ≡ c
  some_ready none_ready = elim (Bool-cases (v.idle == c)) [
    | inl y ↦ ==→eq v.idle c y
    | inr n ↦
        (let f =
            count-All (λ p. is_ready s.tasks p ≡ some false) (lists 2) none_ready v.idle
              v.idle_queued in
          let d : some true ≡ some false = sym (idle_ready (==→ne v.idle c n)) ∙ f in absurd cc)
  ]

  pub idle_current : v.idle ≡ c → Idle
  idle_current e =
      ap (λ t. t.pid)
        (some-injective _ _ (sym v.current_at ∙ (ap (task_at s.tasks) (sym e) ∙ v.idle_at)))
      ∙ v.idle_pid

  -- A current process above the lowest level is not the idle one.
  pub idle_below : lc < 2 → v.idle ≢ c
  idle_below lt e =
      let two : 0 < count c (lists 2) = subst (λ p. 0 < count p (lists 2)) e v.idle_queued in
      let lev = v.level 2 c v.current (omega arith) two v.current_at in omega (arith, lev)

  pub entry_level : place.entry.1.level ≡ lc
  entry_level = level_here fuel heads lists s v lc c current_le v.current v.current_at place

  -- The node behind the current one has another process.
  behind :
      (y : ℕ × Slot) (ys : List (ℕ × Slot))
      → lists lc ≡ place.before ++ place.entry ∷ y ∷ ys
      → is_ready s.tasks y.1.task ≡ some true
  behind y ys e = v.ready lc y.1.task v.current_level ne there
    where
      there : 0 < count y.1.task (lists lc)
      there = rw e (
          omega (arith, count-append y.1.task place.before (place.entry ∷ y ∷ ys), count_self y ys))

      ne : y.1.task ≢ c
      ne q =
          let twice : count c (y ∷ ys) ≡ suc (count c ys) =
            subst (λ p. count p (y ∷ ys) ≡ suc (count p ys)) q (count_self y ys) in
          let once : count c (place.entry ∷ y ∷ ys) ≡ suc (count c (y ∷ ys)) =
            subst (λ p. count p (place.entry ∷ y ∷ ys) ≡ suc (count p (y ∷ ys))) place.task
              (count_self place.entry (y ∷ ys)) in
          let one = v.once c in
          let le = count-le_census lists lc c current_le in
          omega (
            arith,
            twice,
            once,
            one,
            le,
            ap (count c) e,
            count-append c place.before (place.entry ∷ y ∷ ys),
          )

  -- The last steps of the search, when no higher level has a ready process.
  search_here : List (ℕ × Slot) → Option ℕ
  search_here zs = do
    follows ←
        (if first_address zs == 0
          then some false
          else (do y ← load s.nodes (first_address zs); is_ready s.tasks y.item.task))
    if follows then task_of fuel (first_address zs) s else (do
      again ← pc_find_available fuel lc s
      task_of fuel (if again == 0 then place.entry.0 else again) s)

  again-Chosen :
      {o : Option ℕ}
      → Available fuel heads lists s v.linked v.tops (tasked fuel heads lists s v) v.short lc o
      → lc ≡ 2
      → Returns
          (λ p. Chosen lists s Idle p)
          (do again ← o; task_of fuel (if again == 0 then place.entry.0 else again) s)
  again-Chosen (nothing none_ready) low =
      rw (task_here lc current_le place.before place.entry place.after place.split) (
        returns (
          stayed place.task (
            idle_current
              (some_ready (subst (λ l. All (NotReady s.tasks) (lists l)) low none_ready)))))
  again-Chosen (node ys x zs e nz ready) low =
      rw (ne→== x.0 0 (λ q. nz (sym q)), task_here lc current_le ys x zs e)
        (returns (ready_choice lc x.1.task v.current_level (count_split lc ys x zs e) ready))

  search_here-Chosen :
      (zs : List (ℕ × Slot))
      → lists lc ≡ place.before ++ place.entry ∷ zs
      → (zs ≡ [] → lc ≡ 2)
      → Returns (λ p. Chosen lists s Idle p) (search_here zs)
  unfolding search_here
  search_here-Chosen [] e last =
      again-Chosen
        (pc_find_available-Available fuel heads lists s v.linked v.tops
          (tasked fuel heads lists s v) v.short lc current_le)
        (last refl)
  search_here-Chosen (y ∷ ys) e last =
      let e' : lists lc ≡ (place.before ++ place.entry ∷ []) ++ y ∷ ys =
        e ∙ append-snoc place.before place.entry (y ∷ ys) in
      let short_y : length (place.before ++ place.entry ∷ []) < fuel = omega (
        arith,
        fits fuel heads lists s v lc current_le,
        ap length e',
        length-append (place.before ++ place.entry ∷ []) (y ∷ ys),
      ) in
      let y_here =
        here fuel heads lists s v.linked v.tops lc current_le (place.before ++ place.entry ∷ []) y
          ys e' short_y in
      let ready = behind y ys e in
      rw (ne→== y.0 0 (λ q. nonzero s.nodes y.0 y_here (sym q)), y_here, ready)
        (returns (ready_choice lc y.1.task v.current_level (count_split lc _ y ys e') ready))

  high-Chosen :
      {o : Option ℕ}
      → Reached fuel heads lists s v.linked v.tops (tasked fuel heads lists s v) v.short lc 0 o
      → (place.after ≡ [] → lc ≡ 2)
      → Returns
          (λ p. Chosen lists s Idle p)
          (do high ← o; if not (high == 0) then task_of fuel high s else search_here place.after)
  high-Chosen (nowhere rest) last = search_here-Chosen place.after place.split last
  high-Chosen (reached l le lt ys x zs e nz ready) last =
      let q : IsQueue l = omega (arith, v.current_level) in
      rw (ne→== x.0 0 (λ q. nz (sym q)), task_here l (omega (arith, v.current_level)) ys x zs e)
        (returns (ready_choice l x.1.task q (count_split l ys x zs e) ready))

  -- The node of the current process.
  abbrev pub node_here : Node Slot
  node_here = record {
    next = first_address place.after;
    previous = last_address (heads lc) place.before;
    item = place.entry.1;
  }

  pub find_in_order-Chosen :
      (place.after ≡ [] → lc ≡ 2)
      → Returns (λ p. Chosen lists s Idle p) (find_in_order fuel place.entry.0 node_here s)
  unfolding find_in_order search_here
  find_in_order-Chosen last = rw entry_level (
      high-Chosen
        (first_available-Reached fuel heads lists s v.linked v.tops (tasked fuel heads lists s v)
          v.short lc 0 (omega (arith, current_le)))
        last)
