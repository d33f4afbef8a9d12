-- ===== src/Sched/Boot.antt =====
-- `init_pc` of kernel/pc/pc.c: the state in which the scheduler starts.
use huge_pie.Sched.{
  Sched, Slot, Task, pri_queue_num, pc_init, pc_ready, task_at, put_task, edit_task,
}
use huge_pie.Sched.Lists.{list_init, new_lists, new_node}
use huge_pie.Sched.Schedule.{is_ready}
use huge_pie.Sched.Tasks.{new_task, idle_name, init_pc}
use huge_pie.Sched.Linked.{Lists, Linked, nodes_of, replaced}
use huge_pie.Sched.Edit.{AreHeads}
use huge_pie.Sched.Append.{add_task_to_list-Edited}
use huge_pie.Sched.Count.{count, census}
use huge_pie.Sched.Invariant.{IsSched}
use huge_pie.Sched.Slice.{IsActive}
use huge_pie.Pid.{init_pid}
use huge_pie.Mail.{init_mailbox}
use huge_pie.Avl.{null}
use huge_pie.Strings.{kernel_strcpy}
use huge_pie.Strings.Copy.{drop, kernel_strcpy_lem}
use huge_pie.Links.{Node, load, alloc}
use huge_pie.Links.Chain.{Chain, nil, cons, Apart}
use huge_pie.Base.{
  ℕ, zero, suc, ◌≤◌, ◌<◌, ◌≡◌, ◌≢◌, refl, sym, ap, ◌∙◌, pos, true, some, some-injective, subst,
  List, [], ◌∷◌, length, arith, Returns, returns, bind,
}

-- The memory before the start: the variables are 0, and nothing was allocated.
abbrev pub boot : Sched
boot = record {
  nodes = [];
  tasks = [];
  task_lists = [];
  exit_list = 0;
  current_task = 0;
  pid_tree = null;
  mailbox_tree = null;
  post = record { boxes = []; mails = [] };
}

-- The head of a level.
abbrev pub heads : ℕ → ℕ
heads l = suc l

abbrev no_tasks : Lists
no_tasks l = []

abbrev empty_nodes : List (Node Slot)
empty_nodes = new_node 0 0 ∷ new_node 0 1 ∷ new_node 0 2 ∷ new_node 0 3 ∷ []

empty-Linked : Linked heads no_tasks empty_nodes
unfolding load
empty-Linked = record { chains = chains; apart = apart; levels = λ l le. tt }
  where
    chains : (l : ℕ) → l ≤ pri_queue_num → Chain empty_nodes 0 (heads l) (nodes_of heads no_tasks l)
    chains zero le = cons refl (λ i. i) (nil refl)
    chains (suc zero) le = cons refl (λ i. i) (nil refl)
    chains (suc (suc zero)) le = cons refl (λ i. i) (nil refl)
    chains (suc (suc (suc zero))) le = cons refl (λ i. i) (nil refl)
    chains (suc (suc (suc (suc n)))) le = absurd (omega arith)

    apart :
        (l m : ℕ)
        → l ≤ pri_queue_num
        → m ≤ pri_queue_num
        → l ≢ m
        → Apart (nodes_of heads no_tasks l) (nodes_of heads no_tasks m)
    apart l m a b ne = λ x i j. omega (arith, i, j, ne)

-- The list of the lowest level has the idle process.
abbrev pub first_lists : Lists
first_lists = replaced no_tasks 2 ((5, record { task = 1; level = 2 }) ∷ [])

module _ (fuel : ℕ) (enough : 2 < fuel) (fresh : Task) (room : 4 < length fresh.name) where
  -- The idle process as it is written before it is queued, and afterwards.
  abbrev name : List ℕ
  name = 105 ∷ 100 ∷ 108 ∷ 101 ∷ 0 ∷ drop fresh.name 5

  abbrev written : Task
  written = record fresh {
    pid = pos 0;
    state = pc_init;
    asid = pos 0;
    name = name;
    level = 2;
    fixed = pos 1;
    time_cnt = pos 900;
  }

  abbrev idle : Task
  idle = record written { state = pc_ready }

  -- The state after the start.
  abbrev started : List (Node Slot) → Sched
  started nodes = record {
    nodes = nodes;
    tasks = idle ∷ [];
    task_lists = 1 ∷ 2 ∷ 3 ∷ 4 ∷ [];
    exit_list = 4;
    current_task = 1;
    pid_tree = init_pid true;
    mailbox_tree = init_mailbox true;
    post = boot.post;
  }

  -- Only the idle process is in a list.
  only : (l p : ℕ) → l ≤ pri_queue_num → 0 < count p (first_lists l) → (l ≡ 2) × (p ≡ 1)
  only zero p le lt = absurd (omega arith)
  only (suc zero) p le lt = absurd (omega arith)
  only (suc (suc zero)) p le lt = ground arith
  only (suc (suc (suc zero))) p le lt = absurd (omega arith)
  only (suc (suc (suc (suc n)))) p le lt = absurd (omega arith)

  only_one : (p : ℕ) → 0 < census first_lists p → p ≡ 1
  only_one p lt = ground arith

  tops : (nodes : List (Node Slot)) → AreHeads heads (started nodes)
  tops nodes zero le = refl
  tops nodes (suc zero) le = refl
  tops nodes (suc (suc zero)) le = refl
  tops nodes (suc (suc (suc zero))) le = refl
  tops nodes (suc (suc (suc (suc n)))) le = absurd (omega arith)

  level :
      (l p : ℕ) (t : Task)
      → l ≤ pri_queue_num
      → 0 < count p (first_lists l)
      → task_at (idle ∷ []) p ≡ some t
      → t.level ≡ l
  unfolding task_at
  level l p t le lt at =
      let (low, one) = only l p le lt in
      ap (λ u. u.level) (some-injective _ _ (sym at ∙ ap (task_at (idle ∷ [])) one)) ∙ sym low

  started-IsSched :
      (nodes : List (Node Slot))
      → Linked heads first_lists nodes
      → IsSched fuel heads first_lists (started nodes)
  unfolding task_at is_ready
  started-IsSched nodes linked = record {
    linked = linked;
    tops = tops nodes;
    exit = refl;
    short = omega (arith, enough);
    once = λ p. ground arith;
    live = λ l p le lt. (idle, ap (task_at (idle ∷ [])) (only l p le lt).1, refl);
    distinct = λ p q t u a b c d e. only_one p a ∙ sym (only_one q b);
    level = λ l p t q lt at. level l p t (omega (arith, q)) lt at;
    ready = λ l p q ne lt. absurd (ne (only l p (omega (arith, q)) lt).1);
    idle = 1;
    idle_task = idle;
    idle_at = refl;
    idle_pid = refl;
    idle_queued = omega arith;
    current = idle;
    current_at = refl;
    current_level = omega arith;
    current_queued = omega arith;
  }

  four_lists :
      list_init boot
      ≡ some (record boot { nodes = empty_nodes; task_lists = 1 ∷ 2 ∷ 3 ∷ 4 ∷ []; exit_list = 4 })
  unfolding list_init new_lists alloc
  four_lists = refl

  name_copied : kernel_strcpy fresh.name idle_name ≡ some name
  name_copied =
      kernel_strcpy_lem fresh.name (105 ∷ 100 ∷ 108 ∷ 101 ∷ []) [] (omega arith) (omega arith)

  -- The state before the idle process is queued.
  abbrev queueing : Sched
  queueing = record (started empty_nodes) { tasks = written ∷ []; current_task = 0 }

  -- A good start: the invariant holds, and the idle process runs.
  pub record Started (s : Sched) : Type 0 where
    pub valid : IsSched fuel heads first_lists s
    pub active : IsActive valid.current

  idle-IsActive : (t : Task) → t ≡ idle → IsActive t
  idle-IsActive t e = subst IsActive (sym e) (record { unfinished = refl; own = λ q. refl })

  started-Started :
      (nodes : List (Node Slot)) → Linked heads first_lists nodes → Started (started nodes)
  unfolding task_at
  started-Started nodes linked =
      let v = started-IsSched nodes linked in
      record { valid = v; active = idle-IsActive v.current (some-injective _ _ (sym v.current_at)) }

  -- From an empty memory, with fuel for the lists and at least five bytes for the name, `init_pc` ends without a fault in a state of
  -- the scheduler whose lists hold the idle process alone, which runs.
  pub init_pc-Started : Returns Started (init_pc fuel fresh boot)
  unfolding init_pc new_task put_task edit_task task_at
  init_pc-Started =
      rw (four_lists, name_copied)
        (bind
          (add_task_to_list-Edited fuel heads no_tasks queueing empty-Linked (tops empty_nodes) 2
            (omega arith) (omega (arith, enough)) 1 (λ z. omega (arith, z)))
          λ r w. rw w.result (returns (started-Started w.nodes w.linked)))
