-- ===== src/Sched/Lists.antt =====
-- kernel/pc/pc.c: the task lists, from `list_init` to `add_task_to_list`. The walks over a list take fuel.
use huge_pie.Sched.{Sched, Slot, Task, pri_queue_num, task_at}
use huge_pie.Base.{
  ℕ, zero, suc, ℤ, pos, negsuc, Option, none, some, List, [], ◌∷◌, get_elem?, ltb_ℤ, eqb_ℤ, ◌==◌,
  if◌then◌else◌, ◌>>=◌,
}
use huge_pie.Links.{Node, load, alloc, set_next, set_previous, set_item, turn_back, turn_on}

-- A node that `kmalloc` gave, with all its fields written.
abbrev pub new_node : ℕ → ℕ → Node Slot
new_node task level = record {
  next = 0;
  previous = 0;
  item = record { task = task; level = level };
}

-- The heads of the lists from a level on.
unfoldable pub new_lists : ℕ → ℕ → List (Node Slot) → List (Node Slot) × List ℕ
new_lists zero i h = (h, [])
new_lists (suc n) i h =
    let (h', p) = alloc h (new_node 0 i) in let (h'', ps) = new_lists n (suc i) h' in (h'', p ∷ ps)

unfoldable pub list_init : Sched → Option Sched
list_init s = do
  (h, ps) ← some (new_lists (suc pri_queue_num) 0 s.nodes)
  last ← get_elem? ps pri_queue_num
  some (record s { nodes = h; task_lists = ps; exit_list = last })

module _ (fuel : ℕ) where
  -- The loop of `list_find_by_pid`; it ends at the first node without a task, too.
  unfoldable pub find_node_loop : ℕ → List Task → List (Node Slot) → ℤ → ℕ → Option ℕ
  find_node_loop n tasks h pid zero = some 0
  find_node_loop zero tasks h pid (suc p) = none
  find_node_loop (suc n) tasks h pid (suc p) = do
    x ← load h (suc p)
    let rest = find_node_loop n tasks h pid x.next
    if x.item.task == 0
        then some (suc p)
        else (do t ← task_at tasks x.item.task; if eqb_ℤ t.pid pid then some (suc p) else rest)

  unfoldable pub list_find_by_pid : ℕ → ℤ → Sched → Option ℕ
  list_find_by_pid level pid s = if ltb_ℤ pid (pos 0) then some 0 else (do
    head ← get_elem? s.task_lists level
    x ← load s.nodes head
    find_node_loop fuel s.tasks s.nodes pid x.next)

  -- The loop of `list_find`, which does not look whether a node has a task.
  unfoldable pub find_proc_loop : ℕ → List Task → List (Node Slot) → ℤ → ℕ → Option ℕ
  find_proc_loop n tasks h pid zero = some 0
  find_proc_loop zero tasks h pid (suc p) = none
  find_proc_loop (suc n) tasks h pid (suc p) = do
    x ← load h (suc p)
    let rest = find_proc_loop n tasks h pid x.next
    t ← task_at tasks x.item.task
    if eqb_ℤ t.pid pid then some (suc p) else rest

  unfoldable pub list_find : ℕ → ℕ → Sched → Option ℕ
  list_find level zero s = some 0
  list_find level (suc proc) s = do
    head ← get_elem? s.task_lists level
    x ← load s.nodes head
    t ← task_at s.tasks (suc proc)
    find_proc_loop fuel s.tasks s.nodes t.pid x.next

  -- `for(tail = p; tail!=NULL && tail->next!=NULL; tail = tail->next);`
  unfoldable pub tail_loop : ℕ → List (Node Slot) → ℕ → Option ℕ
  tail_loop n h zero = some 0
  tail_loop zero h (suc p) = none
  tail_loop (suc n) h (suc p) = do
    x ← load h (suc p)
    let rest = tail_loop n h x.next
    if x.next == 0 then some (suc p) else rest

  unfoldable pub list_move_to_end : ℕ → Sched → Option (ℤ × Sched)
  list_move_to_end zero s = some (negsuc 0, s)
  list_move_to_end (suc node) s = do
    x ← load s.nodes (suc node)
    if x.item.task == 0 then some (negsuc 0, s) else if x.next == 0 then some (pos 0, s) else (do
      head ← get_elem? s.task_lists x.item.level
      tail ← tail_loop fuel s.nodes head
      h1 ← turn_on s.nodes x.previous x.next
      y ← load h1 (suc node)
      h2 ← turn_back h1 y.next y.previous
      h3 ← set_previous h2 (suc node) tail
      h4 ← set_next h3 (suc node) 0
      h5 ← set_next h4 tail (suc node)
      some (pos 0, record s { nodes = h5 }))

  unfoldable pub list_move_to_head : ℕ → Sched → Option (ℤ × Sched)
  list_move_to_head zero s = some (negsuc 0, s)
  list_move_to_head (suc node) s = do
    x ← load s.nodes (suc node)
    if x.item.task == 0 then some (negsuc 0, s) else (do
      before ← load s.nodes x.previous
      if before.item.task == 0 then some (pos 0, s) else (do
        head ← get_elem? s.task_lists x.item.level
        h1 ← turn_on s.nodes x.previous x.next
        y ← load h1 (suc node)
        h2 ← turn_back h1 y.next y.previous
        z ← load h2 head
        h3 ← turn_back h2 z.next (suc node)
        w ← load h3 head
        h4 ← set_next h3 (suc node) w.next
        h5 ← set_previous h4 (suc node) head
        h6 ← set_next h5 head (suc node)
        some (pos 0, record s { nodes = h6 })))

  unfoldable pub list_insert : ℕ → ℕ → Sched → Option (ℤ × Sched)
  list_insert level zero s = some (negsuc 0, s)
  list_insert level (suc node) s = do
    head ← get_elem? s.task_lists level
    tail ← tail_loop fuel s.nodes head
    h1 ← set_next s.nodes tail (suc node)
    h2 ← set_previous h1 (suc node) tail
    h3 ← set_next h2 (suc node) 0
    h4 ← set_item h3 (suc node) (λ i. record i { level = level })
    some (pos 0, record s { nodes = h4 })

  unfoldable pub list_delete : ℕ → ℕ → Sched → Option (ℤ × Sched)
  list_delete level zero s = some (negsuc 0, s)
  list_delete level (suc node) s = do
    x ← load s.nodes (suc node)
    if x.item.task == 0 then some (negsuc 0, s) else (do
      t ← task_at s.tasks x.item.task
      target ← list_find_by_pid level t.pid s
      if target == 0 then some (negsuc 0, s) else (do
        y ← load s.nodes target
        h1 ← turn_back s.nodes y.next y.previous
        z ← load h1 target
        h2 ← turn_on h1 z.previous z.next
        some (pos 0, record s { nodes = h2 })))

  unfoldable pub add_task_to_list : ℕ → ℕ → Sched → Option (ℤ × Sched)
  add_task_to_list level zero s = some (negsuc 0, s)
  add_task_to_list level (suc task) s = do
    (h, node) ← some (alloc s.nodes (new_node (suc task) level))
    (code, s') ← list_insert level node (record s { nodes = h })
    some (pos 0, s')
