-- ===== src/Sched/Schedule.antt =====
-- kernel/pc/pc.c: `pc_find_available`, `pc_find_next`, `pc_clear_exit` and `pc_schedule`. What is printed and the writes of
-- the registers of the timer are left out.
use huge_pie.Sched.{
  Sched, Slot, Task, Context, copy_context, pri_queue_num, proc_exit_level, time_unit, idle_pid,
  pc_ready, pc_running, pc_finish, task_at, edit_task,
}
use huge_pie.Sched.Lists.{list_find_by_pid, list_move_to_end, list_delete, add_task_to_list}
use huge_pie.Base.{
  ℕ, zero, suc, ◌+◌, ◌-◌, ◌*◌, ℤ, pos, negsuc, Bool, false, not, ◌&&◌, ◌||◌, Option, none, some,
  List, get_elem?, ltb, eqb_ℤ, ◌==◌, if◌then◌else◌, ◌>>=◌, dec_int,
}
use huge_pie.Pid.{del_pid}
use huge_pie.Mail.{destroy_mailbox}
use huge_pie.Links.{Node, load}

-- How `pc_schedule` ends: with the registers of the next process, or in a loop without end.
pub data Scheduled : Type 0 where
  running : Sched → Context → Scheduled
  halted : Scheduled

-- `node->task != NULL && node->task->state == PC_READY`
unfoldable pub is_ready : List Task → ℕ → Option Bool
is_ready tasks zero = some false
is_ready tasks (suc p) = do t ← task_at tasks (suc p); some (t.state == pc_ready)

module _ (fuel : ℕ) where
  unfoldable pub available_loop : ℕ → List Task → List (Node Slot) → ℕ → Option ℕ
  available_loop n tasks h zero = some 0
  available_loop zero tasks h (suc p) = none
  available_loop (suc n) tasks h (suc p) = do
    x ← load h (suc p)
    let rest = available_loop n tasks h x.next
    r ← is_ready tasks x.item.task
    if r then some (suc p) else rest

  unfoldable pub pc_find_available : ℕ → Sched → Option ℕ
  pc_find_available level s = do
    head ← get_elem? s.task_lists level
    available_loop fuel s.tasks s.nodes head

  -- The first node that `pc_find_available` gives for `n` levels from `level` on, or null.
  unfoldable pub first_available : ℕ → ℕ → Sched → Option ℕ
  first_available zero level s = some 0
  first_available (suc n) level s = do
    node ← pc_find_available level s
    let rest = first_available n (suc level) s
    if node == 0 then rest else some node

  -- The task that `node->task` gives.
  abbrev pub task_of : ℕ → Sched → Option ℕ
  task_of node s = do x ← load s.nodes node; some x.item.task

  -- From `level = 0` on: a higher level, the next in the list, any in the list, or the current one.
  unfoldable pub find_in_order : ℕ → Node Slot → Sched → Option ℕ
  find_in_order current_node x s = do
    high ← first_available x.item.level 0 s
    if not (high == 0) then task_of high s else (do
      follows ←
          (if x.next == 0
            then some false
            else (do y ← load s.nodes x.next; is_ready s.tasks y.item.task))
      if follows then task_of x.next s else (do
        same ← pc_find_available x.item.level s
        task_of (if same == 0 then current_node else same) s))

  unfoldable pub pc_find_next : Sched → Option (ℕ × Sched)
  pc_find_next s = do
    c ← task_at s.tasks s.current_task
    current_node ← list_find_by_pid fuel c.level c.pid s
    if current_node == 0 then some (0, s) else (do
      x ← load s.nodes current_node
      low ←
          (if (x.next == 0) && ltb x.item.level (pri_queue_num - 1)
            then first_available (pri_queue_num - (x.item.level + 1)) (x.item.level + 1) s
            else some 0)
      if not (low == 0)
          then (do (code, s') ← list_move_to_end fuel low s; task ← task_of low s'; some (task, s'))
          else (do task ← find_in_order current_node x s; some (task, s)))

  -- The loop of `pc_clear_exit`.
  unfoldable pub clear_loop : ℕ → Sched → Option (ℤ × Sched)
  clear_loop zero s = none
  clear_loop (suc n) s = do
    head ← load s.nodes s.exit_list
    task ← (if head.next == 0 then some 0 else task_of head.next s)
    if task == 0 then some (pos 0, s) else (do
      t ← task_at s.tasks task
      if not (t.state == pc_finish) then some (negsuc 0, s) else (do
        (mail_code, mailbox_tree', post') ← destroy_mailbox s.mailbox_tree t.pid s.post
        (pid_code, pid_tree') ← del_pid s.pid_tree t.pid
        (list_code, s') ←
            list_delete fuel proc_exit_level head.next
              (record s { mailbox_tree = mailbox_tree'; post = post'; pid_tree = pid_tree' })
        clear_loop n s'))

  unfoldable pub pc_clear_exit : Sched → Option (ℤ × Sched)
  pc_clear_exit s = if s.exit_list == 0 then some (negsuc 0, s) else clear_loop fuel s

  -- A finished process goes from its list to the exit list.
  unfoldable pub retire : ℕ → Sched → Option Sched
  retire current_node s = do
    c ← task_at s.tasks s.current_task
    if c.state == pc_finish
        then (do
          x ← load s.nodes current_node
          (code, s1) ← list_delete fuel x.item.level current_node s
          (code', s2) ← add_task_to_list fuel proc_exit_level s1.current_task s1
          some s2)
        else some s

  -- The time of the current process runs, and at its end the process goes one level down, if it is not fixed, at the lowest
  -- level or finished.
  unfoldable pub demote : ℕ → Sched → Option Sched
  demote current_node s = do
    c ← task_at s.tasks s.current_task
    if eqb_ℤ c.fixed (pos 1) || ((c.level == pri_queue_num - 1) || (c.state == pc_finish))
        then some s
        else (do
          s1 ← edit_task s.current_task (λ t. record t { time_cnt = dec_int t.time_cnt }) s
          if eqb_ℤ (dec_int c.time_cnt) (pos 0)
              then (do
                x ← load s1.nodes current_node
                (code, s2) ← list_delete fuel x.item.level current_node s1
                (code', s3) ← add_task_to_list fuel (c.level + 1) s2.current_task s2
                s4 ← edit_task s3.current_task (λ t. record t { level = t.level + 1 }) s3
                edit_task s4.current_task
                    (λ t. record t { time_cnt = pos (time_unit * (t.level + 1)) }) s4)
              else some s1)

  -- The registers of the current process are saved, and those of the next one loaded.
  unfoldable pub switch : ℕ → Context → Sched → Option (Sched × Context)
  switch next regs s = do
    c ← task_at s.tasks s.current_task
    s1 ←
        (if c.state == pc_finish then some s else (do
          s' ← edit_task s.current_task (λ t. record t { context = copy_context regs t.context }) s
          edit_task s'.current_task (λ t. record t { state = pc_ready }) s'))
    n ← task_at s1.tasks next
    s2 ← edit_task next (λ t. record t { state = pc_running }) (record s1 { current_task = next })
    some (s2, copy_context n.context regs)

  unfoldable pub finish : Sched → Context → Option Scheduled
  finish s regs = do
    (code, s') ← pc_clear_exit s
    some (if eqb_ℤ code (pos 0) then running s' regs else halted)

  unfoldable pub pc_schedule : Context → Sched → Option Scheduled
  pc_schedule regs s = do
    c ← task_at s.tasks s.current_task
    current_node ← list_find_by_pid fuel c.level c.pid s
    (next, s1) ← pc_find_next s
    if next == 0 then (do cleared ← pc_clear_exit s1; some halted) else (do
      s2 ← retire current_node s1
      if current_node == 0
          then (do cleared ← pc_clear_exit s2; some halted)
          else if not (next == s2.current_task)
          then (do s3 ← demote current_node s2; (s4, regs') ← switch next regs s3; finish s4 regs')
          else if eqb_ℤ c.pid idle_pid
          then finish s2 regs
          else (do cleared ← pc_clear_exit s2; some halted))
