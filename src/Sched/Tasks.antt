-- ===== src/Sched/Tasks.antt =====
-- kernel/pc/pc.c: the start of the scheduler, creating and killing processes, and the mailboxes of the current process.
use huge_pie.Sched.{
  Sched, Task, Context, pri_queue_num, proc_exit_level, time_unit, idle_pid, pc_init, pc_ready,
  pc_finish, task_at, edit_task,
}
use huge_pie.Sched.Lists.{list_init, list_find_by_pid, list_delete, add_task_to_list}
use huge_pie.Sched.Schedule.{Scheduled, running, pc_schedule}
use huge_pie.Base.{
  ℕ, zero, suc, ◌+◌, ◌-◌, ◌*◌, ◌%◌, ◌^◌, ℤ, pos, negsuc, true, not, ◌&&◌, ◌||◌, Option, none, some,
  List, [], ◌∷◌, ◌++◌, length, ltb_ℤ, eqb_ℤ, ◌==◌, if◌then◌else◌, ◌>>=◌, pos_part,
}
use huge_pie.Pid.{init_pid, check_pid, insert_pid, alloc_pid}
use huge_pie.Strings.{kernel_strcpy}
use huge_pie.Mail.{init_mailbox, register_mailbox, destroy_mailbox, send_mail, read_mail}
use huge_pie.Links.{load}

abbrev pub kernel_stack_size : ℕ
kernel_stack_size = 4096

-- A new task, at the pointer that comes with it. `fresh` is what `kmalloc` gave, before it is written.
unfoldable pub new_task : Task → Sched → Sched × ℕ
new_task fresh s = (record s { tasks = s.tasks ++ fresh ∷ [] }, suc (length s.tasks))

-- "idle", with its final 0.
abbrev pub idle_name : List ℕ
idle_name = 105 ∷ 100 ∷ 108 ∷ 101 ∷ 0 ∷ []

module _ (fuel : ℕ) where
  unfoldable pub init_pc : Task → Sched → Option Sched
  init_pc fresh s = do
    s1 ← list_init s
    (s2, idle) ←
        some (
          new_task fresh (record s1 { pid_tree = init_pid true; mailbox_tree = init_mailbox true }))
    name ← kernel_strcpy fresh.name idle_name
    s3 ←
        edit_task idle
          (λ t. record t {
            pid = idle_pid;
            state = pc_init;
            asid = idle_pid;
            name = name;
            level = pri_queue_num - 1;
            fixed = pos 1;
            time_cnt = pos (time_unit * (pri_queue_num - 1 + 1));
          })
          s2
    (code, s4) ← add_task_to_list fuel (pri_queue_num - 1) idle s3
    if not (eqb_ℤ code (pos 0)) then some s4 else (do
      s5 ← edit_task idle (λ t. record t { state = pc_ready }) s4
      some (record s5 { current_task = idle }))

  -- A wanted id that is free, or one that `Alloc_pid` chooses.
  unfoldable pub choose_pid : ℤ → Sched → Option (ℤ × ℤ × Sched)
  choose_pid mpid s =
      if not (ltb_ℤ mpid (pos 0)) && not (check_pid s.pid_tree mpid)
      then (do
        (code, tree) ← insert_pid true s.pid_tree mpid
        some (code, mpid, record s { pid_tree = tree }))
      else (do
        (pid, tree) ← alloc_pid true s.pid_tree
        some (pos 0, pid, record s { pid_tree = tree }))

  -- `fresh` and `stack` are what `kmalloc` gives, and `init_gp` is the address `_gp`.
  unfoldable pub pc_create : Task → ℕ → ℕ → ℕ → List ℕ → ℤ → ℤ → ℤ → Sched → Option (ℤ × Sched)
  pc_create fresh stack init_gp func name level fixed mpid s =
      if (ltb_ℤ level (pos 0) || not (ltb_ℤ level (pos pri_queue_num)))
        || (not (eqb_ℤ fixed (pos 0)) && not (eqb_ℤ fixed (pos 1)))
      then some (negsuc 0, s)
      else (do
        (code, pid, s1) ← choose_pid mpid s
        if ltb_ℤ code (pos 0) || ltb_ℤ pid (pos 0) then some (negsuc 0, s1) else (do
          (s2, task) ← some (new_task fresh s1)
          s3 ←
              edit_task task
                (λ t. record t {
                  pid = pid;
                  state = pc_init;
                  asid = pid;
                  context = record t.context {
                    epc = func;
                    sp = (stack + kernel_stack_size) % 2 ^ 32;
                    gp = init_gp;
                  };
                })
                s2
          name' ← kernel_strcpy fresh.name name
          s4 ←
              edit_task task
                (λ t. record t {
                  name = name';
                  level = pos_part level;
                  fixed = fixed;
                  time_cnt = pos (time_unit * (pos_part level + 1));
                  state = pc_ready;
                })
                s3
          (added, s5) ← add_task_to_list fuel (pos_part level) task s4
          some (pid, s5)))

  -- The system call that ends the current process; the registers are unchanged when it is not in its list.
  unfoldable pub pc_kill_syscall : Context → Sched → Option Scheduled
  pc_kill_syscall regs s = do
    c ← task_at s.tasks s.current_task
    current_node ← list_find_by_pid fuel c.level c.pid s
    if current_node == 0 then some (running s regs) else (do
      s' ← edit_task s.current_task (λ t. record t { state = pc_finish }) s
      pc_schedule fuel regs s')

  -- The first level from `level` on that has the process, and its node; null if none of the `n` levels has it.
  unfoldable pub find_in_levels : ℕ → ℕ → ℤ → Sched → Option ℕ
  find_in_levels zero level pid s = some 0
  find_in_levels (suc n) level pid s = do
    node ← list_find_by_pid fuel level pid s
    let rest = find_in_levels n (suc level) pid s
    if node == 0 then rest else some node

  -- The result is `none` where the function ends without a `return`.
  unfoldable pub pc_kill : ℤ → Sched → Option (Option ℤ × Sched)
  pc_kill pid s =
      if ltb_ℤ pid (pos 0)
        || (not (check_pid s.pid_tree pid) || (eqb_ℤ pid (pos 0) || eqb_ℤ pid (pos 1)))
      then some (some (negsuc 0), s)
      else (do
        c ← task_at s.tasks s.current_task
        if eqb_ℤ pid c.pid then some (some (negsuc 0), s) else (do
          node ← find_in_levels pri_queue_num 0 pid s
          if node == 0 then some (some (negsuc 0), s) else (do
            x ← load s.nodes node
            s1 ← edit_task x.item.task (λ t. record t { state = pc_finish }) s
            (added, s2) ← add_task_to_list fuel proc_exit_level x.item.task s1
            y ← load s2.nodes node
            (deleted, s3) ← list_delete fuel y.item.level node s2
            some (none, s3))))

unfoldable pub get_curr_pcb : Sched → ℕ
get_curr_pcb s = s.current_task

unfoldable pub pc_register_mailbox : Sched → Option (ℤ × Sched)
pc_register_mailbox s = do
  c ← task_at s.tasks s.current_task
  (code, tree, post) ← register_mailbox s.mailbox_tree c.pid s.post
  some (code, record s { mailbox_tree = tree; post = post })

unfoldable pub pc_destroy_mailbox : Sched → Option (ℤ × Sched)
pc_destroy_mailbox s = do
  c ← task_at s.tasks s.current_task
  (code, tree, post) ← destroy_mailbox s.mailbox_tree c.pid s.post
  some (code, record s { mailbox_tree = tree; post = post })

unfoldable pub pc_send_mail : ℤ → List ℕ → Sched → Option (ℤ × Sched)
pc_send_mail to text s = do
  c ← task_at s.tasks s.current_task
  (code, post) ← send_mail s.mailbox_tree c.pid to text s.post
  some (code, record s { post = post })

-- The result, `*src` and the message afterwards.
unfoldable pub pc_read_mail : ℤ → List ℕ → Sched → Option (ℤ × ℤ × List ℕ × Sched)
pc_read_mail from text s = do
  c ← task_at s.tasks s.current_task
  (code, from', text', post) ← read_mail s.mailbox_tree c.pid from text s.post
  some (code, from', text', record s { post = post })
