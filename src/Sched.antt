-- ===== src/Sched.antt =====
-- kernel/pc/pc.c and include/zjunix/pc.h: the data of the scheduler. A pointer to a task is 0 for null, and otherwise one
-- more than its place in `tasks`; a pointer to a node of a task list is an address of the heap `nodes`. `none` is
-- a use of a null pointer or an access outside an array, or a walk that spent its fuel.
pub mod Lists
pub mod Schedule
pub mod Tasks
pub mod Walk
pub mod Linked
pub mod Edit
pub mod Append
pub mod Move
pub mod Count
pub mod Find
pub mod Invariant
pub mod Choice
pub mod Next
pub mod Pick
pub mod Keep
pub mod Age
pub mod Drop
pub mod Demote
pub mod Renew
pub mod Switch
pub mod Slice
pub mod Interrupts
pub mod Boot
mod Sample
mod Tests
use huge_pie.Base.{ℕ, zero, suc, ℤ, pos, Option, none, some, List, [], ◌∷◌, get_elem?, set, ◌>>=◌}
use huge_pie.Avl.{Tree}
use huge_pie.Mail.{Post}
use huge_pie.Links.{Node}

abbrev pub pri_queue_num : ℕ
pri_queue_num = 3

abbrev pub proc_exit_level : ℕ
proc_exit_level = pri_queue_num

abbrev pub time_unit : ℕ
time_unit = 300

abbrev pub idle_pid : ℤ
idle_pid = pos 0

-- `PC_INIT` to `PC_FINISH`.
abbrev pub pc_init : ℕ
pc_init = 0

abbrev pub pc_ready : ℕ
pc_ready = 1

abbrev pub pc_running : ℕ
pc_running = 3

abbrev pub pc_finish : ℕ
pc_finish = 4

-- `context`: the registers.
pub record Context : Type 0 where
  pub epc : ℕ
  pub at : ℕ
  pub v0 : ℕ
  pub v1 : ℕ
  pub a0 : ℕ
  pub a1 : ℕ
  pub a2 : ℕ
  pub a3 : ℕ
  pub t0 : ℕ
  pub t1 : ℕ
  pub t2 : ℕ
  pub t3 : ℕ
  pub t4 : ℕ
  pub t5 : ℕ
  pub t6 : ℕ
  pub t7 : ℕ
  pub s0 : ℕ
  pub s1 : ℕ
  pub s2 : ℕ
  pub s3 : ℕ
  pub s4 : ℕ
  pub s5 : ℕ
  pub s6 : ℕ
  pub s7 : ℕ
  pub t8 : ℕ
  pub t9 : ℕ
  pub hi : ℕ
  pub lo : ℕ
  pub gp : ℕ
  pub sp : ℕ
  pub fp : ℕ
  pub ra : ℕ

-- `dest` after the copy.
unfoldable pub copy_context : Context → Context → Context
copy_context src dest = record {
  epc = src.epc;
  at = src.at;
  v0 = src.v0;
  v1 = src.v1;
  a0 = src.a0;
  a1 = src.a1;
  a2 = src.a2;
  a3 = src.a3;
  t0 = src.t0;
  t1 = src.t1;
  t2 = src.t2;
  t3 = src.t3;
  t4 = src.t4;
  t5 = src.t5;
  t6 = src.t6;
  t7 = src.t7;
  s0 = src.s0;
  s1 = src.s1;
  s2 = src.s2;
  s3 = src.s3;
  s4 = src.s4;
  s5 = src.s5;
  s6 = src.s6;
  s7 = src.s7;
  t8 = src.t8;
  t9 = src.t9;
  hi = src.hi;
  lo = src.lo;
  gp = src.gp;
  sp = src.sp;
  fp = src.fp;
  ra = src.ra;
}

-- `task_struct`.
pub record Task : Type 0 where
  pub pid : ℤ
  pub name : List ℕ
  pub context : Context
  pub asid : ℤ
  pub state : ℕ
  pub fixed : ℤ
  pub time_cnt : ℤ
  pub level : ℕ

-- `task_node` without its links.
pub record Slot : Type 0 where
  pub task : ℕ
  pub level : ℕ

-- The global variables, and the memory that they lead to.
pub record Sched : Type 0 where
  pub nodes : List (Node Slot)
  pub tasks : List Task
  pub task_lists : List ℕ
  pub exit_list : ℕ
  pub current_task : ℕ
  pub pid_tree : Tree
  pub mailbox_tree : Tree
  pub post : Post

-- `*p` of a pointer to a task.
unfoldable pub task_at : List Task → ℕ → Option Task
task_at tasks zero = none
task_at tasks (suc i) = get_elem? tasks i

unfoldable pub put_task : List Task → ℕ → Task → List Task
put_task tasks zero t = tasks
put_task tasks (suc i) t = set tasks i t

-- A write to a field of `*p`.
unfoldable pub edit_task : ℕ → (Task → Task) → Sched → Option Sched
edit_task p f s = do t ← task_at s.tasks p; some (record s { tasks = put_task s.tasks p (f t) })
