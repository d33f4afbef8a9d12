-- ===== src/Sched/Tests.antt =====
-- kernel/pc/pc.c at a state with three processes.
use huge_pie.Sched.{Task, task_at}
use huge_pie.Sched.Schedule.{pc_schedule}
use huge_pie.Sched.Slice.{Sliced, pc_schedule-Sliced}
use huge_pie.Sched.Interrupts.{interrupts, Alive, interrupts-Alive}
use huge_pie.Sched.Boot.{boot, Started, init_pc-Started}
use huge_pie.Sched.Tasks.{init_pc}
use huge_pie.Base.{◌++◌, ◌≡◌, refl, pos, some, [], ◌∷◌, arith, Returns}
use huge_pie.Sched.Sample.{
  regs, idle, three, heads, lists, chains, apart, levels, tops, three-IsSched, shell-IsActive,
}
use huge_pie.Sched.Lists.{list_move_to_end}
use huge_pie.Sched.Linked.{Linked, replaced}
use huge_pie.Sched.Edit.{Edited}
use huge_pie.Sched.Move.{list_move_to_end-Edited}

three-Linked : Linked heads lists three.nodes
three-Linked = record { chains = chains; apart = apart; levels = levels }

pc_schedule-Sliced_example :
    Returns (Sliced 9 heads lists three three-IsSched.current regs) (pc_schedule 9 regs three)
pc_schedule-Sliced_example =
    pc_schedule-Sliced 9 heads lists three three-IsSched shell-IsActive refl regs

interrupts-Alive_example :
    Returns
      (Alive 9 heads lists)
      (interrupts 9 ((λ r. record r { v0 = 1 }) ∷ (λ r. record r { epc = 8 }) ∷ []) regs three)
interrupts-Alive_example =
    interrupts-Alive 9 heads ((λ r. record r { v0 = 1 }) ∷ (λ r. record r { epc = 8 }) ∷ []) lists
      three regs three-IsSched shell-IsActive refl

idle_at : task_at three.tasks 1 ≡ some idle
unfolding task_at
idle_at = refl

list_move_to_end-Edited_example :
    Returns
      (Edited (pos 0) heads three (
        replaced lists 2 (
          ([] ++ (7, record { task = 3; level = 2 }) ∷ [])
          ++ (5, record { task = 1; level = 2 }) ∷ [])))
      (list_move_to_end 9 5 three)
list_move_to_end-Edited_example =
    list_move_to_end-Edited 9 heads lists three three-Linked tops 2 (omega arith) []
      (5, record { task = 1; level = 2 }) idle idle_at ((7, record { task = 3; level = 2 }) ∷ [])
      refl (omega arith)

-- What `kmalloc` gave for the first process.
abbrev fresh : Task
fresh = record idle { name = 1 ∷ 2 ∷ 3 ∷ 4 ∷ 5 ∷ 6 ∷ [] }

init_pc-Started_example :
    Returns (Started 3 (omega arith) fresh (omega arith)) (init_pc 3 fresh boot)
init_pc-Started_example = init_pc-Started 3 (omega arith) fresh (omega arith)
