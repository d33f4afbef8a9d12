-- ===== src/Pid/Tests.antt =====
-- kernel/pc/pid.c at small trees.
use huge_pie.Base.{pos, negsuc, ◌≡◌, refl, true, List, [], ◌∷◌, Returns, cmp_int, inc_int, arith}
use huge_pie.Avl.{Tree, null, node, compare}
use huge_pie.Avl.Sorted.{add, erase, lookup}
use huge_pie.Avl.Heights.{to_list}
use huge_pie.Pid.{element, alloc_pid, check_pid, insert_pid}
use huge_pie.Pid.Laws.{
  IsPids, Allocated, Inserted, uses, check_pid_lem, alloc_pid_lem, insert_pid_lem,
}
use huge_pie.Pid.Run.{Op, alloc, insert, del, run, ids_step, ids_run, run_refines}

-- The idle process and two more.
abbrev ids : Tree
ids =
    node (element (pos 1)) 2 (node (element (pos 0)) 1 null null)
      (node (element (pos 4)) 1 null null)

ids-IsPids : IsPids ids
unfolding compare cmp_int
ids-IsPids = record { rooted = omega arith; sorted = ((refl, (refl, tt)), ((refl, tt), (tt, tt))) }

abbrev calls : List Op
calls =
    alloc
    ∷ insert (pos 4)
    ∷ insert (pos 1)
    ∷ insert (pos 200)
    ∷ insert (pos 200)
    ∷ del (pos 1)
    ∷ alloc
    ∷ []

-- The id 200 is accepted twice.
ids_run-calls :
    (ids_run calls (element (pos 0) ∷ [])).0
    ≡ pos 1 ∷ pos 0 ∷ negsuc 0 ∷ pos 0 ∷ pos 0 ∷ pos 0 ∷ pos 201 ∷ []
unfolding ids_run ids_step add erase lookup compare cmp_int inc_int
ids_run-calls = refl

check_pid_lem_example : check_pid ids (pos 4) ≡ uses (to_list ids) (pos 4)
check_pid_lem_example = check_pid_lem ids (pos 4) ids-IsPids

alloc_pid_lem_example : Returns (Allocated (to_list ids)) (alloc_pid true ids)
alloc_pid_lem_example = alloc_pid_lem ids refl ids-IsPids (refl, (refl, (refl, tt)))

insert_pid_lem_example : Returns (Inserted (to_list ids) (pos 4)) (insert_pid true ids (pos 4))
insert_pid_lem_example = insert_pid_lem ids (pos 4) ids-IsPids

run_refines_example :
    Returns
      (λ r.
        IsPids r.1
        × (r.0 ≡ (ids_run calls (to_list ids)).0)
        × (to_list r.1 ≡ (ids_run calls (to_list ids)).1))
      (run calls ids)
run_refines_example = run_refines calls ids ids-IsPids
