-- ===== src/Pid.antt =====
-- kernel/pc/pid.c and include/zjunix/pid.h: process ids, kept in an AVL tree. A function that takes
-- `pid_node **head` returns the new tree beside its result; the address itself is never null.
pub mod Laws
pub mod Run
mod Tests
use huge_pie.Base.{
  ℕ, ℤ, pos, negsuc, Bool, true, false, ◌||◌, Option, none, some, ltb_ℤ, not, inc_int,
  if◌then◌else◌, ◌>>=◌,
}
use huge_pie.Avl.{Element, Tree, null, node, create_node, insert, delete, search, maximum, non_null}

abbrev pub pid_num : ℕ
pid_num = 128

-- `element.p = NULL; element.value = pid;`
abbrev pub element : ℤ → Element
element pid = record { value = pid; p = 0 }

unfoldable pub init_pid : Bool → Tree
init_pid mem = create_node mem (element (pos 0)) null null

unfoldable pub alloc_pid : Bool → Tree → Option (ℤ × Tree)
alloc_pid mem head = elim (maximum head) [
  | null ↦ some (negsuc 0, head)
  | node k h l r ↦ (do
    head' ← insert mem head (element (inc_int k.value))
    some (inc_int k.value, head'))
]

unfoldable pub check_pid : Tree → ℤ → Bool
check_pid head pid =
    if not (non_null head) || (ltb_ℤ pid (pos 0) || not (ltb_ℤ pid (pos pid_num)))
    then false
    else non_null (search head (element pid))

unfoldable pub insert_pid : Bool → Tree → ℤ → Option (ℤ × Tree)
insert_pid mem head pid =
    if ltb_ℤ pid (pos 0) || check_pid head pid
    then some (negsuc 0, head)
    else (do head' ← insert mem head (element pid); some (pos 0, head'))

unfoldable pub del_pid : Tree → ℤ → Option (ℤ × Tree)
del_pid head pid =
    if not (non_null head)
    then some (negsuc 0, head)
    else (do head' ← delete head (element pid); some (pos 0, head'))
