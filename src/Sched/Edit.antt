-- ===== src/Sched/Edit.antt =====
-- `list_delete`, `add_task_to_list` and `list_move_to_end` of kernel/pc/pc.c on the lists of all levels.
use huge_pie.Sched.{Sched, Slot, Task, pri_queue_num, task_at}
use huge_pie.Sched.Lists.{list_find_by_pid, list_delete}
use huge_pie.Sched.Walk.{IsOther, find_loop_at}
use huge_pie.Sched.Linked.{replaced, Lists, Linked, replaced-Linked}
use huge_pie.Links.{Node, load, turn_back, turn_on}
use huge_pie.Links.Chain.{
  Chain, Kept, Within, last_address, first_address, Chain-at, Chain-head, Chain-behind,
}
use huge_pie.Links.Cells.{nonzero}
use huge_pie.Links.Unlink.{
  Detached, back_on, before, after, apart, off_first, Detached-Chain, Detached-Kept,
  Detached-Within, turn_back-Turned, turn_on-Stored,
}
use huge_pie.Base.{
  ℕ, zero, suc, ◌≤◌, ◌<◌, ◌≡◌, refl, sym, ◌∙◌, ℤ, pos, true, false, Option, some, List, ◌∷◌, ◌++◌,
  length, All, get_elem?, ◌==◌, ne→==, ltb_ℤ, eqb_ℤ, subst, arith, Returns, returns, bind, ◌>>=◌,
  All-append, All-append_left, All-append_right,
}

-- Only the links are changed, and the call gives 0.
pub record Edited {R : Type 0} (code : R) (heads : ℕ → ℕ) (s : Sched) (lists : Lists)
    (r : R × Sched) : Type 0 where
  pub nodes : List (Node Slot)
  pub result : r ≡ (code, record s { nodes = nodes })
  pub linked : Linked heads lists nodes

-- The array of the heads.
abbrev pub AreHeads : (ℕ → ℕ) → Sched → Type 0
AreHeads heads s = (l : ℕ) → l ≤ pri_queue_num → get_elem? s.task_lists l ≡ some (heads l)

pub task_nonzero :
    (tasks : List Task) (p : ℕ) {t : Task} → task_at tasks p ≡ some t → (p == 0) ≡ false
unfolding task_at
task_nonzero tasks zero e = absurd cc
task_nonzero tasks (suc i) e = ne→== (suc i) 0 (λ z. omega (arith, z))

-- The writes of `list_delete` on a node that the search finds again.
abbrev unlink_writes : ℕ → Node Slot → Sched → Option (ℤ × Sched)
unlink_writes target y s = do
  h1 ← turn_back s.nodes y.next y.previous
  z ← load h1 target
  h2 ← turn_on h1 z.previous z.next
  some (pos 0, record s { nodes = h2 })

list_delete_live :
    (fuel l : ℕ) (s : Sched) (p : ℕ) (t : Task) {y : Node Slot} {P : ℤ × Sched → Type 0}
    → load s.nodes p ≡ some y
    → task_at s.tasks y.item.task ≡ some t
    → list_find_by_pid fuel l t.pid s ≡ some p
    → Returns P (unlink_writes p y s)
    → Returns P (list_delete fuel l p s)
unfolding list_delete
list_delete_live fuel l s zero t e at found r = absurd (nonzero s.nodes 0 e refl)
list_delete_live fuel l s (suc p) t {y} e at found r =
    rw
      (
        e,
        task_nonzero s.tasks y.item.task at,
        at,
        found,
        ne→== (suc p) 0 (λ z. omega (arith, z)),
        e,
      )
      r

module _ (fuel : ℕ) (heads : ℕ → ℕ) (lists : Lists) (s : Sched) (v : Linked heads lists s.nodes)
    (tops : AreHeads heads s) (l : ℕ) (le : l ≤ pri_queue_num) where
  -- The first node of the level.
  abbrev pub top : ℕ × Slot
  top = (heads l, record { task = 0; level = l })

  module _ (ys : List (ℕ × Slot)) (x : ℕ × Slot) (zs : List (ℕ × Slot))
      (at : lists l ≡ ys ++ x ∷ zs) (short : length ys < fuel) where
    pub whole : Chain s.nodes 0 (heads l) (top ∷ ys ++ x ∷ zs)
    whole = subst (λ xs. Chain s.nodes 0 (heads l) (top ∷ xs)) at (v.chains l le)

    pub here :
        load s.nodes x.0
        ≡ some
            (record { next = first_address zs; previous = last_address (heads l) ys; item = x.1 })
    here = Chain-at s.nodes top ys x zs whole

    pub without_levels : All (λ y. y.1.level ≡ l) (ys ++ zs)
    without_levels =
        let all = subst (All (λ y. y.1.level ≡ l)) at (v.levels l le) in
        All-append _ ys zs (All-append_left _ ys (x ∷ zs) all)
          (All-append_right _ ys (x ∷ zs) all).1

    -- The lists when the node is taken out.
    detached :
        (g : List (Node Slot))
        → Detached s.nodes (last_address (heads l) ys) (first_address zs) g
        → Linked heads (replaced lists l (ys ++ zs)) g
    detached g d =
        replaced-Linked heads lists s.nodes g v l le (ys ++ zs)
          (Detached-Chain s.nodes top ys x zs whole g d) without_levels
          (subst (λ xs. Kept (top ∷ xs) s.nodes g) (sym at)
            (Detached-Kept s.nodes top ys x zs whole g d))
          (subst (λ xs. Within (top ∷ xs) s.nodes (top ∷ ys ++ zs)) (sym at)
            (Detached-Within s.nodes top ys x zs whole))

    module _ (t : Task) (task : task_at s.tasks x.1.task ≡ some t)
        (positive : ltb_ℤ t.pid (pos 0) ≡ false) (others : All (IsOther t.pid s.tasks) ys)
        (self : eqb_ℤ t.pid t.pid ≡ true) where
      pub list_find_at : list_find_by_pid fuel l t.pid s ≡ some x.0
      unfolding list_find_by_pid
      list_find_at =
          rw (positive, tops l le, Chain-head s.nodes top (ys ++ x ∷ zs) whole)
            (find_loop_at fuel s.tasks s.nodes fuel t.pid ys x zs
              (Chain-behind s.nodes top (ys ++ x ∷ zs) whole) short others (t, task, self))

      pub list_delete-Edited :
          Returns (Edited (pos 0) heads s (replaced lists l (ys ++ zs))) (list_delete fuel l x.0 s)
      list_delete-Edited =
          let (n, e) = before s.nodes top ys x zs whole in
          let ne = apart s.nodes top ys x zs whole in
          list_delete_live fuel l s x.0 t here task list_find_at (
            bind
              (turn_back-Turned s.nodes (last_address (heads l) ys) (first_address zs)
                (after s.nodes top ys x zs whole))
              λ g b. rw (b.others x.0 (off_first s.nodes top ys x zs whole) ∙ here) (
                bind
                  (turn_on-Stored g (last_address (heads l) ys) (first_address zs)
                    (b.others _ (λ q. ne (sym q)) ∙ e))
                  λ k o. returns (record {
                    nodes = k;
                    result = refl;
                    linked = detached k (
                        back_on s.nodes g k (last_address (heads l) ys) (first_address zs) e ne b
                          o);
                  })))
