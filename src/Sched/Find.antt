-- ===== src/Sched/Find.antt =====
-- `pc_find_available` of kernel/pc/pc.c and the search of it through several levels.
use huge_pie.Sched.{Sched, Slot, pri_queue_num}
use huge_pie.Sched.Schedule.{is_ready, available_loop, pc_find_available, first_available}
use huge_pie.Sched.Walk.{
  HasTask, NotReady, ReadySplit, none_ready, first_ready, split_ready, available_at, available_none,
}
use huge_pie.Sched.Linked.{Lists, nodes_of, Linked, total, length-total}
use huge_pie.Sched.Edit.{AreHeads}
use huge_pie.Links.Chain.{Chain, Chain-load, Has-append_right}
use huge_pie.Links.Cells.{nonzero}
use huge_pie.Base.{
  ℕ, zero, suc, ◌+◌, ◌≤◌, ◌<◌, ◌≡◌, ◌≢◌, inl, inr, refl, sym, ap, true, Option, some, List, ◌∷◌,
  ◌++◌, length, All, ◌==◌, if◌then◌else◌, ne→==, ==→eq, ==→ne, Bool-cases, subst, arith,
  length-append, ◌>>=◌,
}

module _ (fuel : ℕ) (heads : ℕ → ℕ) (lists : Lists) (s : Sched) (v : Linked heads lists s.nodes)
    (tops : AreHeads heads s)
    (tasked : (l : ℕ) → l ≤ pri_queue_num → All (HasTask s.tasks) (lists l))
    (short : suc (total lists) < fuel) where
  -- What `pc_find_available` gives at a level: the first node with a ready task.
  pub data Available (l : ℕ) : Option ℕ → Type 0 where
    nothing : All (NotReady s.tasks) (lists l) → Available l (some 0)
    node :
        (ys : List (ℕ × Slot)) (x : ℕ × Slot) (zs : List (ℕ × Slot))
        → lists l ≡ ys ++ x ∷ zs
        → 0 ≢ x.0
        → is_ready s.tasks x.1.task ≡ some true
        → Available l (some x.0)

  fits : (l : ℕ) → l ≤ pri_queue_num → suc (length (lists l)) < fuel
  fits l le = omega (arith, short, length-total lists l le)

  head-NotReady : (l : ℕ) → NotReady s.tasks (heads l, record { task = 0; level = l })
  unfolding is_ready
  head-NotReady l = refl

  pub pc_find_available-Available :
      (l : ℕ) → l ≤ pri_queue_num → Available l (pc_find_available fuel l s)
  unfolding pc_find_available
  pc_find_available-Available l le =
      rw (tops l le) (go (lists l) refl (split_ready s.tasks (lists l) (tasked l le)))
    where
      go :
          (xs : List (ℕ × Slot))
          → lists l ≡ xs
          → ReadySplit s.tasks xs
          → Available l (available_loop fuel fuel s.tasks s.nodes (heads l))
      go xs e (none_ready none_there) =
          let all : All (NotReady s.tasks) (lists l) =
            subst (All (NotReady s.tasks)) (sym e) none_there in
          rw
            (available_none fuel s.tasks s.nodes fuel (nodes_of heads lists l) (v.chains l le)
              (fits l le) (head-NotReady l, all))
            (nothing all)
      go _ e (first_ready ys x zs rest here) =
          let c : Chain s.nodes 0 (heads l)
              ((heads l, record { task = 0; level = l }) ∷ ys ++ x ∷ zs) =
            subst (λ xs. Chain s.nodes 0 (heads l) ((heads l, record { task = 0; level = l }) ∷ xs))
              e (v.chains l le) in
          let (n, f) = Chain-load s.nodes c x.0 (
            Has-append_right x.0 ((heads l, record { task = 0; level = l }) ∷ ys) (x ∷ zs)
              (inl refl)) in
          rw
            (available_at fuel s.tasks s.nodes fuel ((heads l, record { task = 0; level = l }) ∷ ys)
              x zs c (let k = fits l le in omega (arith, k, ap length e, length-append ys (x ∷ zs)))
              (head-NotReady l, rest) here)
            (node ys x zs e (nonzero s.nodes x.0 f) here)

  -- What the search gives from a level on.
  pub data Reached (n level : ℕ) : Option ℕ → Type 0 where
    nowhere :
        ((l : ℕ) → level ≤ l → l < level + n → All (NotReady s.tasks) (lists l))
        → Reached n level (some 0)
    reached :
        (l : ℕ)
        → level ≤ l
        → l < level + n
        → (ys : List (ℕ × Slot)) (x : ℕ × Slot) (zs : List (ℕ × Slot)) → lists l ≡ ys ++ x ∷ zs
        → 0 ≢ x.0
        → is_ready s.tasks x.1.task ≡ some true
        → Reached n level (some x.0)

  -- One level further.
  further :
      (n level : ℕ) {o r : Option ℕ}
      → Available level o
      → Reached n (suc level) r
      → Reached (suc n) level (do found ← o; if found == 0 then r else some found)
  further n level (nothing here) (nowhere rest) = nowhere (λ l le lt.
      elim (Bool-cases (level == l)) [
        | inl y ↦ subst (λ m. All (NotReady s.tasks) (lists m)) (==→eq level l y) here
        | inr ne ↦ (let d = ==→ne level l ne in rest l (omega (arith, d)) (omega arith))
      ])
  further n level (nothing here) (reached l le lt ys x zs e nz ready) =
      reached l (omega arith) (omega arith) ys x zs e nz ready
  further n level (node ys x zs e nz ready) r =
      rw (ne→== x.0 0 (λ q. nz (sym q)))
        (reached level (omega arith) (omega arith) ys x zs e nz ready)

  pub first_available-Reached :
      (n level : ℕ) → level + n ≤ pri_queue_num → Reached n level (first_available fuel n level s)
  unfolding first_available
  first_available-Reached zero level le = nowhere (λ l a b. absurd (omega arith))
  first_available-Reached (suc n) level le =
      further n level (pc_find_available-Available level (omega arith))
        (first_available-Reached n (suc level) (omega arith))
