-- ===== src/Sched/Pick.antt =====
-- `pc_find_next` of kernel/pc/pc.c: the process that it chooses, and the list that it reorders.
use huge_pie.Sched.{Sched, Slot, pri_queue_num, pc_ready}
use huge_pie.Sched.Lists.{list_move_to_end}
use huge_pie.Sched.Schedule.{is_ready, task_of, find_in_order, pc_find_next}
use huge_pie.Sched.Linked.{Lists, replaced, replaced_self, replaced_ne, total-replaced}
use huge_pie.Sched.Edit.{Edited, here}
use huge_pie.Sched.Move.{list_move_to_end-Edited}
use huge_pie.Sched.Count.{count, count-append, Reordered-replaced, At}
use huge_pie.Sched.Find.{Reached, nowhere, reached, first_available-Reached}
use huge_pie.Sched.Invariant.{IsSched, tasked, fits, found, entry_here}
use huge_pie.Sched.Choice.{Next, Chosen, count-All}
use huge_pie.Sched.Next.{
  place, current_le, ready_choice, count_split, kept, idle_ready, idle_below, entry_level,
  find_in_order-Chosen, node_here,
}
use huge_pie.Links.Chain.{first_address}
use huge_pie.Links.Cells.{nonzero}
use huge_pie.Base.{
  ℕ, ◌+◌, ◌-◌, ◌≤◌, ◌<◌, ◌≡◌, inl, inr, refl, sym, ap, ◌∙◌, ℤ, pos, Bool, true, false, not, ◌&&◌,
  Option, some, List, [], ◌∷◌, ◌++◌, length, length-append, ltb, ltb→lt, ltb→le, ◌==◌,
  if◌then◌else◌, arith, ◌>>=◌, Bool-cases, Returns, returns, bind, ne→==,
}

and_right : (a b : Bool) → (a && b) ≡ true → b ≡ true
and_right true b e = e
and_right false b e = absurd cc

module _ (fuel : ℕ) (heads : ℕ → ℕ) (lists : Lists) (s : Sched) (v : IsSched fuel heads lists s)
    (own : (v.current.state == pc_ready) ≡ true → v.current.pid ≡ pos 0) where
  abbrev lc : ℕ
  lc = v.current.level

  abbrev Idle : Type 0
  Idle = v.current.pid ≡ pos 0

  abbrev at : At s.current_task (lists lc)
  at = place fuel heads lists s v own

  le : lc ≤ pri_queue_num
  le = current_le fuel heads lists s v own

  -- The rest of `pc_find_next` after the search in the lower levels.
  abbrev after_low : ℕ → Option (ℕ × Sched)
  after_low low =
      if not (low == 0)
      then (do
        (code, s') ← list_move_to_end fuel low s
        task ← task_of fuel low s'
        some (task, s'))
      else (do
        task ← find_in_order fuel at.entry.0 (node_here fuel heads lists s v own) s
        some (task, s))

  moved_count :
      (ys : List (ℕ × Slot)) (x : ℕ × Slot) (zs : List (ℕ × Slot)) (p : ℕ)
      → count p ((ys ++ zs) ++ x ∷ []) ≡ count p (ys ++ x ∷ zs)
  moved_count ys x zs p =
      omega (
        arith,
        count-append p (ys ++ zs) (x ∷ []),
        count-append p ys zs,
        count-append p ys (x ∷ zs),
      )

  -- The choice when its node is at the end of its list.
  moved :
      (l : ℕ)
      → l ≤ pri_queue_num
      → (ys : List (ℕ × Slot)) (x : ℕ × Slot) (zs : List (ℕ × Slot)) → lists l ≡ ys ++ x ∷ zs
      → lc < l
      → l < 3
      → Chosen lists s Idle x.1.task
      → (r : ℤ × Sched) → Edited (pos 0) heads s (replaced lists l ((ys ++ zs) ++ x ∷ [])) r
      → Returns (Next heads lists s lc Idle) (do task ← task_of fuel x.0 r.1; some (task, r.1))
  moved l k ys x zs e above low chosen r w =
      let short : length (ys ++ zs) < fuel = omega (
        arith,
        fits fuel heads lists s v l k,
        ap length e,
        length-append ys (x ∷ zs),
        length-append ys zs,
      ) in
      let x_here =
        here fuel heads (replaced lists l ((ys ++ zs) ++ x ∷ [])) (record s { nodes = w.nodes })
          w.linked v.tops l k (ys ++ zs) x [] (replaced_self lists l _) short in
      rw (w.result, x_here)
        (returns (record {
          nodes = w.nodes;
          lists' = replaced lists l ((ys ++ zs) ++ x ∷ []);
          result = refl;
          linked = w.linked;
          reordered =
              Reordered-replaced lists l _ (λ p. moved_count ys x zs p ∙ ap (count p) (sym e));
          same = replaced_ne lists l lc _ (λ q. omega (arith, q));
          size = total-replaced lists l _ (
              omega (
                arith,
                ap length e,
                length-append (ys ++ zs) (x ∷ []),
                length-append ys zs,
                length-append ys (x ∷ zs),
              ));
          exits = replaced_ne lists l 3 _ (λ q. omega (arith, q));
          chosen = chosen;
        }))

  -- A ready process of a lower level is chosen, and goes to the end of its list.
  lower-Next :
      {o : Option ℕ}
      → lc < 2
      → Reached fuel heads lists s v.linked v.tops
          (tasked fuel heads lists s v)
          v.short
          (pri_queue_num - (lc + 1))
          (lc + 1)
          o
      → Returns (Next heads lists s lc Idle) (do low ← o; after_low low)
  lower-Next lt (nowhere rest) =
      let f =
        count-All (λ p. is_ready s.tasks p ≡ some false) (lists 2)
          (rest 2 (omega arith) (omega arith)) v.idle v.idle_queued in
      let d : some true ≡ some false =
        sym (idle_ready fuel heads lists s v own (idle_below fuel heads lists s v own lt)) ∙ f in
      absurd cc
  lower-Next lt (reached l above below ys x zs e nz ready) =
      let k : l ≤ pri_queue_num = omega arith in
      let there = count_split fuel heads lists s v own l ys x zs e in
      let (t, task, n) = v.live l x.1.task k there in
      rw (ne→== x.0 0 (λ q. nz (sym q))) (
        bind
          (list_move_to_end-Edited fuel heads lists s v.linked v.tops l k ys x t task zs e
            (omega (arith, fits fuel heads lists s v l k)))
          λ r w.
            moved l k ys x zs e (omega arith) (omega arith)
              (ready_choice fuel heads lists s v own l x.1.task (omega arith) there ready) r w)

  -- At the end of the list of the current process, the search in the lower levels was left out at the lowest level only.
  last :
      ((first_address at.after == 0) && ltb lc (pri_queue_num - 1)) ≡ false → at.after ≡ [] → lc ≡ 2
  last n e =
      let z : (first_address at.after == 0) ≡ true = ap (λ zs. first_address zs == 0) e in
      let k : ltb lc 2 ≡ false = rw z at n in omega (arith, ltb→le lc 2 k, v.current_level)

  -- From a state of the scheduler, `pc_find_next` returns a choice.
  pub pc_find_next-Next : Returns (Next heads lists s lc Idle) (pc_find_next fuel s)
  unfolding pc_find_next
  pc_find_next-Next =
      rw
        (
          v.current_at,
          found fuel heads lists s v lc s.current_task le v.current v.current_at at,
          ne→== at.entry.0 0 (λ q.
              nonzero s.nodes at.entry.0
                (entry_here fuel heads lists s v lc s.current_task le v.current v.current_at at)
                (sym q)),
          entry_here fuel heads lists s v lc s.current_task le v.current v.current_at at,
        )
        (rw (entry_level fuel heads lists s v own)
          (elim (Bool-cases ((first_address at.after == 0) && ltb lc (pri_queue_num - 1))) [
            | inl y ↦ rw y (
                lower-Next (ltb→lt lc 2 (and_right _ _ y)) (
                  first_available-Reached fuel heads lists s v.linked v.tops
                    (tasked fuel heads lists s v) v.short (pri_queue_num - (lc + 1)) (lc + 1)
                    (omega (arith, v.current_level))))
            | inr n ↦ rw n (
                bind (find_in_order-Chosen fuel heads lists s v own (last n))
                  λ p chosen. returns (kept fuel heads lists s v own p chosen))
          ]))
