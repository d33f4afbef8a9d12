-- ===== src/Sched/Move.antt =====
-- `list_move_to_end` of kernel/pc/pc.c on the lists of all levels.
use huge_pie.Sched.{Sched, Slot, Task, pri_queue_num, task_at}
use huge_pie.Sched.Lists.{list_move_to_end, tail_loop}
use huge_pie.Sched.Walk.{tail_loop_last}
use huge_pie.Sched.Linked.{replaced, Lists, Linked, replaced-Linked}
use huge_pie.Sched.Edit.{Edited, AreHeads, whole, here, without_levels, task_nonzero}
use huge_pie.Links.{Node, load, set_next, set_previous, turn_back, turn_on}
use huge_pie.Links.Chain.{
  Chain-load, Has, Chain, Kept, Within, last_address, Has-append, Has-append_left, Has-append_right,
  last_address-Has, Chain-Apart, Chain-once,
}
use huge_pie.Links.Cells.{Stored, nonzero, set_next-Stored, set_previous-Stored}
use huge_pie.Links.Edit.{Chain-push}
use huge_pie.Links.Unlink.{
  same_node, Detached, on_back, before, after, apart, off_first, off_last, Detached-Chain,
  Detached-Kept, turn_back-Turned, turn_on-Stored,
}
use huge_pie.Base.{
  ℕ, zero, suc, ◌≤◌, ◌<◌, ◌≡◌, ◌≢◌, inl, inr, refl, sym, ap, ◌∙◌, ℤ, pos, false, Option, some, List,
  [], ◌∷◌, ◌++◌, length, length-append, All, get_elem?, ◌==◌, ne→==, subst, arith, Returns, returns,
  bind, ◌>>=◌, All-append, All-append_right, append-nil,
}

last_address-skip :
    (p : ℕ) (ys : List (ℕ × Slot)) (x z : ℕ × Slot) (zs : List (ℕ × Slot))
    → last_address p (ys ++ x ∷ z ∷ zs) ≡ last_address p (ys ++ z ∷ zs)
last_address-skip p [] x z zs = refl
last_address-skip p (y ∷ ys) x z zs = last_address-skip y.0 ys x z zs

-- The writes of `list_move_to_end`.
abbrev move_writes : ℕ → ℕ → Node Slot → Sched → Option (ℤ × Sched)
move_writes node tail x s = do
  h1 ← turn_on s.nodes x.previous x.next
  y ← load h1 node
  h2 ← turn_back h1 y.next y.previous
  h3 ← set_previous h2 node tail
  h4 ← set_next h3 node 0
  h5 ← set_next h4 tail node
  some (pos 0, record s { nodes = h5 })

move_live :
    (fuel : ℕ) (s : Sched) (p tail head : ℕ) {x : Node Slot} {P : ℤ × Sched → Type 0}
    → load s.nodes p ≡ some x
    → (x.item.task == 0) ≡ false
    → (x.next == 0) ≡ false
    → get_elem? s.task_lists x.item.level ≡ some head
    → tail_loop fuel fuel s.nodes head ≡ some tail
    → Returns P (move_writes p tail x s)
    → Returns P (list_move_to_end fuel p s)
unfolding list_move_to_end
move_live fuel s zero tail head e t n l f r = absurd (nonzero s.nodes 0 e refl)
move_live fuel s (suc p) tail head e t n l f r = rw (e, t, n, l, f) r

move_last :
    (fuel : ℕ) (s : Sched) (p : ℕ) {x : Node Slot}
    → load s.nodes p ≡ some x
    → (x.item.task == 0) ≡ false
    → x.next ≡ 0
    → list_move_to_end fuel p s ≡ some (pos 0, s)
unfolding list_move_to_end
move_last fuel s zero e t n = absurd (nonzero s.nodes 0 e refl)
move_last fuel s (suc p) e t n = rw (e, t, n) refl

module _ (fuel : ℕ) (heads : ℕ → ℕ) (lists : Lists) (s : Sched) (v : Linked heads lists s.nodes)
    (tops : AreHeads heads s) (l : ℕ) (le : l ≤ pri_queue_num) (ys : List (ℕ × Slot)) (x : ℕ × Slot)
    (t : Task) (task : task_at s.tasks x.1.task ≡ some t) where
  abbrev first : ℕ × Slot
  first = (heads l, record { task = 0; level = l })

  module _ (z : ℕ × Slot) (zs : List (ℕ × Slot)) (at : lists l ≡ ys ++ x ∷ z ∷ zs)
      (short : length (lists l) < fuel) where
    short_before : length ys < fuel
    short_before = omega (arith, short, ap length at, length-append ys (x ∷ z ∷ zs))

    chain : Chain s.nodes 0 (heads l) (first ∷ ys ++ x ∷ z ∷ zs)
    chain = whole fuel heads lists s v tops l le ys x (z ∷ zs) at short_before

    -- The node before, and the last one.
    abbrev previous : ℕ
    previous = last_address (heads l) ys

    abbrev last : ℕ
    last = last_address (heads l) (ys ++ z ∷ zs)

    -- Another place of the list.
    off : (a : ℕ) → Has a (first ∷ ys ++ z ∷ zs) → x.0 ≢ a
    off a i q = elim (Has-append a (first ∷ ys) (z ∷ zs) i) [
      | inl j ↦ Chain-Apart s.nodes (first ∷ ys) (x ∷ z ∷ zs) chain a j (inl (sym q))
      | inr j ↦
          Chain-once s.nodes (first ∷ ys) x (z ∷ zs) chain (subst (λ b. Has b (z ∷ zs)) (sym q) j)
    ]

    last-Has : Has last (first ∷ ys ++ z ∷ zs)
    last-Has = last_address-Has first (ys ++ z ∷ zs)

    wider : (a : ℕ) → Has a (first ∷ ys ++ z ∷ zs) → Has a (first ∷ ys ++ x ∷ z ∷ zs)
    wider a i = elim (Has-append a (first ∷ ys) (z ∷ zs) i) [
      | inl j ↦ Has-append_left a (first ∷ ys) (x ∷ z ∷ zs) j
      | inr j ↦ Has-append_right a (first ∷ ys) (x ∷ z ∷ zs) (inr j)
    ]

    same_nodes :
        (a : ℕ) → Has a (first ∷ (ys ++ z ∷ zs) ++ x ∷ []) → Has a (first ∷ ys ++ x ∷ z ∷ zs)
    same_nodes a i = elim (Has-append a (first ∷ ys ++ z ∷ zs) (x ∷ []) i) [
      | inl j ↦ wider a j
      | inr (inl q) ↦ Has-append_right a (first ∷ ys) (x ∷ z ∷ zs) (inl q)
      | inr (inr e) ↦ absurd e
    ]

    x-level : x.1.level ≡ l
    x-level =
        (All-append_right _ ys (x ∷ z ∷ zs) (subst (All (λ y. y.1.level ≡ l)) at (v.levels l le))).0

    z_nonzero : 0 ≢ z.0
    z_nonzero =
        let (n, e) =
          Chain-load s.nodes chain z.0
            (Has-append_right z.0 (first ∷ ys) (x ∷ z ∷ zs) (inr (inl refl))) in
        nonzero s.nodes z.0 e

    moved :
        (h2 h3 h4 h5 : List (Node Slot)) (n : Node Slot) (d : Detached s.nodes previous z.0 h2)
        → load h2 last ≡ some n
        → Stored h2 x.0 (record { next = z.0; previous = last; item = x.1 }) h3
        → Stored h3 x.0 (record { next = 0; previous = last; item = x.1 }) h4
        → Stored h4 last (record n { next = x.0 }) h5
        → Linked heads (replaced lists l ((ys ++ z ∷ zs) ++ x ∷ [])) h5
    moved h2 h3 h4 h5 n d e s3 s4 s5 =
        replaced-Linked heads lists s.nodes h5 v l le ((ys ++ z ∷ zs) ++ x ∷ [])
          (Chain-push h2 h5 first (ys ++ z ∷ zs) x.0 x.1
            (Detached-Chain s.nodes first ys x (z ∷ zs) chain h2 d) (λ i. off x.0 i refl)
            (λ b i ne. s5.others b ne ∙ (s4.others b (off b i) ∙ s3.others b (off b i)))
            (λ m f. s5.here ∙ same_node (λ k. record k { next = x.0 }) e f)
            (s5.others x.0 (λ q. off last last-Has (sym q)) ∙ s4.here))
          (All-append _ (ys ++ z ∷ zs) _
            (without_levels fuel heads lists s v tops l le ys x (z ∷ zs) at short_before)
            (x-level, tt))
          (subst (λ xs. Kept (first ∷ xs) s.nodes h5) (sym at)
            (λ a out m f.
              s5.others a
                (λ q. out (subst (λ b. Has b (first ∷ ys ++ x ∷ z ∷ zs)) q (wider last last-Has)))
              ∙ (s4.others a (not_x a out)
                  ∙ (s3.others a (not_x a out)
                      ∙ Detached-Kept s.nodes first ys x (z ∷ zs) chain h2 d a out m f))))
          (subst (λ xs. Within (first ∷ xs) s.nodes (first ∷ (ys ++ z ∷ zs) ++ x ∷ [])) (sym at)
            (λ a i. inl (same_nodes a i)))
      where
        not_x : (a : ℕ) → ¬ Has a (first ∷ ys ++ x ∷ z ∷ zs) → x.0 ≢ a
        not_x a out q = out (Has-append_right a (first ∷ ys) (x ∷ z ∷ zs) (inl (sym q)))

    move_inside :
        Returns
          (Edited (pos 0) heads s (replaced lists l ((ys ++ z ∷ zs) ++ x ∷ [])))
          (list_move_to_end fuel x.0 s)
    move_inside =
        let (n, e) = before s.nodes first ys x (z ∷ zs) chain in
        let ne = apart s.nodes first ys x (z ∷ zs) chain in
        let x_here = here fuel heads lists s v tops l le ys x (z ∷ zs) at short_before in
        let live = after s.nodes first ys x (z ∷ zs) chain in
        let off_x = off_last s.nodes first ys x (z ∷ zs) chain in
        let off_z = off_first s.nodes first ys x (z ∷ zs) chain in
        move_live fuel s x.0 last (heads l) x_here (task_nonzero s.tasks x.1.task task)
          (ne→== z.0 0 (λ q. z_nonzero (sym q))) (rw x-level (tops l le))
          (rw (last_address-skip (heads l) ys x z zs) at (
            tail_loop_last fuel s.tasks s.nodes fuel first (ys ++ x ∷ z ∷ zs) chain
              (rw at at short)))
          (bind (turn_on-Stored s.nodes previous z.0 e) λ h1 s1. rw (s1.others x.0 off_x ∙ x_here) (
            bind
              (turn_back-Turned h1 previous z.0
                (λ q. let (m, f) = live q in (m, s1.others z.0 ne ∙ f)))
              λ h2 s2.
                let d : Detached s.nodes previous z.0 h2 =
                  on_back s.nodes h1 h2 previous z.0 e ne s1 s2 in
                let (m, f) =
                  Chain-load h2 (Detached-Chain s.nodes first ys x (z ∷ zs) chain h2 d) last
                    last-Has in
                bind (set_previous-Stored h2 x.0 last (d.others x.0 off_x off_z ∙ x_here)) λ h3 s3.
                  bind (set_next-Stored h3 x.0 0 s3.here) λ h4 s4.
                    bind
                      (set_next-Stored h4 last x.0 (
                        s4.others last (off last last-Has)
                        ∙ (s3.others last (off last last-Has) ∙ f)))
                      λ h5 s5. returns (record {
                        nodes = h5;
                        result = refl;
                        linked = moved h2 h3 h4 h5 m d f s3 s4 s5;
                      })))

  -- The last node stays.
  stays :
      lists l ≡ ys ++ x ∷ []
      → length (lists l) < fuel
      → Returns
          (Edited (pos 0) heads s (replaced lists l ((ys ++ []) ++ x ∷ [])))
          (list_move_to_end fuel x.0 s)
  stays at short =
      let short_before : length ys < fuel =
        omega (arith, short, ap length at, length-append ys (x ∷ [])) in
      let same : lists l ≡ (ys ++ []) ++ x ∷ [] =
        at ∙ ap (λ zs. zs ++ x ∷ []) (sym (append-nil ys)) in
      rw
        (move_last fuel s x.0 (here fuel heads lists s v tops l le ys x [] at short_before)
          (task_nonzero s.tasks x.1.task task) refl)
        (returns (record {
          nodes = s.nodes;
          result = refl;
          linked =
              replaced-Linked heads lists s.nodes s.nodes v l le ((ys ++ []) ++ x ∷ [])
                (subst (λ xs. Chain s.nodes 0 (heads l) (first ∷ xs)) same (v.chains l le))
                (subst (All (λ y. y.1.level ≡ l)) same (v.levels l le)) (λ a out n e. e)
                (λ a i. inl (subst (λ xs. Has a (first ∷ xs)) (sym same) i));
        }))

  -- The node is the last of its list afterwards.
  pub list_move_to_end-Edited :
      (zs : List (ℕ × Slot))
      → lists l ≡ ys ++ x ∷ zs
      → length (lists l) < fuel
      → Returns
          (Edited (pos 0) heads s (replaced lists l ((ys ++ zs) ++ x ∷ [])))
          (list_move_to_end fuel x.0 s)
  list_move_to_end-Edited [] at short = stays at short
  list_move_to_end-Edited (z ∷ zs) at short = move_inside z zs at short
