-- ===== src/Sched/Append.antt =====
-- `add_task_to_list` of kernel/pc/pc.c on the lists of all levels.
use huge_pie.Sched.{Sched, Slot, pri_queue_num}
use huge_pie.Sched.Lists.{list_insert, add_task_to_list, new_node}
use huge_pie.Sched.Walk.{tail_loop_last}
use huge_pie.Sched.Linked.{replaced, Lists, nodes_of, Linked, replaced-Linked}
use huge_pie.Sched.Edit.{Edited, AreHeads}
use huge_pie.Links.{Node, load, alloc}
use huge_pie.Links.Chain.{
  Has, Chain, last_address, Has-append, Chain-frame, Chain-load, last_address-Has,
}
use huge_pie.Links.Cells.{
  load-le, load-alloc_old, load-alloc_new, set_next-Stored, set_previous-Stored, set_item-Stored,
}
use huge_pie.Links.Edit.{Chain-push}
use huge_pie.Links.Unlink.{same_node}
use huge_pie.Base.{
  ℕ, zero, suc, ◌≤◌, ◌<◌, ◌≡◌, ◌≢◌, inl, inr, refl, sym, ap, ◌∙◌, pos, some, List, [], ◌∷◌, ◌++◌,
  length, subst, arith, Returns, returns, bind, All-append,
}

module _ (fuel : ℕ) (heads : ℕ → ℕ) (lists : Lists) (s : Sched) (v : Linked heads lists s.nodes)
    (tops : AreHeads heads s) (l : ℕ) (le : l ≤ pri_queue_num) (short : length (lists l) < fuel)
    (task : ℕ) where
  -- The nodes with a new one.
  abbrev grown : List (Node Slot)
  grown = (alloc s.nodes (new_node (suc task) l)).0

  abbrev address : ℕ
  address = suc (length s.nodes)

  abbrev tail : ℕ
  tail = last_address (heads l) (lists l)

  chain : Chain grown 0 (heads l) (nodes_of heads lists l)
  chain = Chain-frame s.nodes grown (v.chains l le) (λ a i n. load-alloc_old s.nodes _ a)

  new-Has : ¬ Has address (nodes_of heads lists l)
  new-Has i =
      let (n, e) = Chain-load s.nodes (v.chains l le) address i in
      let k = load-le s.nodes address e in omega arith

  tail-Has : Has tail (nodes_of heads lists l)
  tail-Has = last_address-Has (heads l, record { task = 0; level = l }) (lists l)

  tail-ne : tail ≢ address
  tail-ne q = new-Has (subst (λ a. Has a (nodes_of heads lists l)) q tail-Has)

  abbrev slot : Slot
  slot = record { task = suc task; level = l }

  -- The lists after the writes of `list_insert`.
  appended :
      (g : List (Node Slot))
      → load g address ≡ some (record { next = 0; previous = tail; item = slot })
      → ((n : Node Slot)
          → load grown tail ≡ some n
          → load g tail ≡ some (record n { next = address }))
      → ((b : ℕ) → tail ≢ b → address ≢ b → load g b ≡ load grown b)
      → Linked heads (replaced lists l (lists l ++ (address, slot) ∷ [])) g
  appended g here last others =
      replaced-Linked heads lists s.nodes g v l le (lists l ++ (address, slot) ∷ [])
        (Chain-push grown g (heads l, record { task = 0; level = l }) (lists l) address slot chain
          new-Has
          (λ b i ne.
            others b ne (λ q. new-Has (subst (λ a. Has a (nodes_of heads lists l)) (sym q) i)))
          last here)
        (All-append _ (lists l) _ (v.levels l le) (refl, tt))
        (λ a out n e.
          others a (λ q. out (subst (λ b. Has b (nodes_of heads lists l)) q tail-Has))
            (λ q. let k = load-le s.nodes a e in omega (arith, q))
          ∙ load-alloc_old s.nodes _ a e)
        (λ a i. elim (Has-append a (nodes_of heads lists l) ((address, slot) ∷ []) i) [
          | inl j ↦ inl j
          | inr j ↦ elim j [ inl q ↦ inr (omega (arith, q)) | inr z ↦ absurd z ]
        ])

  inserted :
      Returns
        (Edited (pos 0) heads s (replaced lists l (lists l ++ (address, slot) ∷ [])))
        (list_insert fuel l address (record s { nodes = grown }))
  unfolding list_insert alloc
  inserted =
      let (n, e) = Chain-load grown chain tail tail-Has in
      let off : address ≢ tail = (λ q. tail-ne (sym q)) in
      rw
        (
          tops l le,
          tail_loop_last fuel s.tasks grown fuel (heads l, record { task = 0; level = l }) (lists l)
              chain short,
        )
        (bind (set_next-Stored grown tail address e) λ h1 s1.
          bind
            (set_previous-Stored h1 address tail
              (s1.others address tail-ne ∙ load-alloc_new s.nodes _))
            λ h2 s2. bind (set_next-Stored h2 address 0 s2.here) λ h3 s3.
              bind (set_item-Stored h3 address _ s3.here) λ h4 s4. returns (record {
                nodes = h4;
                result = refl;
                linked =
                    appended h4 s4.here
                      (λ m f.
                        s4.others tail off
                        ∙ (s3.others tail off
                            ∙ (s2.others tail off
                                ∙ (s1.here ∙ same_node (λ k. record k { next = address }) e f))))
                      (λ b x y. s4.others b y ∙ (s3.others b y ∙ (s2.others b y ∙ s1.others b x)));
              }))

  added-Edited :
      Returns
        (Edited (pos 0) heads s (replaced lists l (lists l ++ (address, slot) ∷ [])))
        (add_task_to_list fuel l (suc task) s)
  unfolding add_task_to_list alloc
  added-Edited = bind inserted λ r w.
      returns
        (record { nodes = w.nodes; result = ap (λ z. (pos 0, z.1)) w.result; linked = w.linked })

-- The task, which is not null, stands at the end of the list in a new node.
pub add_task_to_list-Edited :
    (fuel : ℕ) (heads : ℕ → ℕ) (lists : Lists) (s : Sched)
    → Linked heads lists s.nodes
    → AreHeads heads s
    → (l : ℕ) → l ≤ pri_queue_num
    → length (lists l) < fuel
    → (task : ℕ) → 0 ≢ task
    → Returns
        (Edited (pos 0) heads s (
          replaced lists l
            (lists l ++ (suc (length s.nodes), record { task = task; level = l }) ∷ [])))
        (add_task_to_list fuel l task s)
add_task_to_list-Edited fuel heads lists s v tops l le short zero nz = absurd (nz refl)
add_task_to_list-Edited fuel heads lists s v tops l le short (suc task) nz =
    added-Edited fuel heads lists s v tops l le short task
