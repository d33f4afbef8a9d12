-- ===== src/Pid/Run.antt =====
-- Any sequence of calls of kernel/pc/pid.c against the same calls on an ascending list.
use huge_pie.Base.{
  ℤ, pos, negsuc, true, Option, none, some, List, [], ◌∷◌, inc_int, if◌then◌else◌, Returns, returns,
  bind, mono, Bool-cases, inl, inr, ◌>>=◌, ◌≡◌, refl, sym, ap, ◌∙◌,
}
use huge_pie.Avl.{Element, Tree, null, node, maximum, key_of}
use huge_pie.Avl.Sorted.{add, erase, add-IsSorted}
use huge_pie.Avl.Heights.{to_list}
use huge_pie.Avl.Search.{last?, maximum_lem}
use huge_pie.Avl.Insert.{insert_lem}
use huge_pie.Pid.{element, alloc_pid, insert_pid, del_pid}
use huge_pie.Pid.Laws.{IsPids, turned_away, Inserted, insert_pid_lem, del_pid_lem}

pub data Op : Type 0 where
  alloc : Op
  insert del : ℤ → Op

-- One call, as kernel/pc/pc.c makes them on its `pid_tree`.
unfoldable pub step : Op → Tree → Option (ℤ × Tree)
step alloc t = alloc_pid true t
step (insert pid) t = insert_pid true t pid
step (del pid) t = del_pid t pid

-- The same call on the ids in use.
unfoldable pub ids_step : Op → List Element → ℤ × List Element
ids_step alloc xs = elim (last? xs) [
  | none ↦ (negsuc 0, xs)
  | some m ↦ (inc_int m.value, add (element (inc_int m.value)) xs)
]
ids_step (insert pid) xs =
    if turned_away xs pid then (negsuc 0, xs) else (pos 0, add (element pid) xs)
ids_step (del pid) xs = (elim xs [ [] ↦ negsuc 0 | x ∷ r ↦ pos 0 ], erase (element pid) xs)

-- The results of the calls in turn, with the last state.
unfoldable pub run : List Op → Tree → Option (List ℤ × Tree)
run [] t = some ([], t)
run (op ∷ ops) t = do (code, t') ← step op t; (codes, t'') ← run ops t'; some (code ∷ codes, t'')

unfoldable pub ids_run : List Op → List Element → List ℤ × List Element
ids_run [] xs = ([], xs)
ids_run (op ∷ ops) xs =
    let (code, ys) = ids_step op xs in let (codes, zs) = ids_run ops ys in (code ∷ codes, zs)

-- A result that agrees with the one on the list, and a tree that is as it should be.
abbrev pub Agrees : ℤ × List Element → ℤ × Tree → Type 0
Agrees (code, xs) (code', t) = IsPids t × (code' ≡ code) × (to_list t ≡ xs)

ids_alloc-none : (xs : List Element) → last? xs ≡ none → ids_step alloc xs ≡ (negsuc 0, xs)
unfolding ids_step
ids_alloc-none xs e = rw (e, ids_step)

ids_alloc-some :
    (xs : List Element) (m : Element)
    → last? xs ≡ some m
    → ids_step alloc xs ≡ (inc_int m.value, add (element (inc_int m.value)) xs)
unfolding ids_step
ids_alloc-some xs m e = rw (e, ids_step)

alloc_refines :
    (t m : Tree)
    → maximum t ≡ m
    → IsPids t
    → Returns (Agrees (ids_step alloc (to_list t))) (alloc_pid true t)
unfolding alloc_pid
alloc_refines t null e v =
    rw (e, alloc_pid, ids_alloc-none (to_list t) (sym (maximum_lem t) ∙ ap key_of e))
      (returns (v, refl, refl))
alloc_refines t (node k h l r) e v =
    rw (e, alloc_pid, ids_alloc-some (to_list t) k (sym (maximum_lem t) ∙ ap key_of e))
      (bind (insert_lem true t (element (inc_int k.value)) v.rooted v.sorted) λ t' w. returns (
        record {
          rooted = w.0;
          sorted = rw w.1 (add-IsSorted (element (inc_int k.value)) (to_list t) v.sorted);
        },
        refl,
        w.1,
      ))

insert_refines :
    (pid : ℤ) (xs : List Element) (r : ℤ × Tree)
    → Inserted xs pid r
    → Agrees (ids_step (insert pid) xs) r
unfolding ids_step
insert_refines pid xs r w = elim (Bool-cases (turned_away xs pid)) [
  | inl away ↦ (w.0, rw away (rw away at w.1), rw away (rw away at w.2))
  | inr new ↦ (w.0, rw new (rw new at w.1), rw new (rw new at w.2))
]

del_refines :
    (pid : ℤ) (t : Tree)
    → IsPids t
    → Returns (Agrees (ids_step (del pid) (to_list t))) (del_pid t pid)
unfolding ids_step
del_refines pid t v = del_pid_lem t pid v

pub step_refines :
    (op : Op) (t : Tree) → IsPids t → Returns (Agrees (ids_step op (to_list t))) (step op t)
unfolding step
step_refines alloc t v = alloc_refines t (maximum t) refl v
step_refines (insert pid) t v = mono (insert_pid_lem t pid v) (insert_refines pid (to_list t))
step_refines (del pid) t v = del_refines pid t v

-- From a tree of ids, every sequence of calls of `Alloc_pid`, `Insert_pid` and `Del_pid` runs without using a null
-- pointer, returns what the same calls on the ascending list of ids return, and ends with the
-- tree of that list.
pub run_refines :
    (ops : List Op) (t : Tree)
    → IsPids t
    → Returns
        (λ r.
          IsPids r.1
          × (r.0 ≡ (ids_run ops (to_list t)).0)
          × (to_list r.1 ≡ (ids_run ops (to_list t)).1))
        (run ops t)
unfolding run ids_run
run_refines [] t v = returns (v, refl, refl)
run_refines (op ∷ ops) t v = bind (step_refines op t v) λ r w.
    bind (run_refines ops r.1 w.0)
      λ q z. returns (z.0, rw (w.1, z.1, w.2), z.2 ∙ ap (λ xs. (ids_run ops xs).1) w.2)
