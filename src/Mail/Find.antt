-- ===== src/Mail/Find.antt =====
-- `FindMailbox` of kernel/pc/mail.c against the keys of the tree in order.
use huge_pie.Mail.{Mailbox, deref, owner, find_mailbox}
use huge_pie.Avl.{Element, Tree, null, node, compare, search, key_of}
use huge_pie.Avl.Sorted.{IsSorted, lookup}
use huge_pie.Avl.Heights.{to_list}
use huge_pie.Avl.Search.{search_lem}
use huge_pie.Base.{
  ℕ, ◌≡◌, inl, inr, refl, sym, ap, ◌∙◌, subst, ℤ, pos, true, false, some, none, List, [], ◌∷◌,
  ltb_ℤ, eq_of_cmp_int, All, if◌then◌else◌, Bool-cases, Ordering-cases, some-injective, eq,
}

-- The pointer to the mailbox of a process, or 0.
unfoldable pub pointer : List Element → ℤ → ℕ
pointer keys pid =
    if ltb_ℤ pid (pos 0) then 0 else elim (lookup (owner pid) keys) [ none ↦ 0 | some k ↦ k.p ]

-- Each key of a process leads to a mailbox.
abbrev pub AreServed : List Mailbox → List Element → Type 0
AreServed boxes =
    All (λ k. ltb_ℤ k.value (pos 0) ≡ false → (b : Mailbox) × (deref boxes k.p ≡ some b))

pub lookup-All {ℓ} :
    (P : Element → Type ℓ) (j k : Element) (xs : List Element)
    → All P xs
    → lookup j xs ≡ some k
    → P k × (compare j k ≡ eq)
unfolding lookup
lookup-All P j k [] all e = absurd cc
lookup-All P j k (x ∷ xs) all e = elim (Ordering-cases (compare j x)) [
  | inl c ↦ lookup-All P j k xs all.1 (rw (c, lookup) at e)
  | inr (inl c) ↦
      (let same : x ≡ k = some-injective _ _ (rw (c, lookup) at e) in
        subst (λ y. P y × (compare j y ≡ eq)) same (all.0, c))
  | inr (inr c) ↦ lookup-All P j k xs all.1 (rw (c, lookup) at e)
]

-- What `FindMailbox` gives on these keys.
pub data Found (boxes : List Mailbox) (keys : List Element) (pid : ℤ) : Tree → Type 0 where
  missing : pointer keys pid ≡ 0 → Found boxes keys pid null
  there :
      {k : Element} {h : ℕ} {l r : Tree}
      → k.value ≡ pid
      → pointer keys pid ≡ k.p
      → (b : Mailbox) → deref boxes k.p ≡ some b
      → Found boxes keys pid (node k h l r)

find_negative : (head : Tree) (pid : ℤ) → ltb_ℤ pid (pos 0) ≡ true → find_mailbox head pid ≡ null
unfolding find_mailbox
find_negative null pid e = refl
find_negative (node k h l r) pid e = rw e refl

find_search :
    (head : Tree) (pid : ℤ)
    → ltb_ℤ pid (pos 0) ≡ false
    → find_mailbox head pid ≡ search head (owner pid)
unfolding find_mailbox search
find_search null pid e = refl
find_search (node k h l r) pid e = rw e refl

module _ (boxes : List Mailbox) (head : Tree) (pid : ℤ) (s : IsSorted (to_list head))
    (served : AreServed boxes (to_list head)) where
  searched :
      (t : Tree)
      → search head (owner pid) ≡ t
      → ltb_ℤ pid (pos 0) ≡ false
      → Found boxes (to_list head) pid t
  unfolding pointer
  searched null e ok =
      let none_there : none ≡ lookup (owner pid) (to_list head) =
        ap key_of (sym e) ∙ search_lem head (owner pid) s in
      missing (rw (ok, sym none_there) refl)
  searched (node k h l r) e ok =
      let k_there : lookup (owner pid) (to_list head) ≡ some k =
        sym (search_lem head (owner pid) s) ∙ ap key_of e in
      let found =
        lookup-All (λ k. ltb_ℤ k.value (pos 0) ≡ false → (b : Mailbox) × (deref boxes k.p ≡ some b))
          (owner pid) k (to_list head) served k_there in
      let same : pid ≡ k.value = unfold compare in eq_of_cmp_int pid k.value found.1 in
      let (b, at) = found.0 (subst (λ v. ltb_ℤ v (pos 0) ≡ false) same ok) in
      there (sym same) (rw (ok, k_there) refl) b at

  -- Every process is found in the tree, or has no mailbox.
  pub find_mailbox-Found : Found boxes (to_list head) pid (find_mailbox head pid)
  unfolding pointer
  find_mailbox-Found = elim (Bool-cases (ltb_ℤ pid (pos 0))) [
    | inl neg ↦ rw (find_negative head pid neg) (missing (rw neg refl))
    | inr ok ↦ rw (find_search head pid ok) (searched (search head (owner pid)) refl ok)
  ]
