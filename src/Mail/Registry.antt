-- ===== src/Mail/Registry.antt =====
-- `Destroy_mailbox` of kernel/pc/mail.c.
use huge_pie.Mail.{
  Mail, Mailbox, Post, mailbox_size, deref, owner, find_mailbox, drain, destroy_mailbox,
}
use huge_pie.Mail.Queue.{IsBox, nodes}
use huge_pie.Mail.Boxes.{IsBox-frame}
use huge_pie.Mail.Find.{pointer, Found, missing, there, find_mailbox-Found}
use huge_pie.Mail.Run.{Shows}
use huge_pie.Mail.Holds.{deref-nonzero}
use huge_pie.Links.{Node, load}
use huge_pie.Links.Cells.{nonzero, set_next-Stored}
use huge_pie.Links.Chain.{Has, Chain, nil, cons, Chain-frame, Chain-behind, Chain-head, Chain-once}
use huge_pie.Avl.{Element, Tree, null, node, non_null, delete}
use huge_pie.Avl.Sorted.{IsSorted, erase}
use huge_pie.Avl.Heights.{IsRooted, to_list, Held}
use huge_pie.Avl.Delete.{delete_lem}
use huge_pie.Base.{
  ℕ, zero, suc, ◌<◌, ◌≡◌, ◌≢◌, inl, inr, refl, sym, ap, ◌∙◌, ℤ, pos, negsuc, true, false, Option,
  some, List, [], ◌∷◌, length, ltb_ℤ, subst, some-injective, arith, Returns, returns, bind, mono,
  ◌>>=◌,
}

-- The node at `p` leads to no other, and all other nodes are as before.
pub record Drained (p : ℕ) (h g : List (Node Mail)) : Type 0 where
  pub around : (a : ℕ) → p ≢ a → load g a ≡ load h a
  pub last : (n : Node Mail) × (load g p ≡ some n) × (n.next ≡ 0)

-- The loop that drops the mails ends after one round for each of them, and empties the list.
drain-Drained :
    (fuel p : ℕ) (h : List (Node Mail)) (n : Node Mail) {previous p' : ℕ} (xs : List (ℕ × Mail))
    → load h p ≡ some n
    → n.next ≡ p'
    → ¬ Has p xs
    → Chain h previous p' xs
    → length xs < fuel
    → Returns (Drained p h) (drain fuel p h)
unfolding drain
drain-Drained zero p h n xs e f out c lt = absurd (omega arith)
drain-Drained (suc fuel) p h n [] e f out (nil z) lt =
    rw (e, f ∙ z, drain) (returns (record { around = λ a ne. refl; last = (n, e, f ∙ z) }))
drain-Drained (suc fuel) p h n {p' = zero} (x ∷ xs) e f out (cons g o c) lt =
    absurd (nonzero h 0 g refl)
drain-Drained (suc fuel) p h n {p' = suc y} (x ∷ xs) e f out (cons {q = q} g o c) lt =
    rw (e, f, drain, g)
      (bind (set_next-Stored h p q e) λ k s.
        let off =
          λ (a : ℕ) (i : Has a xs) (z : p ≡ a). out (inr (subst (λ b. Has b xs) (sym z) i)) in
        mono
          (drain-Drained fuel p k (record n { next = q }) xs s.here refl (λ i. out (inr i))
            (Chain-frame h k c (λ a i m l. s.others a (off a i) ∙ l)) (omega arith))
          λ j t. record { around = λ a ne. t.around a ne ∙ s.others a ne; last = t.last })

-- What is left when a mailbox was destroyed: the tree is without the process, its list is empty, and each other mailbox holds the same mails.
pub record Destroyed (keys : List Element) (marker : ℕ → Mail) (view : ℕ → List (ℕ × Mail))
    (s : Post) (pid : ℤ) (p : ℕ) (r : ℤ × Tree × Post) : Type 0 where
  pub code : r.0 ≡ pos 0
  pub tree : Held (erase (owner pid) keys) r.1
  pub boxes : r.2.boxes ≡ s.boxes
  pub empty :
      (b : Mailbox)
      → deref s.boxes p ≡ some b
      → (n : Node Mail) × (load r.2.mails b.head ≡ some n) × (n.next ≡ 0)
  pub others :
      (j : ℕ) (b : Mailbox)
      → p ≢ j
      → deref s.boxes j ≡ some b
      → IsBox r.2.mails b (marker j) (view j)

module _ (head : Tree) (marker : ℕ → Mail) (q : ℕ → List Mail) (s : Post)
    (w : Shows (to_list head) marker q s) (rooted : IsRooted head)
    (sorted : IsSorted (to_list head)) (pid : ℤ) where
  -- The mailbox at a pointer is emptied, and its key is taken out of the tree.
  emptied :
      (p : ℕ) (b : Mailbox)
      → deref s.boxes p ≡ some b
      → (h : ℕ) → b.head ≡ suc h
      → Returns (Destroyed (to_list head) marker w.view s pid p) (do
        mails ← drain (suc mailbox_size) (suc h) s.mails
        head' ← delete head (owner pid)
        some (pos 0, head', record s { mails = mails }))
  emptied p b at h e =
      let v = w.valid.valid p b at in
      let c : Chain s.mails 0 (suc h) ((suc h, marker p) ∷ w.view p) =
        subst (λ a. Chain s.mails 0 a ((a, marker p) ∷ w.view p)) e v.links in
      bind
        (drain-Drained (suc mailbox_size) (suc h) s.mails _ (w.view p)
          (Chain-head s.mails (suc h, marker p) (w.view p) c) refl
          (Chain-once s.mails [] (suc h, marker p) (w.view p) c)
          (Chain-behind s.mails (suc h, marker p) (w.view p) c) (omega (arith, v.room)))
        λ g d. bind (delete_lem head (owner pid) rooted sorted) λ t held. returns (record {
          code = refl;
          tree = held;
          boxes = refl;
          empty = λ c f.
              subst (λ a. (n : Node Mail) × (load g a ≡ some n) × (n.next ≡ 0))
                (sym e ∙ ap (λ c. c.head) (some-injective _ _ (sym at ∙ f))) d.last;
          others = λ j c ne f.
              IsBox-frame s.mails g c (marker j) (w.view j) (nodes b (marker p) (w.view p))
                (w.valid.valid j c f) (λ a out n l. d.around a (λ z. out (inl (sym z ∙ sym e))) ∙ l)
                (λ a i k. w.valid.apart p j b c ne at f a k i);
        })

  -- What `Destroy_mailbox` returns: -1 and no change if the process has no mailbox.
  pub data Removed : ℤ × Tree × Post → Type 0 where
    absent : pointer (to_list head) pid ≡ 0 → Removed (negsuc 0, head, s)
    removed :
        {r : ℤ × Tree × Post} (p : ℕ)
        → pointer (to_list head) pid ≡ p
        → 0 ≢ p
        → Destroyed (to_list head) marker w.view s pid p r
        → Removed r

  -- The head of a mailbox in use is no null pointer.
  emptied_head :
      (p : ℕ) (b : Mailbox)
      → deref s.boxes p ≡ some b
      → pointer (to_list head) pid ≡ p
      → (hd : ℕ) → b.head ≡ hd
      → Returns Removed (elim hd as (λ x. Option (ℤ × Tree × Post)) [
        | zero ↦ some (negsuc 0, head, s)
        | suc a ↦ (do
          mails ← drain (suc mailbox_size) (suc a) s.mails
          head' ← delete head (owner pid)
          some (pos 0, head', record s { mails = mails }))
      ])
  emptied_head p b at ptr zero e =
      let v = w.valid.valid p b at in
      absurd
        (nonzero s.mails b.head (Chain-head s.mails (b.head, marker p) (w.view p) v.links) (sym e))
  emptied_head p b at ptr (suc a) e =
      mono (emptied p b at a e) λ r d. removed p ptr (deref-nonzero s.boxes p b at) d

  remove_from :
      (t : Tree)
      → find_mailbox head pid ≡ t
      → Found s.boxes (to_list head) pid t
      → non_null head ≡ true
      → ltb_ℤ pid (pos 0) ≡ false
      → Returns Removed (destroy_mailbox head pid s)
  unfolding destroy_mailbox
  remove_from null e (missing z) some_head ok =
      rw (some_head, ok, e, destroy_mailbox) (returns (absent z))
  remove_from (node k h l r) e (there val ptr b at) some_head ok =
      rw (some_head, ok, e, destroy_mailbox, at) (emptied_head k.p b at ptr b.head refl)

  -- From a memory that shows queues of mails and a tree whose keys ascend and whose heights below the root are right, and for a process id that is not
  -- negative, Destroy_mailbox ends without using a null pointer, and its loop ends. If the process has no mailbox, it returns -1 and
  -- nothing changes; otherwise it returns 0, takes the key of the process out of the tree, which keeps right heights below the root,
  -- leaves the mailbox of the process without mails, and each other mailbox with the mails it had.
  pub destroy_mailbox-Removed :
      non_null head ≡ true
      → ltb_ℤ pid (pos 0) ≡ false
      → Returns Removed (destroy_mailbox head pid s)
  destroy_mailbox-Removed some_head ok =
      remove_from (find_mailbox head pid) refl (find_mailbox-Found s.boxes head pid sorted w.served)
        some_head ok
