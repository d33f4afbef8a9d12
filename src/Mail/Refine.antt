-- ===== src/Mail/Refine.antt =====
-- `SendMail` and `ReadMail` of kernel/pc/mail.c as operations on queues, and runs of them.
use huge_pie.Mail.{
  Mail, Mailbox, Post, mailbox_size, mail_length, deref, assign, find_mailbox, append_mail,
  take_mail, send_mail, read_mail,
}
use huge_pie.Mail.Queue.{IsBox, nodes, append_mail-Appended, take_mail-Taken, first_node}
use huge_pie.Mail.Find.{pointer, Found, missing, there, find_mailbox-Found}
use huge_pie.Mail.Run.{
  Op, send, read, Reply, step, replaced, queue_send, queue_read, queue_step, run, queue_run,
  mails_of, Shows, Agrees, IsCall,
}
use huge_pie.Links.{load}
use huge_pie.Links.Chain.{Kept, Within, Chain-load}
use huge_pie.Links.Cells.{nonzero}
use huge_pie.Avl.{Tree, null, node}
use huge_pie.Avl.Sorted.{IsSorted}
use huge_pie.Avl.Heights.{to_list}
use huge_pie.Strings.Copy.{take}
use huge_pie.Base.{
  ℕ, suc, ◌≤◌, ◌<◌, ◌≡◌, inl, inr, refl, sym, ap, ap₂, ◌∙◌, subst, ℤ, pos, negsuc, false, ◌||◌,
  some, List, [], ◌∷◌, ◌++◌, length, leb, ◌==◌, if◌then◌else◌, ne→==, Bool-cases, Returns, returns,
  mono, bind, ◌>>=◌, arith, All, leb→gt, lt→leb,
}
use huge_pie.Mail.Holds.{
  length-mails_of, mails_of-append, assign-Shows, queue_send_none, queue_read_none, queue_send_full,
  queue_send_room, queue_read_empty, queue_read_first, deref-nonzero, Within-append, Within-tail,
  head_node, no_mail,
}

module _ (head : Tree) (marker : ℕ → Mail) (q : ℕ → List Mail) (s : Post)
    (w : Shows (to_list head) marker q s) (sorted : IsSorted (to_list head)) where
  -- What `SendMail` returns, and the queues afterwards.
  abbrev Sent : ℤ × (ℕ → List Mail) → ℤ × Post → Type 0
  Sent (code, q') (code', s') = (code' ≡ code) × Shows (to_list head) marker q' s'

  head_live : (b : Mailbox) (p : ℕ) → deref s.boxes p ≡ some b → (b.head == 0) ≡ false
  head_live b p at =
      let (n, e) = Chain-load s.mails (w.valid.valid p b at).links b.head (inl refl) in
      ne→== b.head 0 (λ z. nonzero s.mails b.head e (sym z))

  -- The mail that is sent.
  abbrev letter : ℤ → ℤ → List ℕ → Mail
  letter from to text = record { src = from; dst = to; message = take text mail_length }

  count_queue : (b : Mailbox) (p : ℕ) → deref s.boxes p ≡ some b → b.count ≡ length (q p)
  count_queue b p at =
      (w.valid.valid p b at).count ∙ (sym (length-mails_of (w.view p)) ∙ ap length (w.same p))

  count_lt :
      (b : Mailbox) (p : ℕ)
      → deref s.boxes p ≡ some b
      → leb mailbox_size (length (q p)) ≡ false
      → length (w.view p) < mailbox_size
  count_lt b p at room =
      let lt = leb→gt mailbox_size (length (q p)) room in
      omega (arith, lt, count_queue b p at, (w.valid.valid p b at).count)

  sent :
      (p : ℕ) (b : Mailbox)
      → deref s.boxes p ≡ some b
      → (from to : ℤ) (text : List ℕ) → mail_length ≤ length text
      → leb mailbox_size (length (q p)) ≡ false
      → Returns (Sent (pos 0, replaced q p (q p ++ letter from to text ∷ []))) (do
        (c, g) ← append_mail b from to text s.mails
        some (pos 0, record { boxes = assign s.boxes p c; mails = g }))
  sent p b at from to text long room =
      bind
        (append_mail-Appended s.mails b (marker p) (w.view p) (w.valid.valid p b at) from to text
          (count_lt b p at room) long)
        λ (c, g) a. returns (
          refl,
          rw (queue_eq) (
              assign-Shows (to_list head) marker q s w p b c at
                (w.view p ++ (suc (length s.mails), letter from to text) ∷ []) g a.valid a.kept
                (Within-append s.mails b c (marker p) (w.view p) _ a.head)),
        )
    where
      queue_eq :
          q p ++ letter from to text ∷ []
          ≡ mails_of (w.view p ++ (suc (length s.mails), letter from to text) ∷ [])
      queue_eq =
          ap (λ ms. ms ++ letter from to text ∷ []) (sym (w.same p))
          ∙ sym (mails_of-append (w.view p) _)

  pub send_mail_refines :
      (from to : ℤ) (text : List ℕ)
      → mail_length ≤ length text
      → Returns
          (Sent (queue_send (pointer (to_list head) to) from to text q))
          (send_mail head from to text s)
  unfolding send_mail
  send_mail_refines from to text long =
      go (find_mailbox head to) refl (find_mailbox-Found s.boxes head to sorted w.served)
    where
      go :
          (t : Tree)
          → find_mailbox head to ≡ t
          → Found s.boxes (to_list head) to t
          → Returns
              (Sent (queue_send (pointer (to_list head) to) from to text q))
              (send_mail head from to text s)
      go null e (missing z) =
          rw (e, send_mail, z, queue_send_none from to text q) (returns (refl, w))
      go (node k h l r) e (there val ptr b at) =
          let counted = count_queue b k.p at in
          rw (e, send_mail, at, head_live b k.p at, ptr)
            (elim (Bool-cases (leb mailbox_size b.count)) [
              | inl full ↦
                  rw (full, queue_send_full k.p from to text q (rw counted at full))
                    (returns (refl, w))
              | inr room ↦
                  rw
                    (
                      room,
                      queue_send_room k.p from to text q (deref-nonzero s.boxes k.p b at)
                          (rw counted at room),
                    )
                    (sent k.p b at from to text long (rw counted at room))
            ])

  -- What `ReadMail` returns and writes, and the queues afterwards.
  abbrev Got : Reply × (ℕ → List Mail) → ℤ × ℤ × List ℕ × Post → Type 0
  Got (r, q') (code, from, text, s') = ((code, from, text) ≡ r) × Shows (to_list head) marker q' s'

  got :
      (p : ℕ) (b : Mailbox)
      → deref s.boxes p ≡ some b
      → (text : List ℕ) → mail_length ≤ length text
      → (xs : List (ℕ × Mail)) → w.view p ≡ xs
      → Returns (Got (queue_read p text q)) (
          if (b.head == 0) || leb b.count 0 then some (negsuc 0, pos 0, text, s) else (do
            first ← load s.mails b.head
            (if first.next == 0 then some (negsuc 0, pos 0, text, s) else (do
              (from', text', c, g) ← take_mail b first.next text s.mails
              some (pos 0, from', text', record { boxes = assign s.boxes p c; mails = g })))))
  got p b at text long [] e =
      rw
        (
          head_live b p at,
          no_mail b.count (count_queue b p at ∙ ap length (sym (w.same p) ∙ ap mails_of e)),
          queue_read_empty p text q (sym (w.same p) ∙ ap mails_of e),
        )
        (returns (refl, w))
  got p b at text long (x ∷ xs) e =
      let v : IsBox s.mails b (marker p) (x ∷ xs) =
        subst (λ ys. IsBox s.mails b (marker p) ys) e (w.valid.valid p b at) in
      rw
        (
          head_live b p at,
          lt→leb b.count 0 (omega (arith, v.count)),
          queue_read_first p text q x.1 (mails_of xs) (deref-nonzero s.boxes p b at)
              (sym (w.same p) ∙ ap mails_of e),
          head_node s.mails b (marker p) x xs v,
          ne→== x.0 0 (λ z. nonzero s.mails x.0 (first_node s.mails b (marker p) x xs v) (sym z)),
        )
        (bind (take_mail-Taken s.mails b (marker p) x xs v text long) λ (from, text', c, g) t.
          returns (
            ap₂ (λ f u. (pos 0, f, u)) t.sender t.copied,
            assign-Shows (to_list head) marker q s w p b c at xs g t.valid
                (subst (λ ys. Kept (nodes b (marker p) ys) s.mails g) (sym e) t.kept)
                (subst (λ ys. Within (nodes b (marker p) ys) s.mails (nodes c (marker p) xs))
                  (sym e) (Within-tail s.mails b c (marker p) x xs t.head)),
          ))

  pub read_mail_refines :
      (pid : ℤ) (text : List ℕ)
      → mail_length ≤ length text
      → Returns
          (Got (queue_read (pointer (to_list head) pid) text q))
          (read_mail head pid (pos 0) text s)
  unfolding read_mail
  read_mail_refines pid text long =
      go (find_mailbox head pid) refl (find_mailbox-Found s.boxes head pid sorted w.served)
    where
      go :
          (t : Tree)
          → find_mailbox head pid ≡ t
          → Found s.boxes (to_list head) pid t
          → Returns
              (Got (queue_read (pointer (to_list head) pid) text q))
              (read_mail head pid (pos 0) text s)
      go null e (missing z) = rw (e, read_mail, z, queue_read_none text q) (returns (refl, w))
      go (node k h l r) e (there val ptr b at) =
          rw (e, read_mail, at, ptr) (got k.p b at text long (w.view k.p) refl)

  pub step_refines :
      (op : Op)
      → IsCall op
      → Returns (Agrees (to_list head) marker (queue_step op (to_list head) q)) (step op head s)
  unfolding step queue_step
  step_refines (send from to text) long =
      bind (send_mail_refines from to text long)
        λ r w. returns (ap (λ c. (c, pos 0, text)) w.0, w.1)
  step_refines (read pid text) long =
      bind (read_mail_refines pid text long) λ r w. returns (w.0, w.1)

-- From a memory that shows queues of mails, every sequence of calls of `SendMail` and `ReadMail` with messages of at least
-- 100 bytes, on a tree whose keys ascend, runs without using a null pointer or reading outside a message, returns what
-- the same calls return on queues of at most four mails, first in and first out, for each mailbox, and ends with those queues.
pub mailbox_run_refines :
    (ops : List Op) (head : Tree) (marker : ℕ → Mail) (q : ℕ → List Mail) (s : Post)
    → Shows (to_list head) marker q s
    → IsSorted (to_list head)
    → All IsCall ops
    → Returns
        (λ r.
          (r.0 ≡ (queue_run ops (to_list head) q).0)
          × Shows (to_list head) marker (queue_run ops (to_list head) q).1 r.1)
        (run ops head s)
unfolding run queue_run
mailbox_run_refines [] head marker q s w sorted calls = returns (refl, w)
mailbox_run_refines (op ∷ ops) head marker q s w sorted calls =
    bind (step_refines head marker q s w sorted op calls.0) λ r z.
      bind
        (mailbox_run_refines ops head marker (queue_step op (to_list head) q).1 r.1 z.1 sorted
          calls.1)
        λ t y. returns (ap₂ (λ a b. a ∷ b) z.0 y.0, y.1)

-- From a memory that shows queues of mails and a tree whose keys ascend, after any sequence of calls of SendMail and ReadMail with
-- messages of at least 100 bytes, the counter of each mailbox is at most 4 and is the number of the mails in its queue.
pub mailbox_bounded :
    (ops : List Op) (head : Tree) (marker : ℕ → Mail) (q : ℕ → List Mail) (s : Post)
    → Shows (to_list head) marker q s
    → IsSorted (to_list head)
    → All IsCall ops
    → Returns
        (λ r.
          (p : ℕ) (b : Mailbox)
          → deref r.1.boxes p ≡ some b
          → (b.count ≤ mailbox_size) × (b.count ≡ length ((queue_run ops (to_list head) q).1 p)))
        (run ops head s)
mailbox_bounded ops head marker q s w sorted calls =
    mono (mailbox_run_refines ops head marker q s w sorted calls) λ r z p b at.
      let v = z.1.valid.valid p b at in
      (
        omega (arith, v.count, v.room),
        v.count ∙ (sym (length-mails_of (z.1.view p)) ∙ ap length (z.1.same p)),
      )
