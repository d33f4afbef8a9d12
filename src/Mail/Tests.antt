-- ===== src/Mail/Tests.antt =====
-- kernel/pc/mail.c at a few mailboxes.
use huge_pie.Mail.{Mail, Mailbox, Post, deref, mailbox_size, blank_text, destroy_mailbox}
use huge_pie.Mail.Queue.{IsBox, nodes}
use huge_pie.Mail.Run.{Op, send, read, run, queue_run, Shows, IsCall}
use huge_pie.Mail.Refine.{mailbox_run_refines, mailbox_bounded}
use huge_pie.Mail.Registry.{Removed, destroy_mailbox-Removed}
use huge_pie.Links.{load}
use huge_pie.Links.Chain.{nil, cons, Apart}
use huge_pie.Avl.{Tree, null, node}
use huge_pie.Avl.Heights.{to_list}
use huge_pie.Base.{
  ◌≤◌, length, ℕ, zero, suc, ◌≡◌, ◌≢◌, refl, subst, some-injective, pos, negsuc, some, List, [],
  ◌∷◌, All, Returns, arith,
}

-- The mailbox of process 3.
abbrev office : Tree
office = node (record { value = pos 3; p = 1 }) 1 null null

abbrev marker : Mail
marker = record { src = negsuc 0; dst = negsuc 0; message = [] }

abbrev empty : Post
empty = record {
  boxes = record { head = 1; tail = 1; count = 0 } ∷ [];
  mails = record { next = 0; previous = 0; item = marker } ∷ [];
}

empty-IsBox : IsBox empty.mails (record { head = 1; tail = 1; count = 0 }) marker []
unfolding load
empty-IsBox = record {
  links = cons refl (λ i. i) (nil refl);
  tail = refl;
  count = refl;
  room = omega arith;
  texts = tt;
}

empty-Shows : Shows (to_list office) (λ p. marker) (λ p. []) empty
unfolding deref
empty-Shows = record {
  view = λ p. [];
  valid = record { valid = valid; apart = apart };
  same = λ p. refl;
  served = (λ e. (record { head = 1; tail = 1; count = 0 }, refl), tt);
}
  where
    valid : (p : ℕ) (b : Mailbox) → deref empty.boxes p ≡ some b → IsBox empty.mails b marker []
    valid zero b e = absurd cc
    valid (suc zero) b e =
        subst (λ c. IsBox empty.mails c marker []) (some-injective _ _ e) empty-IsBox
    valid (suc (suc i)) b e = absurd cc

    apart :
        (p q : ℕ) (b c : Mailbox)
        → p ≢ q
        → deref empty.boxes p ≡ some b
        → deref empty.boxes q ≡ some c
        → Apart (nodes b marker []) (nodes c marker [])
    apart zero q b c ne e f = absurd cc
    apart (suc zero) zero b c ne e f = absurd cc
    apart (suc zero) (suc zero) b c ne e f = absurd (ne refl)
    apart (suc zero) (suc (suc j)) b c ne e f = absurd cc
    apart (suc (suc i)) q b c ne e f = absurd cc

abbrev letter : List ℕ
letter = 104 ∷ 105 ∷ blank_text 98

-- Five messages and two reads: the fifth message finds the mailbox full.
abbrev calls : List Op
calls =
    send (pos 1) (pos 3) letter
    ∷ send (pos 2) (pos 3) letter
    ∷ send (pos 2) (pos 3) letter
    ∷ send (pos 4) (pos 3) letter
    ∷ send (pos 5) (pos 3) letter
    ∷ read (pos 3) (blank_text 100)
    ∷ read (pos 3) (blank_text 100)
    ∷ []

calls-IsCall : All IsCall calls
calls-IsCall = omega arith

mailbox_run_refines_example :
    Returns
      (λ r.
        (r.0 ≡ (queue_run calls (to_list office) (λ p. [])).0)
        × Shows (to_list office) (λ p. marker) (queue_run calls (to_list office) (λ p. [])).1 r.1)
      (run calls office empty)
mailbox_run_refines_example =
    mailbox_run_refines calls office (λ p. marker) (λ p. []) empty empty-Shows (tt, tt) calls-IsCall

mailbox_bounded_example :
    Returns
      (λ r.
        (p : ℕ) (b : Mailbox)
        → deref r.1.boxes p ≡ some b
        → (b.count ≤ mailbox_size)
          × (b.count ≡ length ((queue_run calls (to_list office) (λ p. [])).1 p)))
      (run calls office empty)
mailbox_bounded_example =
    mailbox_bounded calls office (λ p. marker) (λ p. []) empty empty-Shows (tt, tt) calls-IsCall

destroy_mailbox-Removed_example :
    Returns
      (Removed office (λ p. marker) (λ p. []) empty empty-Shows (tt, tt) (tt, tt) (pos 3))
      (destroy_mailbox office (pos 3) empty)
destroy_mailbox-Removed_example =
    destroy_mailbox-Removed office (λ p. marker) (λ p. []) empty empty-Shows (tt, tt) (tt, tt)
      (pos 3) refl refl
