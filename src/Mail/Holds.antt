-- ===== src/Mail/Holds.antt =====
-- Steps on the queues of kernel/pc/mail.c, and what they do to the mailboxes that hold them.
use huge_pie.Mail.{Mail, Mailbox, Post, mailbox_size, mail_length, deref, assign}
use huge_pie.Mail.Queue.{IsBox, nodes}
use huge_pie.Mail.Boxes.{assign-IsPost, deref-assign_self, deref-assign_ne}
use huge_pie.Mail.Find.{AreServed}
use huge_pie.Mail.Run.{replaced, queue_send, queue_read, mails_of, Shows}
use huge_pie.Links.{load}
use huge_pie.Links.Chain.{Kept, Within, Has-append, Chain-head}
use huge_pie.Avl.{Element}
use huge_pie.Strings.Copy.{take, drop}
use huge_pie.Base.{
  ℕ, zero, suc, ◌≡◌, ◌≢◌, inl, inr, refl, sym, ap, ◌∙◌, subst, ℤ, pos, negsuc, true, false, some,
  List, [], ◌∷◌, ◌++◌, length, leb, ◌==◌, ==_refl, ne→==, ==→eq, Bool-cases, arith, All-imp, ==→ne,
  le→leb,
}

pub length-mails_of : (xs : List (ℕ × Mail)) → length (mails_of xs) ≡ length xs
length-mails_of [] = refl
length-mails_of (x ∷ xs) = ap suc (length-mails_of xs)

pub mails_of-append : (xs ys : List (ℕ × Mail)) → mails_of (xs ++ ys) ≡ mails_of xs ++ mails_of ys
mails_of-append [] ys = refl
mails_of-append (x ∷ xs) ys = ap (λ zs. x.1 ∷ zs) (mails_of-append xs ys)

pub replaced_self : {A : Type 0} (q : ℕ → A) (p : ℕ) (x : A) → replaced q p x p ≡ x
replaced_self q p x = rw (==_refl p) refl

pub replaced_ne : {A : Type 0} (q : ℕ → A) (p j : ℕ) (x : A) → p ≢ j → replaced q p x j ≡ q j
replaced_ne q p j x ne = rw (ne→== p j ne) refl

pub assign-AreServed :
    (boxes : List Mailbox) (p : ℕ) (b c : Mailbox) (keys : List Element)
    → deref boxes p ≡ some b
    → AreServed boxes keys
    → AreServed (assign boxes p c) keys
assign-AreServed boxes p b c keys at all = All-imp _ _ keys (λ k f ok. served k.p (f ok)) all
  where
    served :
        (j : ℕ)
        → (x : Mailbox) × (deref boxes j ≡ some x)
        → (x : Mailbox) × (deref (assign boxes p c) j ≡ some x)
    served j (x, e) = elim (Bool-cases (p == j)) [
      | inl y ↦ (
        c,
        subst (λ i. deref (assign boxes p c) i ≡ some c) (==→eq p j y)
            (deref-assign_self boxes p b c at),
      )
      | inr n ↦ (x, deref-assign_ne boxes p j c (==→ne p j n) ∙ e)
    ]

module _ (keys : List Element) (marker : ℕ → Mail) (q : ℕ → List Mail) (s : Post)
    (w : Shows keys marker q s) (p : ℕ) (b c : Mailbox) (at : deref s.boxes p ≡ some b) where
  -- A mailbox is replaced by one that holds other mails.
  pub assign-Shows :
      (ys : List (ℕ × Mail)) (g : List _)
      → IsBox g c (marker p) ys
      → Kept (nodes b (marker p) (w.view p)) s.mails g
      → Within (nodes b (marker p) (w.view p)) s.mails (nodes c (marker p) ys)
      → Shows keys marker
          (replaced q p (mails_of ys))
          (record { boxes = assign s.boxes p c; mails = g })
  assign-Shows ys g v keep within = record {
    view = replaced w.view p ys;
    valid =
        assign-IsPost marker w.view (replaced w.view p ys) s w.valid p b c g at
          (subst (λ xs. IsBox g c (marker p) xs) (sym (replaced_self w.view p ys)) v) keep
          (subst (λ xs. Within (nodes b (marker p) (w.view p)) s.mails (nodes c (marker p) xs))
            (sym (replaced_self w.view p ys)) within)
          (λ j ne. replaced_ne w.view p j ys ne);
    same = λ j. elim (Bool-cases (p == j)) [ inl y ↦ rw y refl | inr n ↦ rw n (w.same j) ];
    served = assign-AreServed s.boxes p b c keys at w.served;
  }

-- An operation on the queue of a mailbox that is there.
pub queue_send_none :
    (from to : ℤ) (text : List ℕ) (q : ℕ → List Mail) → queue_send 0 from to text q ≡ (negsuc 0, q)
unfolding queue_send
queue_send_none from to text q = refl

pub queue_read_none :
    (text : List ℕ) (q : ℕ → List Mail) → queue_read 0 text q ≡ ((negsuc 0, pos 0, text), q)
unfolding queue_read
queue_read_none text q = refl

pub queue_send_full :
    (p : ℕ) (from to : ℤ) (text : List ℕ) (q : ℕ → List Mail)
    → leb mailbox_size (length (q p)) ≡ true
    → queue_send p from to text q ≡ (negsuc 0, q)
unfolding queue_send
queue_send_full zero from to text q e = refl
queue_send_full (suc i) from to text q e = rw e refl

pub queue_send_room :
    (p : ℕ) (from to : ℤ) (text : List ℕ) (q : ℕ → List Mail)
    → 0 ≢ p
    → leb mailbox_size (length (q p)) ≡ false
    → queue_send p from to text q ≡ (
      pos 0,
      replaced q p (q p ++ record { src = from; dst = to; message = take text mail_length } ∷ []),
    )
unfolding queue_send
queue_send_room zero from to text q ne e = absurd (ne refl)
queue_send_room (suc i) from to text q ne e = rw e refl

pub queue_read_empty :
    (p : ℕ) (text : List ℕ) (q : ℕ → List Mail)
    → q p ≡ []
    → queue_read p text q ≡ ((negsuc 0, pos 0, text), q)
unfolding queue_read
queue_read_empty zero text q e = refl
queue_read_empty (suc i) text q e = rw (e, queue_read) refl

pub queue_read_first :
    (p : ℕ) (text : List ℕ) (q : ℕ → List Mail) (m : Mail) (ms : List Mail)
    → 0 ≢ p
    → q p ≡ m ∷ ms
    → queue_read p text q
      ≡ ((pos 0, m.src, take m.message mail_length ++ drop text mail_length), replaced q p ms)
unfolding queue_read
queue_read_first zero text q m ms ne e = absurd (ne refl)
queue_read_first (suc i) text q m ms ne e = rw (e, queue_read) refl

pub deref-nonzero : (boxes : List Mailbox) (p : ℕ) (b : Mailbox) → deref boxes p ≡ some b → 0 ≢ p
unfolding deref
deref-nonzero boxes zero b e z = absurd cc
deref-nonzero boxes (suc i) b e z = omega (arith, z)

pub Within-append :
    (h : List _) (b c : Mailbox) (m : Mail) (xs : List (ℕ × Mail)) (y : Mail)
    → c.head ≡ b.head
    → Within (nodes b m xs) h (nodes c m (xs ++ (suc (length h), y) ∷ []))
Within-append h b c m xs y e a (inl q) = inl (inl (q ∙ e))
Within-append h b c m xs y e a (inr i) = elim (Has-append a xs ((suc (length h), y) ∷ []) i) [
  | inl j ↦ inl (inr j)
  | inr j ↦ elim j [ inl q ↦ inr (omega (arith, q)) | inr z ↦ absurd z ]
]

pub Within-tail :
    (h : List _) (b c : Mailbox) (m : Mail) (x : ℕ × Mail) (xs : List (ℕ × Mail))
    → c.head ≡ b.head
    → Within (nodes b m (x ∷ xs)) h (nodes c m xs)
Within-tail h b c m x xs e a (inl q) = inl (inl (q ∙ e))
Within-tail h b c m x xs e a (inr i) = inl (inr (inr i))

pub head_node :
    (h : List _) (b : Mailbox) (m : Mail) (x : ℕ × Mail) (xs : List (ℕ × Mail))
    → IsBox h b m (x ∷ xs)
    → load h b.head ≡ some (record { next = x.0; previous = 0; item = m })
head_node h b m x xs v = Chain-head h (b.head, m) (x ∷ xs) v.links

pub no_mail : (n : ℕ) → n ≡ 0 → leb n 0 ≡ true
no_mail n e = le→leb n 0 (omega (arith, e))
