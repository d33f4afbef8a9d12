-- ===== src/Mail/Queue.antt =====
-- A mailbox of kernel/pc/mail.c as a queue of mails, in the order in which they were sent.
use huge_pie.Mail.{Mail, Mailbox, mailbox_size, mail_length, blank, append_mail, take_mail}
use huge_pie.Links.{Node, load, alloc}
use huge_pie.Links.Cells.{
  load-le, nonzero, load-alloc_old, load-alloc_new, length-alloc, set_next-Stored,
  set_previous-Stored, set_item-Stored,
}
use huge_pie.Links.Chain.{
  Kept, Has, Chain, last_address, last_address-Has, last_address-append, Chain-load, Chain-at,
  Chain-Apart, first_address-ne, last_address-ne, first_address,
}
use huge_pie.Links.Edit.{Chain-push}
use huge_pie.Links.Unlink.{
  Detached, back_on, apart, turn_back-Turned, Detached-Chain, before, after, same_node,
}
use huge_pie.Strings.Copy.{take, drop, kernel_memcpy_lem, length-take}
use huge_pie.Base.{
  ℕ, suc, ◌+◌, ◌-◌, ◌≤◌, ◌<◌, ◌≡◌, ◌≢◌, inl, inr, refl, sym, ap, ◌∙◌, subst, ℤ, Option, some, List,
  [], ◌∷◌, ◌++◌, length, All, if◌then◌else◌, ◌==◌, ==_refl, ne→==, All-append, append-nil,
  length-append, Returns, returns, bind, arith,
}

-- The nodes of the mailbox: its head node, and those of the mails.
abbrev pub nodes : Mailbox → Mail → List (ℕ × Mail) → List (ℕ × Mail)
nodes box marker xs = (box.head, marker) ∷ xs

-- The mailbox holds these mails, at these addresses.
pub record IsBox (h : List (Node Mail)) (box : Mailbox) (marker : Mail) (xs : List (ℕ × Mail))
    : Type 0 where
  pub links : Chain h 0 box.head (nodes box marker xs)
  pub tail : box.tail ≡ last_address box.head xs
  pub count : box.count ≡ length xs
  pub room : length xs ≤ mailbox_size
  pub texts : All (λ x. mail_length ≤ length x.1.message) xs

abbrev letter : ℕ → ℤ → ℤ → List ℕ → Option (Node Mail)
letter p from to text =
    some (record { next = 0; previous = p; item = record { src = from; dst = to; message = text } })

-- A mailbox with one more mail, in a new node.
pub record Appended (h : List (Node Mail)) (box : Mailbox) (marker : Mail) (xs : List (ℕ × Mail))
    (m : Mail) (r : Mailbox × List (Node Mail)) : Type 0 where
  pub valid : IsBox r.1 r.0 marker (xs ++ (suc (length h), m) ∷ [])
  pub head : r.0.head ≡ box.head
  pub kept : Kept (nodes box marker xs) h r.1
  pub size : length r.1 ≡ suc (length h)

module _ (h : List (Node Mail)) (box : Mailbox) (marker : Mail) (xs : List (ℕ × Mail))
    (v : IsBox h box marker xs) where
  tail_node : (n : Node Mail) × (load h box.tail ≡ some n)
  tail_node = Chain-load h v.links box.tail (
      subst (λ b. Has b (nodes box marker xs)) (sym v.tail)
        (last_address-Has (box.head, marker) xs))

  tail-Has : Has box.tail (nodes box marker xs)
  tail-Has =
      subst (λ b. Has b (nodes box marker xs)) (sym v.tail) (last_address-Has (box.head, marker) xs)

  new-Has : ¬ Has (suc (length h)) (nodes box marker xs)
  new-Has i =
      let (n, e) = Chain-load h v.links (suc (length h)) i in
      let le = load-le h (suc (length h)) e in omega arith

  -- The heap after the writes of `SendMail`.
  grown :
      (g : List (Node Mail)) (m : Mail) (t : Node Mail)
      → load h box.tail ≡ some t
      → load g (suc (length h)) ≡ some (record { next = 0; previous = box.tail; item = m })
      → load g box.tail ≡ some (record t { next = suc (length h) })
      → ((b : ℕ) → box.tail ≢ b → suc (length h) ≢ b → load g b ≡ load (alloc h blank).0 b)
      → length g ≡ suc (length h)
      → length xs < mailbox_size
      → mail_length ≤ length m.message
      → Appended h box marker xs m (record box { tail = suc (length h); count = box.count + 1 }, g)
  grown g m t e here turned others size room long = record {
    valid = record {
      links =
          Chain-push h g (box.head, marker) xs (suc (length h)) m v.links new-Has
            (λ b i ne. same b i ne) last (rw (← v.tail) here);
      tail = sym (last_address-append box.head xs (suc (length h), m));
      count = omega (arith, v.count, length-append xs ((suc (length h), m) ∷ []));
      room = omega (arith, length-append xs ((suc (length h), m) ∷ []));
      texts = All-append (λ x. mail_length ≤ length x.1.message) xs _ v.texts (long, tt);
    };
    head = refl;
    kept = λ a out n l.
        others a (λ q. out (subst (λ b. Has b (nodes box marker xs)) q tail-Has))
          (λ q. omega (arith, q, load-le h a l))
        ∙ load-alloc_old h blank a l;
    size = size;
  }
    where
      same :
          (b : ℕ) → Has b (nodes box marker xs) → last_address box.head xs ≢ b → load g b ≡ load h b
      same b i ne =
          let (n, l) = Chain-load h v.links b i in
          others b (λ q. ne (sym v.tail ∙ q))
            (λ q. new-Has (subst (λ c. Has c (nodes box marker xs)) (sym q) i))
          ∙ (load-alloc_old h blank b l ∙ sym l)

      last :
          (n : Node Mail)
          → load h (last_address box.head xs) ≡ some n
          → load g (last_address box.head xs) ≡ some (record n { next = suc (length h) })
      last n l =
          rw (← v.tail) (
            turned ∙ same_node (λ k. record k { next = suc (length h) }) e (ap (load h) v.tail ∙ l))

  pub append_mail-Appended :
      (from to : ℤ) (text : List ℕ)
      → length xs < mailbox_size
      → mail_length ≤ length text
      → Returns
          (Appended h box marker xs
            (record { src = from; dst = to; message = take text mail_length }))
          (append_mail box from to text h)
  unfolding append_mail alloc
  append_mail-Appended from to text room long =
      let m : Mail = record { src = from; dst = to; message = take text mail_length } in
      let (t, e) = tail_node in
      let a : ℕ = suc (length h) in
      let old = load-alloc_old h blank box.tail e in
      let ne : box.tail ≢ a = (λ q. let le = load-le h box.tail e in omega (arith, q)) in
      let en : a ≢ box.tail = (λ q. ne (sym q)) in
      bind (set_next-Stored (alloc h blank).0 box.tail a old) λ h2 s2. rw s2.here (
        bind (set_previous-Stored h2 a box.tail (s2.others a ne ∙ load-alloc_new h blank)) λ h3 s3.
          rw (s3.others box.tail en ∙ s2.here) (
            bind (set_next-Stored h3 a 0 s3.here) λ h4 s4.
              bind (set_item-Stored h4 a _ s4.here) λ h5 s5.
                rw
                  (
                    s5.here,
                    kernel_memcpy_lem blank.item.message text mail_length (omega arith) long,
                  )
                  (bind (set_item-Stored h5 a _ s5.here) λ h6 s6. returns (
                    grown h6 m t e
                      (s6.here ∙ ap (letter box.tail from to) (append-nil (take text mail_length)))
                      (s6.others box.tail en
                        ∙ (s5.others box.tail en
                            ∙ (s4.others box.tail en ∙ (s3.others box.tail en ∙ s2.here))))
                      (λ b x y.
                        s6.others b y
                        ∙ (s5.others b y ∙ (s4.others b y ∙ (s3.others b y ∙ s2.others b x))))
                      (s6.size
                        ∙ (s5.size ∙ (s4.size ∙ (s3.size ∙ (s2.size ∙ length-alloc h blank)))))
                      room (omega (arith, length-take text mail_length long))))))

-- A mailbox without its first mail.
pub record Taken (h : List (Node Mail)) (box : Mailbox) (marker : Mail) (x : ℕ × Mail)
    (xs : List (ℕ × Mail)) (text : List ℕ) (r : ℤ × List ℕ × Mailbox × List (Node Mail))
    : Type 0 where
  pub sender : r.0 ≡ x.1.src
  pub copied : r.1 ≡ take x.1.message mail_length ++ drop text mail_length
  pub valid : IsBox r.3 r.2 marker xs
  pub head : r.2.head ≡ box.head
  pub kept : Kept (nodes box marker (x ∷ xs)) h r.3
  pub size : length r.3 ≡ length h

module _ (h : List (Node Mail)) (box : Mailbox) (marker : Mail) (x : ℕ × Mail)
    (xs : List (ℕ × Mail)) (v : IsBox h box marker (x ∷ xs)) where
  pub first_node :
      load h x.0 ≡ some (record { next = first_address xs; previous = box.head; item = x.1 })
  first_node = Chain-at h (box.head, marker) [] x xs v.links

  alone : ¬ Has x.0 xs
  alone = Chain-Apart h ((box.head, marker) ∷ x ∷ []) xs v.links x.0 (inr (inl refl))

  -- The tail is the head node once more when its mail was taken.
  new_tail : (if x.0 == box.tail then box.head else box.tail) ≡ last_address box.head xs
  new_tail = tail_of xs alone v.tail
    where
      tail_of :
          (ys : List (ℕ × Mail))
          → ¬ Has x.0 ys
          → box.tail ≡ last_address x.0 ys
          → (if x.0 == box.tail then box.head else box.tail) ≡ last_address box.head ys
      tail_of [] out e = rw (e, ==_refl x.0) refl
      tail_of (y ∷ ys) out e =
          rw (e, ne→== x.0 (last_address y.0 ys) (λ q. last_address-ne x.0 y ys out (sym q))) refl

  taken :
      (g : List (Node Mail)) (text : List ℕ)
      → Detached h box.head (first_address xs) g
      → Taken h box marker x xs text (
        x.1.src,
        take x.1.message mail_length ++ drop text mail_length,
        record box { tail = if x.0 == box.tail then box.head else box.tail; count = box.count - 1 },
        g,
      )
  taken g text d = record {
    sender = refl;
    copied = refl;
    valid = record {
      links = Detached-Chain h (box.head, marker) [] x xs v.links g d;
      tail = new_tail;
      count = omega (arith, v.count);
      room = omega (arith, v.room);
      texts = v.texts.1;
    };
    head = refl;
    kept = λ a out n l.
        d.others a (λ q. out (inl (sym q)))
          (first_address-ne a xs (nonzero h a l) (λ i. out (inr (inr i))))
        ∙ l;
    size = d.size;
  }

  pub take_mail-Taken :
      (text : List ℕ)
      → mail_length ≤ length text
      → Returns (Taken h box marker x xs text) (take_mail box x.0 text h)
  unfolding take_mail
  take_mail-Taken text long =
      let (n, e) = before h (box.head, marker) [] x xs v.links in
      let ne = apart h (box.head, marker) [] x xs v.links in
      rw (first_node, kernel_memcpy_lem text x.1.message mail_length long v.texts.0)
        (bind
          (turn_back-Turned h box.head (first_address xs)
            (after h (box.head, marker) [] x xs v.links))
          λ g t.
            rw
              (t.others x.0 (first_address-ne x.0 xs (nonzero h x.0 first_node) alone) ∙ first_node)
              (bind
                (set_next-Stored g box.head (first_address xs)
                  (t.others box.head (λ q. ne (sym q)) ∙ e))
                λ k s. returns (taken k text (back_on h g k box.head (first_address xs) e ne t s))))
