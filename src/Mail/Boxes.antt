-- ===== src/Mail/Boxes.antt =====
-- All mailboxes of kernel/pc/mail.c at once: each has its own nodes, and a call changes those of one mailbox.
use huge_pie.Mail.{Mail, Mailbox, Post, deref, assign}
use huge_pie.Mail.Queue.{IsBox, nodes}
use huge_pie.Links.{Node}
use huge_pie.Links.Cells.{load-le}
use huge_pie.Links.Chain.{Kept, Within, Has, Apart, Chain-frame, Chain-load}
use huge_pie.Base.{
  ℕ, zero, suc, ◌≡◌, ◌≢◌, inl, inr, refl, sym, ap, ◌∙◌, subst, some, List, get_elem?-set_self,
  get_elem?-set_ne, get_elem?-lt, some-injective, Bool-cases, ==→eq, ==→ne, ◌==◌, arith,
}

pub deref-assign_self :
    (boxes : List Mailbox) (p : ℕ) (b c : Mailbox)
    → deref boxes p ≡ some b
    → deref (assign boxes p c) p ≡ some c
unfolding deref assign
deref-assign_self boxes zero b c e = absurd cc
deref-assign_self boxes (suc i) b c e = get_elem?-set_self boxes i c (get_elem?-lt boxes i e)

pub deref-assign_ne :
    (boxes : List Mailbox) (p q : ℕ) (c : Mailbox)
    → p ≢ q
    → deref (assign boxes p c) q ≡ deref boxes q
unfolding deref assign
deref-assign_ne boxes zero q c ne = refl
deref-assign_ne boxes (suc i) zero c ne = refl
deref-assign_ne boxes (suc i) (suc j) c ne = get_elem?-set_ne boxes i j c (λ e. ne (ap suc e))

-- Each mailbox is a queue of its own mails, and no two share a node. `view` gives the mails of a pointer to a mailbox,
-- and `marker` what its head node holds.
pub record IsPost (marker : ℕ → Mail) (view : ℕ → List (ℕ × Mail)) (s : Post) : Type 0 where
  pub valid : (p : ℕ) (b : Mailbox) → deref s.boxes p ≡ some b → IsBox s.mails b (marker p) (view p)
  pub apart :
      (p q : ℕ) (b c : Mailbox)
      → p ≢ q
      → deref s.boxes p ≡ some b
      → deref s.boxes q ≡ some c
      → Apart (nodes b (marker p) (view p)) (nodes c (marker q) (view q))

-- A mailbox whose nodes are kept stays as it is.
pub IsBox-frame :
    (h g : List (Node Mail)) (b : Mailbox) (m : Mail) (xs ys : List (ℕ × Mail))
    → IsBox h b m xs
    → Kept ys h g
    → Apart (nodes b m xs) ys
    → IsBox g b m xs
IsBox-frame h g b m xs ys v keep away = record {
  links = Chain-frame h g v.links (λ a i. keep a (away a i));
  tail = v.tail;
  count = v.count;
  room = v.room;
  texts = v.texts;
}

module _ (marker : ℕ → Mail) (view new : ℕ → List (ℕ × Mail)) (s : Post) (v : IsPost marker view s)
    (p : ℕ) (b c : Mailbox) (g : List (Node Mail)) (at : deref s.boxes p ≡ some b)
    (valid : IsBox g c (marker p) (new p)) (keep : Kept (nodes b (marker p) (view p)) s.mails g)
    (within : Within (nodes b (marker p) (view p)) s.mails (nodes c (marker p) (new p)))
    (rest : (q : ℕ) → p ≢ q → new q ≡ view q) where
  self : (d : Mailbox) → deref (assign s.boxes p c) p ≡ some d → c ≡ d
  self d e = some-injective _ _ (sym (deref-assign_self s.boxes p b c at) ∙ e)

  other :
      (q : ℕ) (d : Mailbox)
      → p ≢ q
      → deref (assign s.boxes p c) q ≡ some d
      → deref s.boxes q ≡ some d
  other q d ne e = sym (deref-assign_ne s.boxes p q c ne) ∙ e

  Apart-here :
      (q : ℕ) (d : Mailbox)
      → p ≢ q
      → deref s.boxes q ≡ some d
      → Apart (nodes c (marker p) (new p)) (nodes d (marker q) (new q))
  Apart-here q d ne e a i j =
      let k : Has a (nodes d (marker q) (view q)) =
        subst (λ xs. Has a (nodes d (marker q) xs)) (rest q ne) j in
      elim (within a i) [
        | inl l ↦ v.apart p q b d ne at e a l k
        | inr lt ↦
            (let (n, f) = Chain-load s.mails (v.valid q d e).links a k in
              let le = load-le s.mails a f in omega (arith, lt))
      ]

  valid_at :
      (q : ℕ) (d : Mailbox) → deref (assign s.boxes p c) q ≡ some d → IsBox g d (marker q) (new q)
  valid_at q d e = elim (Bool-cases (p == q)) [
    | inl y ↦
        let pq = ==→eq p q y in
        subst
          (λ j.
            (x : Mailbox) → deref (assign s.boxes p c) j ≡ some x → IsBox g x (marker j) (new j))
          pq (λ x f. subst (λ x. IsBox g x (marker p) (new p)) (self x f) valid) d e
    | inr n ↦
        let ne = ==→ne p q n in
        subst (λ xs. IsBox g d (marker q) xs) (sym (rest q ne))
          (IsBox-frame s.mails g d (marker q) (view q) (nodes b (marker p) (view p))
            (v.valid q d (other q d ne e)) keep
            (λ a i j. v.apart p q b d ne at (other q d ne e) a j i))
  ]

  Apart-at :
      (q r : ℕ) (d f : Mailbox)
      → q ≢ r
      → deref (assign s.boxes p c) q ≡ some d
      → deref (assign s.boxes p c) r ≡ some f
      → Apart (nodes d (marker q) (new q)) (nodes f (marker r) (new r))
  Apart-at q r d f ne e l = elim (Bool-cases (p == q)) [
    | inl y ↦
        let pq = ==→eq p q y in
        let pr : p ≢ r = (λ z. ne (sym pq ∙ z)) in
        subst
          (λ j.
            (x : Mailbox)
            → deref (assign s.boxes p c) j ≡ some x
            → Apart (nodes x (marker j) (new j)) (nodes f (marker r) (new r)))
          pq
          (λ x k.
            subst (λ x. Apart (nodes x (marker p) (new p)) (nodes f (marker r) (new r))) (self x k)
              (Apart-here r f pr (other r f pr l)))
          d e
    | inr n ↦
        (let nq = ==→ne p q n in
          elim (Bool-cases (p == r)) [
            | inl y ↦
                (let pr = ==→eq p r y in
                  subst
                    (λ j.
                      (x : Mailbox)
                      → deref (assign s.boxes p c) j ≡ some x
                      → Apart (nodes d (marker q) (new q)) (nodes x (marker j) (new j)))
                    pr
                    (λ x k.
                      subst (λ x. Apart (nodes d (marker q) (new q)) (nodes x (marker p) (new p)))
                        (self x k) (λ a i j. Apart-here q d nq (other q d nq e) a j i))
                    f l)
            | inr m ↦
                (let nr = ==→ne p r m in
                  λ a i j.
                    v.apart q r d f ne (other q d nq e) (other r f nr l) a
                      (subst (λ xs. Has a (nodes d (marker q) xs)) (rest q nq) i)
                      (subst (λ xs. Has a (nodes f (marker r) xs)) (rest r nr) j))
          ])
  ]

  -- The mailbox at `p` is replaced by one on nodes that are its own or new.
  pub assign-IsPost : IsPost marker new (record { boxes = assign s.boxes p c; mails = g })
  assign-IsPost = record { valid = valid_at; apart = Apart-at }
