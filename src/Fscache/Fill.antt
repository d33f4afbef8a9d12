-- ===== src/Fscache/Fill.antt =====
-- A sector read into the buffer of a victim, in kernel/fs/fscache/fscache.c.
use huge_pie.Base.{
  ℕ, ◌+◌, ◌^◌, ◌≤◌, ◌≡◌, ◌≢◌, ◌⊎◌, inl, inr, sym, ap, ◌∙◌, some, some-injective, subst, List,
  length, take, drop, length-take, take-append, length-append, ◌++◌, ltb, false, refl, get_elem?,
  set, get_elem?-lt, get_elem?-set_self, get_elem?-set_ne, arith, ℕ_discrete,
}
use huge_pie.Sd.{Sector, Card}
use huge_pie.Sd.Run.{run, length-run, settled, read_block_ready}
use huge_pie.Fscache.{Buffer, invalid, refill}
use huge_pie.Fscache.View.{IsSlot, IsValid, Absent, Held, locate, view, view-Absent, view-there}
use huge_pie.Fscache.Flush.{Flushed}

module _ (k r : ℕ) (f : ℕ → Sector) (bufs : List Buffer) (index : ℕ) (b : Buffer)
    (e : get_elem? bufs index ≡ some b) (v : IsValid k r bufs f) (sector : ℕ)
    (slot : IsSlot k r sector) (absent : Absent bufs sector) (z : ℕ × Buffer × Card)
    (w : Flushed k r f b z) where
  abbrev pub fresh : Buffer
  fresh = record { buf = run w.g sector k ++ drop k b.buf; cur = sector; state = 1 }

  abbrev pub filled : List Buffer
  filled = set bufs index fresh

  pub fill-filled :
      (clock : ℕ)
      → refill k sector bufs index clock z
        ≡ some (record { result = index; bufs = filled; clock = clock; card = settled w.g })
  unfolding refill
  fill-filled clock =
      let size = length-take k b.buf (v.sized index b e) in
      let fits : sector + length (take k b.buf) ≤ 2 ^ 32 = omega (arith, slot.fits, size) in
      let room : ltb (length b.buf) k ≡ false = (let h = v.sized index b e in ground arith) in
      rw (w.code, w.card, w.buf, read_block_ready w.g sector (take k b.buf) fits, size, room) refl

  -- The sectors that were read are the ones that the buffer stands for.
  pub fresh_front : take k (run w.g sector k ++ drop k b.buf) ≡ run w.g sector k
  fresh_front =
      subst (λ j. take j (run w.g sector k ++ drop k b.buf) ≡ run w.g sector k)
        (length-run w.g sector k) (take-append (run w.g sector k) (drop k b.buf))

  pub filled_here : get_elem? filled index ≡ some fresh
  filled_here = get_elem?-set_self bufs index fresh (get_elem?-lt bufs index e)

  -- A buffer of the new array is the fresh one, or one of the old array at another index.
  filled-cases :
      (i : ℕ) (c : Buffer)
      → get_elem? filled i ≡ some c
      → ((i ≡ index) × (c ≡ fresh)) ⊎ ((i ≢ index) × (get_elem? bufs i ≡ some c))
  filled-cases i c g = elim (ℕ_discrete index i) [
    | yes q ↦ inl (
      sym q,
      some-injective _ _ (sym g ∙ subst (λ x. get_elem? filled x ≡ some fresh) q filled_here),
    )
    | no q ↦ inr (λ x. q (sym x), sym (get_elem?-set_ne bufs index i fresh q) ∙ g)
  ]

  -- Where an old buffer stands for a place, no other does.
  evicted-ne :
      (i : ℕ) (c : Buffer) → i ≢ index → get_elem? bufs i ≡ some c → c.cur ≢ invalid → c.cur ≢ b.cur
  evicted-ne i c ne g n q = ne (v.distinct i index c b g e n q)

  pub filled-IsValid : IsValid k r filled w.g
  filled-IsValid = record {
    sized = λ i c g. elim (filled-cases i c g) [
      | inl h ↦
          rw h.1 (
            omega (arith, length-append (run w.g sector k) (drop k b.buf), length-run w.g sector k))
      | inr h ↦ v.sized i c h.1
    ];
    slots =
        λ i c g n. elim (filled-cases i c g) [ inl h ↦ rw h.1 slot | inr h ↦ v.slots i c h.1 n ];
    agrees = λ i c g n d. elim (filled-cases i c g) [
      | inl h ↦ rw h.1 fresh_front
      | inr h ↦
          v.agrees i c h.1 n d ∙ sym (w.others c.cur (v.slots i c h.1 n) (evicted-ne i c h.0 h.1 n))
    ];
    distinct = λ i j c d g g' n q. elim (filled-cases i c g) [
      | inl h ↦ elim (filled-cases j d g') [
        | inl h' ↦ h.0 ∙ sym h'.0
        | inr h' ↦ absurd (absent j d h'.1 (sym q ∙ ap Buffer.cur h.1))
      ]
      | inr h ↦ elim (filled-cases j d g') [
        | inl h' ↦ absurd (absent i c h.1 (q ∙ ap Buffer.cur h'.1))
        | inr h' ↦ v.distinct i j c d h.1 h'.1 n q
      ]
    ];
  }

  module _ (a : ℕ) (s : IsSlot k r a) where
    filled-view_here : a ≡ sector → view k filled w.g a ≡ view k bufs f a
    filled-view_here q =
        view-there k filled w.g a index fresh filled_here (sym q) only
        ∙ (fresh_front
            ∙ w.others sector slot (λ p. absent index b e (sym p))
            ∙ (ap (λ x. run f x k) (sym q) ∙ sym (view-Absent k bufs f a (rw q absent))))
      where
        only : (j : ℕ) (c : Buffer) → get_elem? filled j ≡ some c → c.cur ≡ a → j ≡ index
        only j c g p = elim (filled-cases j c g) [
          | inl h ↦ h.0
          | inr h ↦ absurd (absent j c h.1 (p ∙ q))
        ]

    module _ (ne : a ≢ sector) (h : Held bufs a) where
      old_only : (j : ℕ) (c : Buffer) → get_elem? bufs j ≡ some c → c.cur ≡ a → j ≡ h.index
      old_only j c g p =
          v.distinct j h.index c h.buffer g h.there (λ n. s.valid (sym p ∙ n)) (p ∙ sym h.stands)

      filled-view_evicted : h.index ≡ index → view k filled w.g a ≡ view k bufs f a
      filled-view_evicted q =
          view-Absent k filled w.g a gone
          ∙ (ap (λ x. run w.g x k) (sym h.stands ∙ ap Buffer.cur same)
              ∙ (w.held (λ n. s.valid (sym h.stands ∙ (ap Buffer.cur same ∙ n)))
                  ∙ (ap (λ c. take k (Buffer.buf c)) (sym same)
                      ∙ sym (view-there k bufs f a h.index h.buffer h.there h.stands old_only))))
        where
          same : h.buffer ≡ b
          same = some-injective _ _ (sym h.there ∙ (ap (get_elem? bufs) q ∙ e))

          gone : Absent filled a
          gone i c g p = elim (filled-cases i c g) [
            | inl z ↦ ne (sym p ∙ ap Buffer.cur z.1)
            | inr z ↦ z.0 (old_only i c z.1 p ∙ q)
          ]

      filled-view_kept : h.index ≢ index → view k filled w.g a ≡ view k bufs f a
      filled-view_kept n =
          view-there k filled w.g a h.index h.buffer
            (get_elem?-set_ne bufs index h.index fresh (λ x. n (sym x)) ∙ h.there) h.stands only
          ∙ sym (view-there k bufs f a h.index h.buffer h.there h.stands old_only)
        where
          only : (j : ℕ) (c : Buffer) → get_elem? filled j ≡ some c → c.cur ≡ a → j ≡ h.index
          only j c g p = elim (filled-cases j c g) [
            | inl z ↦ absurd (ne (sym p ∙ ap Buffer.cur z.1))
            | inr z ↦ old_only j c z.1 p
          ]

    filled-view-Absent : a ≢ sector → Absent bufs a → view k filled w.g a ≡ view k bufs f a
    filled-view-Absent ne nowhere =
        view-Absent k filled w.g a still
        ∙ (w.others a s (λ p. nowhere index b e (sym p)) ∙ sym (view-Absent k bufs f a nowhere))
      where
        still : Absent filled a
        still i c g p = elim (filled-cases i c g) [
          | inl z ↦ ne (sym p ∙ ap Buffer.cur z.1)
          | inr z ↦ nowhere i c z.1 p
        ]

    -- No place shows other data after the buffer was filled.
    pub filled-view : view k filled w.g a ≡ view k bufs f a
    filled-view = elim (ℕ_discrete a sector) [
      | yes q ↦ filled-view_here q
      | no ne ↦ elim (locate bufs a) [
        | inl h ↦ elim (ℕ_discrete h.index index) [
          | yes q ↦ filled-view_evicted ne h q
          | no n ↦ filled-view_kept ne h n
        ]
        | inr nowhere ↦ filled-view-Absent ne nowhere
      ]
    ]
