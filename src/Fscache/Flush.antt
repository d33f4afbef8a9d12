-- ===== src/Fscache/Flush.antt =====
-- The write-back of a victim and the search for a buffer in kernel/fs/fscache/fscache.c, on a card that
-- reports no failure.
use huge_pie.Base.{
  ℕ, zero, suc, ◌≤◌, ◌≡◌, ◌≢◌, inl, inr, refl, sym, ap, ◌∙◌, false, ◌&&◌, not, some, List, [], ◌∷◌,
  length, take, length-take, ltb, Returns, returns, subst, get_elem?, set, get_elem?-some,
  get_elem?-lt, ◌==◌, arith, Bool-cases, ==→eq,
}
use huge_pie.Sd.{Sector, Card}
use huge_pie.Sd.Run.{run, store, settled, run-store_self, run-store-Apart, write_block_ready}
use huge_pie.Fscache.{Buffer, invalid, is_dirty, set_reference, write, find}
use huge_pie.Fscache.Same.{IsSame, AllSame, length-AllSame, get_elem?-AllSame, AllSame-refl}
use huge_pie.Fscache.View.{IsSlot, IsSlot-Apart, IsValid, Absent}

-- The buffer that one of the second list comes from.
pub record From (bs : List Buffer) (i : ℕ) (c : Buffer) : Type 0 where
  pub origin : Buffer
  pub there : get_elem? bs i ≡ some origin
  pub same : IsSame origin c

pub From-same :
    (bs cs : List Buffer) (i : ℕ) (c : Buffer)
    → AllSame bs cs
    → get_elem? cs i ≡ some c
    → From bs i c
From-same bs cs i c p e =
    let there = get_elem?-some bs i (omega (arith, length-AllSame bs cs p, get_elem?-lt cs i e)) in
    record { origin = there.0; there = there.1; same = get_elem?-AllSame bs cs i p there.1 e }

pub Absent-AllSame : (bs cs : List Buffer) (a : ℕ) → AllSame bs cs → Absent bs a → Absent cs a
Absent-AllSame bs cs a p h i c e =
    let o = From-same bs cs i c p e in λ q. h i o.origin o.there (sym o.same.cur ∙ q)

pub AllSame-set_reference :
    (bs : List Buffer) (i : ℕ) (b : Buffer)
    → get_elem? bs i ≡ some b
    → AllSame bs (set bs i (record b { state = set_reference b.state }))
AllSame-set_reference [] i b e = tt
AllSame-set_reference (x ∷ bs) zero b e = (ground arith, AllSame-refl bs)
AllSame-set_reference (x ∷ bs) (suc i) b e =
    (record { buf = refl; cur = refl; dirty = refl }, AllSame-set_reference bs i b e)

module _ (k r : ℕ) (f : ℕ → Sector) where
  pub IsValid-AllSame : (bs cs : List Buffer) → AllSame bs cs → IsValid k r bs f → IsValid k r cs f
  IsValid-AllSame bs cs p v = record {
    sized = λ i c e.
        let o = From-same bs cs i c p e in
        omega (arith, ap length o.same.buf, v.sized i o.origin o.there);
    slots = λ i c e n.
        let o = From-same bs cs i c p e in
        rw o.same.cur (v.slots i o.origin o.there (rw o.same.cur at n));
    agrees = λ i c e n d.
        let o = From-same bs cs i c p e in
        ap (take k) o.same.buf
        ∙ (v.agrees i o.origin o.there (rw o.same.cur at n) (sym o.same.dirty ∙ d)
            ∙ ap (λ x. run f x k) (sym o.same.cur));
    distinct = λ i j b c e g n q.
        let o = From-same bs cs i b p e in
        let o' = From-same bs cs j c p g in
        v.distinct i j o.origin o'.origin o.there o'.there (rw o.same.cur at n)
          (sym o.same.cur ∙ (q ∙ o'.same.cur));
  }

  -- What `fs_write_...` does to one buffer of a valid array: the card then holds the buffer's data
  -- at its place, and every other place as it was.
  pub record Flushed (b : Buffer) (o : ℕ × Buffer × Card) : Type 0 where
    pub g : ℕ → Sector
    pub code : o.0 ≡ 0
    pub card : o.2 ≡ settled g
    pub buf : o.1.buf ≡ b.buf
    pub held : b.cur ≢ invalid → run g b.cur k ≡ take k b.buf
    pub others : (a : ℕ) → IsSlot k r a → a ≢ b.cur → run g a k ≡ run f a k

  pub write-Flushed :
      (b : Buffer)
      → k ≤ length b.buf
      → (b.cur ≢ invalid → IsSlot k r b.cur)
      → (b.cur ≢ invalid → is_dirty b.state ≡ false → take k b.buf ≡ run f b.cur k)
      → Returns (Flushed b) (write k b (settled f))
  unfolding write
  write-Flushed b sized slot agrees =
      elim (Bool-cases (not (b.cur == invalid) && is_dirty b.state)) [
        | inl must ↦
            let valid : b.cur ≢ invalid = ground arith in
            let fits = (slot valid).fits in
            let size = length-take k b.buf sized in
            let room : ltb (length b.buf) k ≡ false = ground arith in
            rw (must, write_block_ready f b.cur (take k b.buf) (omega arith), room)
              (returns (record {
                g = store f b.cur (take k b.buf);
                code = refl;
                card = refl;
                buf = refl;
                held = λ n.
                    subst (λ j. run (store f b.cur (take k b.buf)) b.cur j ≡ take k b.buf) size
                      (run-store_self f b.cur (take k b.buf));
                others = λ a s ne.
                    run-store-Apart f b.cur a k (take k b.buf) size
                      (IsSlot-Apart k r b.cur a (slot valid) s (λ q. ne (sym q)));
              }))
        | inr skip ↦ rw skip (
            returns (record {
              g = f;
              code = refl;
              card = refl;
              buf = refl;
              held = λ n. sym (agrees n (ground arith));
              others = λ a s ne. refl;
            }))
      ]

pub find-Absent : (bufs : List Buffer) (a : ℕ) → find bufs a ≡ length bufs → Absent bufs a
unfolding find
find-Absent [] a h i b e = cc
find-Absent (x ∷ bs) a h zero b e = ground arith
find-Absent (x ∷ bs) a h (suc i) b e = find-Absent bs a (ground arith) i b e

pub find-Held :
    (bufs : List Buffer) (a : ℕ)
    → find bufs a ≢ length bufs
    → (b : Buffer) × (get_elem? bufs (find bufs a) ≡ some b) × (b.cur ≡ a)
unfolding find
find-Held [] a h = absurd (h refl)
find-Held (x ∷ bs) a h = elim (Bool-cases (x.cur == a)) [
  | inl e ↦ rw e (x, refl, ==→eq _ _ e)
  | inr e ↦ rw e (find-Held bs a (λ q. h (ground arith)))
]
