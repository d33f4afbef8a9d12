-- ===== src/Fscache/Read.antt =====
-- Reads through the buffers of kernel/fs/fscache/fscache.c, on a card that reports no failure.
use huge_pie.Base.{
  ℕ, ◌+◌, ◌%◌, ◌^◌, ◌<◌, ◌≡◌, inl, inr, refl, sym, ◌∙◌, some, List, length, take, get_elem?, set,
  get_elem?-some, get_elem?-lt, get_elem?-set_self, length-set, ◌==◌, arith, Bool-cases, ==→eq,
  ==→ne, Returns, returns, bind, ◌>>=◌,
}
use huge_pie.Sd.{Sector}
use huge_pie.Sd.Run.{settled}
use huge_pie.Fscache.{Buffer, Outcome, set_reference, find, fill, read, victim, advance}
use huge_pie.Fscache.Same.{length-AllSame}
use huge_pie.Fscache.Victim.{Chosen, victim-Chosen}
use huge_pie.Fscache.View.{IsSlot, IsValid, Absent, view, view-Absent, view-there, view-AllSame}
use huge_pie.Fscache.Flush.{
  IsValid-AllSame, Absent-AllSame, AllSame-set_reference, write-Flushed, find-Absent, find-Held,
}
use huge_pie.Fscache.Fill.{
  fresh, fresh_front, fill-filled, filled_here, filled-IsValid, filled-view,
}

-- What a successful read leaves for the place `sector`.
pub record ReadAt (k r : ℕ) (bufs : List Buffer) (f : ℕ → Sector) (sector : ℕ) (o : Outcome)
    : Type 0 where
  pub sectors : ℕ → Sector
  pub card : o.card ≡ settled sectors
  -- The result is the index of a buffer that stands for the place and holds its data.
  pub buffer : Buffer
  pub there : get_elem? o.bufs o.result ≡ some buffer
  pub stands : buffer.cur ≡ sector
  pub holds : take k buffer.buf ≡ view k bufs f sector
  -- The buffers are in order again, and every place shows what it showed.
  pub valid : IsValid k r o.bufs sectors
  pub shows : (a : ℕ) → IsSlot k r a → view k o.bufs sectors a ≡ view k bufs f a
  pub clock : o.clock < length o.bufs

advance-lt : (size clock : ℕ) → clock < size → advance size clock < size
advance-lt size clock h = ground arith

module _ (k r : ℕ) (f : ℕ → Sector) (bufs : List Buffer) (v : IsValid k r bufs f) (sector clock : ℕ)
    (slot : IsSlot k r sector) (c : clock < length bufs) where
  -- No buffer stands for the place: a victim is written back and filled.
  miss :
      Absent bufs sector
      → Returns (ReadAt k r bufs f sector) (do
        (index, bufs', clock') ← victim bufs clock (length bufs)
        b ← get_elem? bufs' index
        fill k sector bufs' index b clock' (settled f))
  unfolding fill
  miss absent = bind (victim-Chosen bufs (length bufs) clock refl c) λ z w. filled_at z w
    where
      filled_at :
          (z : ℕ × List Buffer × ℕ)
          → Chosen bufs (length bufs) z
          → Returns
              (ReadAt k r bufs f sector)
              (get_elem? z.1 z.0 >>= λ b. fill k sector z.1 z.0 b z.2 (settled f))
      filled_at (index, cs, d) w =
          let same_length = length-AllSame bufs cs w.same in
          let there = get_elem?-some cs index (omega (arith, w.inside)) in
          let b = there.0 in
          let v' = IsValid-AllSame k r f bufs cs w.same v in
          let away : Absent cs sector = Absent-AllSame bufs cs sector w.same absent in
          rw there.1 (
            bind
              (write-Flushed k r f b (v'.sized index b there.1) (v'.slots index b there.1)
                (v'.agrees index b there.1))
              λ y u. rw (fill-filled k r f cs index b there.1 v' sector slot away y u d) (
                returns (record {
                  sectors = u.g;
                  card = refl;
                  buffer = fresh k r f cs index b there.1 v' sector slot away y u;
                  there = filled_here k r f cs index b there.1 v' sector slot away y u;
                  stands = refl;
                  holds =
                      fresh_front k r f cs index b there.1 v' sector slot away y u
                      ∙ u.others sector slot (λ p. away index b there.1 (sym p))
                      ∙ sym (view-Absent k bufs f sector absent);
                  valid = filled-IsValid k r f cs index b there.1 v' sector slot away y u;
                  shows = λ a s.
                      filled-view k r f cs index b there.1 v' sector slot away y u a s
                      ∙ view-AllSame k bufs cs f a w.same;
                  clock = omega (
                    arith,
                    length-set cs index (fresh k r f cs index b there.1 v' sector slot away y u),
                    w.clock,
                    advance-lt (length bufs) index w.inside,
                  );
                })))

  -- A buffer stands for the place: only its reference bit is set.
  hit :
      (b : Buffer)
      → get_elem? bufs (find bufs sector) ≡ some b
      → b.cur ≡ sector
      → ReadAt k r bufs f sector (record {
        result = find bufs sector;
        bufs = set bufs (find bufs sector) (record b { state = set_reference b.state });
        clock = clock;
        card = settled f;
      })
  hit b e q =
      let same = AllSame-set_reference bufs (find bufs sector) b e in
      record {
        sectors = f;
        card = refl;
        buffer = record b { state = set_reference b.state };
        there =
            get_elem?-set_self bufs (find bufs sector) _ (get_elem?-lt bufs (find bufs sector) e);
        stands = q;
        holds = sym (
            view-there k bufs f sector (find bufs sector) b e q (λ j x g p.
              v.distinct j (find bufs sector) x b g e (λ n. slot.valid (sym p ∙ n)) (p ∙ sym q)));
        valid = IsValid-AllSame k r f bufs _ same v;
        shows = λ a s. view-AllSame k bufs _ f a same;
        clock = omega (
          arith,
          length-set bufs (find bufs sector) (record b { state = set_reference b.state }),
          c,
        );
      }

-- On a card that reports no failure, from buffers in order, each with room for the sectors of a
-- transfer (so for up to eight sectors per cluster in a BUF_4K), with the clock inside the array and
-- for a sector where a buffer can start, fs_read_4k and fs_read_512 write and read inside the buffers
-- and return a buffer that stands for the sector and holds the data of the place in the sectors of a
-- transfer; the buffers are in order again, and every other place shows the same data as before.
pub read-ReadAt :
    (k r base first_sector : ℕ) (bufs : List Buffer) (f : ℕ → Sector) (clock : ℕ)
    → IsValid k r bufs f
    → IsSlot k r ((first_sector + base) % 2 ^ 32)
    → clock < length bufs
    → Returns
        (ReadAt k r bufs f ((first_sector + base) % 2 ^ 32))
        (read k base bufs first_sector clock (settled f))
unfolding read fill
read-ReadAt k r base first_sector bufs f clock v slot c =
    elim (Bool-cases (find bufs sector == length bufs)) [
      | inl e ↦ rw e (miss k r f bufs v sector clock slot c (find-Absent bufs sector (==→eq _ _ e)))
      | inr e ↦
          let h = find-Held bufs sector (==→ne _ _ e) in
          rw (e, h.1) (returns (hit k r f bufs v sector clock slot c h.0 h.1 h.2))
    ]
  where
    sector : ℕ
    sector = (first_sector + base) % 2 ^ 32
