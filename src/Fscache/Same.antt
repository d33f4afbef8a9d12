-- ===== src/Fscache/Same.antt =====
-- Buffers of kernel/fs/fscache/fscache.c that differ in their reference bits only.
use huge_pie.Base.{
  ℕ, zero, suc, ◌≡◌, refl, ◌∙◌, false, some, List, [], ◌∷◌, length, get_elem?, set, arith,
}
use huge_pie.Fscache.{Buffer, is_referenced, is_dirty, clear_reference}

-- Neither referenced nor dirty.
pub record IsIdle (b : Buffer) : Type 0 where
  pub unreferenced : is_referenced b.state ≡ false
  pub clean : is_dirty b.state ≡ false

-- The same buffer but for its reference bit.
pub record IsSame (b b' : Buffer) : Type 0 where
  pub buf : b'.buf ≡ b.buf
  pub cur : b'.cur ≡ b.cur
  pub dirty : is_dirty b'.state ≡ is_dirty b.state

abbrev pub AllSame : List Buffer → List Buffer → Type 0
AllSame [] [] = Unit
AllSame [] (b' ∷ bs') = ⊥
AllSame (b ∷ bs) [] = ⊥
AllSame (b ∷ bs) (b' ∷ bs') = IsSame b b' × AllSame bs bs'

pub AllSame-refl : (bs : List Buffer) → AllSame bs bs
AllSame-refl [] = tt
AllSame-refl (b ∷ bs) = (record { buf = refl; cur = refl; dirty = refl }, AllSame-refl bs)

pub AllSame-trans : (bs cs ds : List Buffer) → AllSame bs cs → AllSame cs ds → AllSame bs ds
AllSame-trans [] [] ds p q = q
AllSame-trans [] (c ∷ cs) ds p q = elim p [ ]
AllSame-trans (b ∷ bs) [] ds p q = elim p [ ]
AllSame-trans (b ∷ bs) (c ∷ cs) [] p q = q
AllSame-trans (b ∷ bs) (c ∷ cs) (d ∷ ds) p q = (
  record { buf = q.0.buf ∙ p.0.buf; cur = q.0.cur ∙ p.0.cur; dirty = q.0.dirty ∙ p.0.dirty },
  AllSame-trans bs cs ds p.1 q.1,
)

pub length-AllSame : (bs cs : List Buffer) → AllSame bs cs → length cs ≡ length bs
length-AllSame [] [] p = refl
length-AllSame [] (c ∷ cs) p = elim p [ ]
length-AllSame (b ∷ bs) [] p = elim p [ ]
length-AllSame (b ∷ bs) (c ∷ cs) p = omega (arith, length-AllSame bs cs p.1)

pub get_elem?-AllSame :
    (bs cs : List Buffer) (i : ℕ) {b c : Buffer}
    → AllSame bs cs
    → get_elem? bs i ≡ some b
    → get_elem? cs i ≡ some c
    → IsSame b c
get_elem?-AllSame [] cs i p e f = cc
get_elem?-AllSame (x ∷ bs) [] i p e f = elim p [ ]
get_elem?-AllSame (x ∷ bs) (y ∷ cs) zero p e f = ground arith
get_elem?-AllSame (x ∷ bs) (y ∷ cs) (suc i) p e f = get_elem?-AllSame bs cs i p.1 e f

pub AllSame-set :
    (bs : List Buffer) (i : ℕ) (b : Buffer)
    → get_elem? bs i ≡ some b
    → AllSame bs (set bs i (record b { state = clear_reference b.state }))
AllSame-set [] i b e = tt
AllSame-set (x ∷ bs) zero b e = (ground arith, AllSame-refl bs)
AllSame-set (x ∷ bs) (suc i) b e =
    (record { buf = refl; cur = refl; dirty = refl }, AllSame-set bs i b e)
