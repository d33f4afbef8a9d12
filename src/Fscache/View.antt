-- ===== src/Fscache/View.antt =====
-- What the buffers of kernel/fs/fscache/fscache.c and the card hold together, and when they agree.
use huge_pie.Base.{
  ℕ, zero, suc, ◌+◌, ◌*◌, ◌%◌, ◌/◌, ◌^◌, ◌≤◌, ◌<◌, ◌≡◌, ◌≢◌, ◌⊎◌, inl, inr, refl, ap, ◌∙◌, false,
  some, some-injective, List, [], ◌∷◌, length, take, get_elem?, ◌==◌, if◌then◌else◌, arith,
  ℕ_discrete, dec_lt, ne→==, ==_refl,
}
use native.Mathlib.Nat.{div-add-mod, mul-le-mul_left}
use huge_pie.Sd.{Sector}
use huge_pie.Sd.Run.{run, Apart}
use huge_pie.Fscache.{Buffer, invalid, is_dirty}
use huge_pie.Fscache.Same.{AllSame}

-- The places that a buffer of `k` sectors can stand for: runs that do not wrap, a multiple of `k`
-- from one another.
pub record IsSlot (k r a : ℕ) : Type 0 where
  pub aligned : a % k ≡ r
  pub fits : a + k ≤ 2 ^ 32
  pub valid : a ≢ invalid

IsSlot-Apart_lt : (k r a b : ℕ) → a % k ≡ r → b % k ≡ r → a / k < b / k → a + k ≤ b
IsSlot-Apart_lt k r a b p q h = omega (arith, div-add-mod a k, div-add-mod b k, mul-le-mul_left k h)

quotient-eq : (k r a b : ℕ) → a % k ≡ r → b % k ≡ r → a / k ≡ b / k → a ≡ b
quotient-eq k r a b p q h = omega (arith, div-add-mod a k, div-add-mod b k, ap (λ (t : ℕ). k * t) h)

pub IsSlot-Apart : (k r a b : ℕ) → IsSlot k r a → IsSlot k r b → a ≢ b → Apart k a b
IsSlot-Apart k r a b p q ne = elim (dec_lt (a / k) (b / k)) [
  | yes h ↦ inl (IsSlot-Apart_lt k r a b p.aligned q.aligned h)
  | no h ↦ elim (dec_lt (b / k) (a / k)) [
    | yes g ↦ inr (IsSlot-Apart_lt k r b a q.aligned p.aligned g)
    | no g ↦ absurd (ne (quotient-eq k r a b p.aligned q.aligned (omega arith)))
  ]
]

-- What the buffers and the card hold for a place: the first buffer that stands for it, else the
-- sectors of the card.
abbrev pub view : ℕ → List Buffer → (ℕ → Sector) → ℕ → List Sector
view k [] f a = run f a k
view k (b ∷ bs) f a = if b.cur == a then take k b.buf else view k bs f a

-- The buffers have room for whole runs and hold them, at most one for each place, and those that are not dirty agree with
-- the card.
pub record IsValid (k r : ℕ) (bufs : List Buffer) (f : ℕ → Sector) : Type 0 where
  pub sized : (i : ℕ) (b : Buffer) → get_elem? bufs i ≡ some b → k ≤ length b.buf
  pub slots : (i : ℕ) (b : Buffer) → get_elem? bufs i ≡ some b → b.cur ≢ invalid → IsSlot k r b.cur
  pub agrees :
      (i : ℕ) (b : Buffer)
      → get_elem? bufs i ≡ some b
      → b.cur ≢ invalid
      → is_dirty b.state ≡ false
      → take k b.buf ≡ run f b.cur k
  pub distinct :
      (i j : ℕ) (b c : Buffer)
      → get_elem? bufs i ≡ some b
      → get_elem? bufs j ≡ some c
      → b.cur ≢ invalid
      → b.cur ≡ c.cur
      → i ≡ j

-- No buffer stands for the place.
abbrev pub Absent : List Buffer → ℕ → Type 0
Absent bufs a = (i : ℕ) (b : Buffer) → get_elem? bufs i ≡ some b → b.cur ≢ a

-- Where a place is held.
pub record Held (bufs : List Buffer) (a : ℕ) : Type 0 where
  pub index : ℕ
  pub buffer : Buffer
  pub there : get_elem? bufs index ≡ some buffer
  pub stands : buffer.cur ≡ a

pub locate : (bufs : List Buffer) (a : ℕ) → Held bufs a ⊎ Absent bufs a
locate [] a = inr (λ i b e. cc)
locate (b ∷ bs) a = elim (ℕ_discrete b.cur a) [
  | yes e ↦ inl (record { index = 0; buffer = b; there = refl; stands = e })
  | no ne ↦ elim (locate bs a) [
    | inl h ↦
        inl (record { index = suc h.index; buffer = h.buffer; there = h.there; stands = h.stands })
    | inr h ↦ inr (absent_cons b ne h)
  ]
]
  where
    absent_cons : (b : Buffer) → b.cur ≢ a → Absent bs a → Absent (b ∷ bs) a
    absent_cons b ne h zero c e = λ q. ne (ap Buffer.cur (some-injective _ _ e) ∙ q)
    absent_cons b ne h (suc i) c e = h i c e

pub view-Absent :
    (k : ℕ) (bufs : List Buffer) (f : ℕ → Sector) (a : ℕ)
    → Absent bufs a
    → view k bufs f a ≡ run f a k
view-Absent k [] f a h = refl
view-Absent k (b ∷ bs) f a h =
    rw (ne→== b.cur a (h 0 b refl)) (view-Absent k bs f a (λ i c e. h (suc i) c e))

-- The buffer at an index is the one that shows, if no other stands for its place.
pub view-there :
    (k : ℕ) (bufs : List Buffer) (f : ℕ → Sector) (a i : ℕ) (b : Buffer)
    → get_elem? bufs i ≡ some b
    → b.cur ≡ a
    → ((j : ℕ) (c : Buffer) → get_elem? bufs j ≡ some c → c.cur ≡ a → j ≡ i)
    → view k bufs f a ≡ take k b.buf
view-there k [] f a i b e q only = cc
view-there k (x ∷ bs) f a zero b e q only =
    let same : x ≡ b = some-injective _ _ e in rw (same, q, ==_refl a)
view-there k (x ∷ bs) f a (suc i) b e q only =
    rw (ne→== x.cur a (λ w. zero_ne i (only 0 x refl w)))
      (view-there k bs f a i b e q (λ j c g w. omega (arith, only (suc j) c g w)))
  where
    zero_ne : (n : ℕ) → 0 ≢ suc n
    zero_ne n h = absurd (omega arith)

-- `view` and the rules for buffers look at no reference bit.
pub view-AllSame :
    (k : ℕ) (bs cs : List Buffer) (f : ℕ → Sector) (a : ℕ)
    → AllSame bs cs
    → view k cs f a ≡ view k bs f a
view-AllSame k [] [] f a p = refl
view-AllSame k [] (c ∷ cs) f a p = elim p [ ]
view-AllSame k (b ∷ bs) [] f a p = elim p [ ]
view-AllSame k (b ∷ bs) (c ∷ cs) f a p = rw (p.0.cur, p.0.buf, view-AllSame k bs cs f a p.1)
