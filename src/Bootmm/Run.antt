-- ===== src/Bootmm/Run.antt =====
-- kernel/mm/bootmm.c: sequences of calls of `bootmm_alloc_pages`, with the alignment of one page.
use huge_pie.Bootmm.{Bootmm, bootmm_alloc_pages, page_free, page_used}
use huge_pie.Bootmm.Pages.{Taken}
use huge_pie.Bootmm.Record.{IsBootmm, Allocated, got, unrecorded, no_room}
use huge_pie.Bootmm.Alloc.{bootmm_alloc_pages-Allocated}
use huge_pie.Base.{
  ℕ, dec_le, max, ◌-◌, ◌+◌, ◌*◌, ◌/◌, ◌^◌, ◌≤◌, ◌<◌, ◌⊎◌, inl, inr, ◌≡◌, refl, sym, ◌∙◌, Option,
  some, List, [], ◌∷◌, get_elem?, ◌>>=◌, All, Returns, returns, bind, arith, All-imp,
}

-- A call: the size and the type.
abbrev pub Request : Type 0
Request = ℕ × ℕ

abbrev pub IsRequest : Request → Type 0
IsRequest q = (0 < q.0) × (q.0 ≤ 2 ^ 32 - 4096)

-- A result: the address, 0 for the null pointer, and the number of pages.
abbrev pub Block : Type 0
Block = ℕ × ℕ

-- The calls in order: the results and the state.
unfoldable pub alloc_all : Bootmm → List Request → Option (List Block × Bootmm)
alloc_all bmm [] = some ([], bmm)
alloc_all bmm (q ∷ qs) = do
  (res, bmm') ← bootmm_alloc_pages bmm q.0 q.1 4096
  (blocks, bmm'') ← alloc_all bmm' qs
  some ((res, (q.0 + 4095) / 4096) ∷ blocks, bmm'')

-- No byte is in both blocks, unless one is null.
abbrev pub IsApart : Block → Block → Type 0
IsApart x y = 0 < x.0 → 0 < y.0 → (x.0 + x.1 * 4096 ≤ y.0) ⊎ (y.0 + y.1 * 4096 ≤ x.0)

abbrev pub AreApart : List Block → Type 0
AreApart [] = Unit
AreApart (x ∷ xs) = All (IsApart x) xs × AreApart xs

-- The block starts at a page, and all of its pages have the mark in the map.
abbrev HasMark : ℕ → List ℕ → Block → Type 0
HasMark mark map x =
    0 < x.0
    → (index : ℕ) × (x.0 ≡ index * 4096)
      × (0 < x.1)
      × ((i : ℕ) → index ≤ i → i < index + x.1 → get_elem? map i ≡ some mark)

clash :
    (i : ℕ) (map : List ℕ) → get_elem? map i ≡ some page_free → ¬ (get_elem? map i ≡ some page_used)
clash i map f u = absurd (let e : some page_free ≡ some page_used = sym f ∙ u in cc)

HasMark-IsApart :
    (map : List ℕ) (x y : Block) → HasMark page_used map x → HasMark page_free map y → IsApart x y
HasMark-IsApart map x y u f p q =
    let (j, e, a, us) = u p in
    let (k, e', a', fs) = f q in
    elim (dec_le (j + x.1) k) [
      | yes l ↦ inl (omega arith)
      | no g ↦ elim (dec_le (k + y.1) j) [
        | yes l ↦ inr (omega arith)
        | no h ↦ absurd (
            clash (max j k) map (fs (max j k) (omega arith) (omega arith))
              (us (max j k) (omega arith) (omega arith)))
      ]
    ]

-- What one call leaves.
record Called (bmm : Bootmm) (x : Block) (bmm' : Bootmm) : Type 0 where
  again : IsBootmm bmm'
  was_free : HasMark page_free bmm.s_map x
  is_used : HasMark page_used bmm'.s_map x
  fresh : (i : ℕ) → get_elem? bmm'.s_map i ≡ some page_free → get_elem? bmm.s_map i ≡ some page_free

Taken-fresh :
    (map map' : List ℕ) (e index cnt i : ℕ)
    → Taken map map' e index cnt
    → get_elem? map' i ≡ some page_free
    → get_elem? map i ≡ some page_free
Taken-fresh map map' e index cnt i t f = elim (dec_le index i) [
  | no l ↦ sym (t.others i (inl (omega arith))) ∙ f
  | yes l ↦ elim (dec_le (index + cnt) i) [
    | yes g ↦ sym (t.others i (inr g)) ∙ f
    | no g ↦ absurd (clash i map' f (t.are_used i l (omega arith)))
  ]
]

Allocated-Called :
    (bmm : Bootmm) (cnt type : ℕ) (r : ℕ × Bootmm)
    → IsBootmm bmm
    → 0 < cnt
    → Allocated bmm cnt type r
    → Called bmm (r.0, cnt) r.1
Allocated-Called bmm cnt type r b pos (got {bmm'} index p t d w) = record {
  again = w;
  was_free = λ p. (index, refl, pos, λ i a b. (t.were_free i a b).1);
  is_used = λ p. (index, refl, pos, t.are_used);
  fresh = λ i f. Taken-fresh bmm.s_map bmm'.s_map bmm.max_pfn index cnt i t f;
}
Allocated-Called bmm cnt type r b pos (unrecorded {bmm'} index t e l w) = record {
  again = w;
  was_free = λ p. absurd (omega arith);
  is_used = λ p. absurd (omega arith);
  fresh = λ i f. Taken-fresh bmm.s_map bmm'.s_map bmm.max_pfn index cnt i t f;
}
Allocated-Called bmm cnt type r b pos (no_room n m) = record {
  again = b;
  was_free = λ p. absurd (omega arith);
  is_used = λ p. absurd (omega arith);
  fresh = λ i f. f;
}

-- What a sequence of calls leaves.
pub record Ran (bmm : Bootmm) (r : List Block × Bootmm) : Type 0 where
  pub again : IsBootmm r.1
  pub apart : AreApart r.0
  pub were_free : All (HasMark page_free bmm.s_map) r.0

HasMark-fresh :
    (bmm bmm' : Bootmm) (x y : Block)
    → Called bmm x bmm'
    → HasMark page_free bmm'.s_map y
    → HasMark page_free bmm.s_map y
HasMark-fresh bmm bmm' x y c f p =
    let (k, e, a, fs) = f p in (k, e, a, λ i l u. c.fresh i (fs i l u))

Ran-cons :
    (bmm bmm' : Bootmm) (x : Block) (r : List Block × Bootmm)
    → Called bmm x bmm'
    → Ran bmm' r
    → Ran bmm (x ∷ r.0, r.1)
Ran-cons bmm bmm' x r c n = record {
  again = n.again;
  apart = (
    All-imp (HasMark page_free bmm'.s_map) (IsApart x) r.0
        (λ y f. HasMark-IsApart bmm'.s_map x y c.is_used f) n.were_free,
    n.apart,
  );
  were_free = (
    c.was_free,
    All-imp (HasMark page_free bmm'.s_map) (HasMark page_free bmm.s_map) r.0
        (λ y f. HasMark-fresh bmm bmm' x y c f) n.were_free,
  );
}

-- Any sequence of calls of `bootmm_alloc_pages` with one page as the alignment, for sizes from 1 to
-- 2^32 - 4096, ends without a fault, if the state is as it has to be between calls at first: the blocks that
-- are returned and not null lie apart from each other, their pages were free at first, and the state is as it
-- has to be.
pub alloc_all-Ran :
    (bmm : Bootmm) (qs : List Request)
    → IsBootmm bmm
    → All IsRequest qs
    → Returns (Ran bmm) (alloc_all bmm qs)
unfolding alloc_all
alloc_all-Ran bmm [] b a = returns (record { again = b; apart = tt; were_free = tt })
alloc_all-Ran bmm (q ∷ qs) b a =
    let (pos, le) = a.0 in
    bind (bootmm_alloc_pages-Allocated bmm q.0 q.1 4096 b pos le (omega arith)) (λ r d.
      let c = Allocated-Called bmm ((q.0 + 4095) / 4096) q.1 r b (omega arith) d in
      bind (alloc_all-Ran r.1 qs c.again a.1)
        (λ s n. returns (Ran-cons bmm r.1 (r.0, (q.0 + 4095) / 4096) s c n)))
