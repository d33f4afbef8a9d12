-- ===== src/Bootmm/Areas.antt =====
-- kernel/mm/bootmm.c: areas of memory in a list, and the bytes that they cover.
use huge_pie.Bootmm.{Info, pred_word}
use huge_pie.Base.{
  ℕ, dec_lt, ◌-◌, ◌^◌, ◌≤◌, ◌<◌, ◌⊎◌, inl, inr, ◌≡◌, List, [], ◌∷◌, ◌++◌, All, arith,
}

-- The byte belongs to the area, which is of the type.
abbrev pub IsIn : Info → ℕ → ℕ → Type 0
IsIn x type byte = (x.type ≡ type) × (x.start ≤ byte) × (byte ≤ x.last)

-- The byte belongs to an area of the type.
abbrev pub IsCovered : List Info → ℕ → ℕ → Type 0
IsCovered [] type byte = ⊥
IsCovered (x ∷ xs) type byte = IsIn x type byte ⊎ IsCovered xs type byte

-- An area of one byte or more that ends before the last byte of the addresses.
abbrev pub IsArea : Info → Type 0
IsArea x = (x.start ≤ x.last) × (x.last < 2 ^ 32 - 1)

-- The new areas are the old ones and one more.
pub record Added (xs ys : List Info) (area : Info) : Type 0 where
  pub areas : All IsArea ys
  pub to : (type byte : ℕ) → IsCovered ys type byte → IsCovered xs type byte ⊎ IsIn area type byte
  pub from : (type byte : ℕ) → IsCovered xs type byte ⊎ IsIn area type byte → IsCovered ys type byte

pub Added-cons :
    (x : Info) (xs ys : List Info) (area : Info)
    → IsArea x
    → Added xs ys area
    → Added (x ∷ xs) (x ∷ ys) area
Added-cons x xs ys area a d = record {
  areas = (a, d.areas);
  to = λ t b c. elim c [
    | inl i ↦ inl (inl i)
    | inr r ↦ elim (d.to t b r) [ inl o ↦ inl (inr o) | inr n ↦ inr n ]
  ];
  from = λ t b c. elim c [
    | inl o ↦ elim o [ inl i ↦ inl i | inr r ↦ inr (d.from t b (inl r)) ]
    | inr n ↦ inr (d.from t b (inr n))
  ];
}

-- An area that grows by the new one.
Added-head :
    (x y : Info) (xs : List Info) (area : Info)
    → IsArea y
    → All IsArea xs
    → ((type byte : ℕ) → IsIn y type byte → IsIn x type byte ⊎ IsIn area type byte)
    → ((type byte : ℕ) → IsIn x type byte ⊎ IsIn area type byte → IsIn y type byte)
    → Added (x ∷ xs) (y ∷ xs) area
Added-head x y xs area a rest f g = record {
  areas = (a, rest);
  to = λ t b c. elim c [
    | inl i ↦ elim (f t b i) [ inl o ↦ inl (inl o) | inr n ↦ inr n ]
    | inr r ↦ inl (inr r)
  ];
  from = λ t b c. elim c [
    | inl o ↦ elim o [ inl i ↦ inl (g t b (inl i)) | inr r ↦ inr r ]
    | inr n ↦ inl (g t b (inr n))
  ];
}

-- The area behind the new one starts where the new one ends.
pub Added-after :
    (x : Info) (xs : List Info) (area : Info)
    → IsArea x
    → All IsArea xs
    → IsArea area
    → x.type ≡ area.type
    → pred_word x.start ≡ area.last
    → Added (x ∷ xs) (record x { start = area.start } ∷ xs) area
Added-after x xs area a rest n e p =
    Added-head x (record x { start = area.start }) xs area (omega arith) rest (λ t b i. omega arith)
      (λ t b i. omega arith)

pub Added-before :
    (x : Info) (xs : List Info) (area : Info)
    → IsArea x
    → All IsArea xs
    → IsArea area
    → x.type ≡ area.type
    → x.last ≡ pred_word area.start
    → Added (x ∷ xs) (record x { last = area.last } ∷ xs) area
Added-before x xs area a rest n e p =
    Added-head x (record x { last = area.last }) xs area (omega arith) rest (λ t b i. omega arith)
      (λ t b i. omega arith)

-- Two areas become one where the new one fills the gap between them.
pub Added-between :
    (x y : Info) (xs : List Info) (area : Info)
    → IsArea x
    → IsArea y
    → All IsArea xs
    → IsArea area
    → x.type ≡ area.type
    → y.type ≡ area.type
    → x.last ≡ pred_word area.start
    → pred_word y.start ≡ area.last
    → Added (x ∷ y ∷ xs) (record x { last = y.last } ∷ xs) area
Added-between x y xs area a b rest n e f p q = record {
  areas = (omega arith, rest);
  to = λ t i c. elim c [ inl z ↦ shared t i z | inr r ↦ inl (inr (inr r)) ];
  from = λ t i c. elim c [
    | inl o ↦ elim o [
      | inl z ↦ inl (omega arith)
      | inr r ↦ elim r [ inl z ↦ inl (omega arith) | inr s ↦ inr s ]
    ]
    | inr z ↦ inl (omega arith)
  ];
}
  where
    shared :
        (t i : ℕ)
        → IsIn (record x { last = y.last }) t i
        → (IsIn x t i ⊎ (IsIn y t i ⊎ IsCovered xs t i)) ⊎ IsIn area t i
    shared t i z = elim (dec_lt i area.start) [
      | yes l ↦ inl (inl (omega arith))
      | no g ↦ elim (dec_lt area.last i) [
        | yes l ↦ inl (inr (inl (omega arith)))
        | no h ↦ inr (omega arith)
      ]
    ]

pub Added-append :
    (xs : List Info) (area : Info) → All IsArea xs → IsArea area → Added xs (xs ++ area ∷ []) area
Added-append [] area a n = record {
  areas = (n, tt);
  to = λ t b c. elim c [ inl i ↦ inr i | inr e ↦ absurd e ];
  from = λ t b c. elim c [ inl e ↦ absurd e | inr i ↦ inl i ];
}
Added-append (x ∷ xs) area a n =
    Added-cons x xs (xs ++ area ∷ []) area a.0 (Added-append xs area a.1 n)
