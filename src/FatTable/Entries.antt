-- ===== src/FatTable/Entries.antt =====
-- kernel/fs/fat/utils.c: an entry of the file allocation table that is changed reads back.
use huge_pie.FatTable.{
  FatInfo, Table, get_u32, bytes, merged_entry, modify_entry, fill_fat, read_fat_sector,
  write_fat_sector,
}
use huge_pie.FatTable.Codec.{set_u32-get_u32}
use huge_pie.Sd.{Card, read_block}
use huge_pie.Fscache.{Buffer, invalid, set_reference, find}
use huge_pie.Fscache.Same.{AllSame, length-AllSame}
use huge_pie.Fscache.Victim.{victim-Chosen}
use huge_pie.Base.{
  ℕ, zero, suc, ◌+◌, ◌*◌, ◌%◌, ◌^◌, ◌≤◌, ◌<◌, inl, inr, ◌≡◌, refl, sym, ap, ◌∙◌, Option, none, some,
  some-injective, List, [], ◌∷◌, get_elem?, set, length, Bool, ◌==◌, if◌then◌else◌, ◌>>=◌, arith,
  Returns, returns, bind, true, false, Bool-cases, Option-cases, get_elem?-some, get_elem?-lt,
  get_elem?-set_self, ==→eq, ==→ne, ==_refl,
}

pub find-set_same :
    (bufs : List Buffer) (i sector : ℕ) (b b' : Buffer)
    → get_elem? bufs i ≡ some b
    → b'.cur ≡ b.cur
    → find (set bufs i b') sector ≡ find bufs sector
unfolding find
find-set_same [] i sector b b' g e = refl
find-set_same (x ∷ xs) zero sector b b' g e =
    let same : Buffer.cur b' ≡ Buffer.cur x = e ∙ sym (ap Buffer.cur (some-injective _ _ g)) in
    rw same refl
find-set_same (x ∷ xs) (suc i) sector b b' g e = rw (find-set_same xs i sector b b' g e) refl

find-AllSame :
    (bufs cs : List Buffer) (sector : ℕ) → AllSame bufs cs → find cs sector ≡ find bufs sector
unfolding find
find-AllSame [] [] sector s = refl
find-AllSame [] (c ∷ cs) sector s = absurd s
find-AllSame (b ∷ bs) [] sector s = absurd s
find-AllSame (b ∷ bs) (c ∷ cs) sector s = rw (s.0.cur, find-AllSame bs cs sector s.1) refl

if_miss : (c : Bool) (n m : ℕ) → (if c then 0 else suc n) ≡ suc m → (c ≡ false) × (n ≡ m)
if_miss true n m e = absurd (omega arith)
if_miss false n m e = (refl, omega arith)

-- The buffer that is filled is found, if no other one held the sector.
find-set_new :
    (bufs : List Buffer) (i sector : ℕ) (b : Buffer)
    → find bufs sector ≡ length bufs
    → i < length bufs
    → b.cur ≡ sector
    → find (set bufs i b) sector ≡ i
unfolding find
find-set_new [] i sector b n h e = absurd (omega arith)
find-set_new (x ∷ xs) zero sector b n h e =
    let t : (b.cur == sector) ≡ true = rw e (==_refl sector) in rw t refl
find-set_new (x ∷ xs) (suc i) sector b n h e =
    let (other, later) = if_miss (x.cur == sector) (find xs sector) (length xs) n in
    rw other (ap suc (find-set_new xs i sector b later (omega arith) e))

-- The buffer at the index holds the sector and is the one that is found.
pub record Held (sector index : ℕ) (t : Table) : Type 0 where
  pub b : Buffer
  pub at : get_elem? t.fat_buf index ≡ some b
  pub holds : b.cur ≡ sector
  pub found : find t.fat_buf sector ≡ index

-- What `read_fat_sector` returns, unless it fails.
abbrev pub Reads : ℕ → ℕ × Table → Type 0
Reads sector r = (r.0 == invalid) ≡ false → Held sector r.0 r.1

fill_fat-Reads :
    (fat : FatInfo) (sector : ℕ) (bufs : List Buffer) (index : ℕ) (b : Buffer) (clock : ℕ)
    (card : Card)
    → find bufs sector ≡ length bufs
    → index < length bufs
    → Reads sector (fill_fat fat sector bufs index b clock card)
unfolding fill_fat
fill_fat-Reads fat sector bufs index b clock card miss lt =
    let w = write_fat_sector fat b card in
    let r = read_block w.1.buf sector w.2 in
    let b' : Buffer = record { buf = r.1; cur = sector; state = 1 } in
    elim (Bool-cases (w.0 == 1)) [
      | inl bad ↦ rw bad (λ n. absurd cc)
      | inr ok ↦ elim (Bool-cases (r.0 == 1)) [
        | inl bad ↦ rw (ok, bad) (λ n. absurd cc)
        | inr fine ↦
            rw (ok, fine)
              (λ n. record {
                b = b';
                at = get_elem?-set_self bufs index b' lt;
                holds = refl;
                found = find-set_new bufs index sector b' miss lt refl;
              })
      ]
    ]

find-cur :
    (bufs : List Buffer) (sector : ℕ) (b : Buffer)
    → get_elem? bufs (find bufs sector) ≡ some b
    → b.cur ≡ sector
unfolding find
find-cur [] sector b g = absurd cc
find-cur (x ∷ xs) sector b g = go (x.cur == sector) refl (find-cur xs sector b) g
  where
    go :
        (c : Bool)
        → (x.cur == sector) ≡ c
        → (get_elem? xs (find xs sector) ≡ some b → b.cur ≡ sector)
        → get_elem? (x ∷ xs) (if c then 0 else suc (find xs sector)) ≡ some b
        → b.cur ≡ sector
    go true e later g = sym (ap Buffer.cur (some-injective _ _ g)) ∙ ==→eq _ _ e
    go false e later g = later g

find-le : (bufs : List Buffer) (sector : ℕ) → find bufs sector ≤ length bufs
unfolding find
find-le [] sector = omega arith
find-le (x ∷ xs) sector = elim (Bool-cases (x.cur == sector)) [
  | inl here ↦ rw here (omega arith)
  | inr other ↦ rw other (omega (arith, find-le xs sector))
]

pub read_fat_sector-Reads :
    (fat : FatInfo) (t : Table) (sector : ℕ)
    → t.fat_clock_head < length t.fat_buf
    → Returns (Reads sector) (read_fat_sector fat t sector)
unfolding read_fat_sector
read_fat_sector-Reads fat t sector clock =
    elim (Bool-cases (find t.fat_buf sector == length t.fat_buf)) [
      | inl miss ↦ rw miss (
          bind (victim-Chosen t.fat_buf (length t.fat_buf) t.fat_clock_head refl clock) (λ r c.
            let l = length-AllSame t.fat_buf r.1 c.same in
            let (b, g) = get_elem?-some r.1 r.0 (let i = c.inside in omega arith) in
            rw g (
              returns (
                fill_fat-Reads fat sector r.1 r.0 b r.2 t.card
                  (find-AllSame t.fat_buf r.1 sector c.same ∙ ==→eq _ _ miss ∙ sym l)
                  (let i = c.inside in omega arith)))))
      | inr hit ↦
          let ne = ==→ne _ _ hit in
          let le = find-le t.fat_buf sector in
          let lt : find t.fat_buf sector < length t.fat_buf = omega arith in
          let (b, g) = get_elem?-some t.fat_buf (find t.fat_buf sector) lt in
          let b' : Buffer = record b { state = set_reference b.state } in
          rw (hit, g)
            (returns (λ n. record {
              b = b';
              at = get_elem?-set_self t.fat_buf (find t.fat_buf sector) b' lt;
              holds = find-cur t.fat_buf sector b g;
              found = find-set_same t.fat_buf (find t.fat_buf sector) sector b b' g refl;
            }))
    ]

get_u32-lt : (ch : List ℕ) (i : ℕ) {v : ℕ} → get_u32 ch i ≡ some v → i + 3 < length ch
unfolding get_u32
get_u32-lt ch i {v} e = elim (Option-cases (get_elem? ch (i + 3))) [
  | inr (d, g) ↦ get_elem?-lt ch (i + 3) g
  | inl missing ↦
      go (get_elem? ch i) (get_elem? ch (i + 1)) (get_elem? ch (i + 2)) (get_elem? ch (i + 3))
        missing e
]
  where
    go :
        (a b c d : Option ℕ)
        → d ≡ none
        → (do x ← a; y ← b; z ← c; w ← d; some (x + y * 2 ^ 8 + z * 2 ^ 16 + w * 2 ^ 24)) ≡ some v
        → i + 3 < length ch
    go none b c d m e = absurd cc
    go (some x) none c d m e = absurd cc
    go (some x) (some y) none d m e = absurd cc
    go (some x) (some y) (some z) none m e = absurd cc
    go (some x) (some y) (some z) (some w) m e = absurd cc

-- What the change of an entry leaves in the buffer.
pub record Changed (b : Buffer) (offset value : ℕ) (b' : Buffer) : Type 0 where
  pub same_cur : b'.cur ≡ b.cur
  pub entry : ℕ
  pub reads : get_u32 (bytes b'.buf) offset ≡ some entry
  pub low : entry % 2 ^ 28 ≡ value % 2 ^ 28

pub modify_entry-Changed :
    (b : Buffer) (offset value : ℕ) (old : ℕ)
    → get_u32 (bytes b.buf) offset ≡ some old
    → Returns (Changed b offset value) (modify_entry b offset value)
unfolding modify_entry
modify_entry-Changed b offset value old g =
    let lt = get_u32-lt (bytes b.buf) offset g in
    rw g (
      bind (set_u32-get_u32 (bytes b.buf) offset (merged_entry old value) lt) (λ ch s.
        returns (record {
          same_cur = refl;
          entry = merged_entry old value % 2 ^ 32;
          reads = s.reads;
          low = omega arith;
        })))
