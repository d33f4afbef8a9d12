-- ===== src/FatTable/Roundtrip.antt =====
-- kernel/fs/fat/utils.c: `get_fat_entry_value` after `fs_modify_fat`.
use huge_pie.FatTable.{
  FatInfo, Table, get_u32, bytes, modify_entry, read_fat_sector, get_fat_entry_value, fs_modify_fat,
  cluster_to_fat_entry,
}
use huge_pie.FatTable.Entries.{
  Held, Reads, read_fat_sector-Reads, modify_entry-Changed, find-set_same,
}
use huge_pie.Fscache.{Buffer, invalid, set_reference, find}
use huge_pie.Base.{
  ℕ, ◌%◌, ◌^◌, ◌<◌, inl, inr, ◌≡◌, refl, sym, ap, ◌∙◌, subst, Option, none, some, some-injective,
  get_elem?, set, length, Bool, ◌==◌, if◌then◌else◌, ◌>>=◌, arith, Returns-result, true, false,
  Option-cases, get_elem?-lt, get_elem?-set_self, ne→==,
}

-- A sector that a buffer holds.
read_hit :
    (fat : FatInfo) (t : Table) (sector index : ℕ) (b : Buffer)
    → find t.fat_buf sector ≡ index
    → get_elem? t.fat_buf index ≡ some b
    → read_fat_sector fat t sector
      ≡ some (
        index,
        record t { fat_buf = set t.fat_buf index (record b { state = set_reference b.state }) },
      )
unfolding read_fat_sector
read_hit fat t sector index b f g =
    let lt = get_elem?-lt t.fat_buf index g in
    let ne : (index == length t.fat_buf) ≡ false = ne→== _ _ (omega arith) in rw (f, ne, g) refl

get_hit :
    (fat : FatInfo) (t : Table) (clus index value : ℕ) (b : Buffer)
    → find t.fat_buf (cluster_to_fat_entry fat clus).0 ≡ index
    → get_elem? t.fat_buf index ≡ some b
    → (index == invalid) ≡ false
    → get_u32 (bytes b.buf) (cluster_to_fat_entry fat clus).1 ≡ some value
    → (t' : Table) × (get_fat_entry_value fat t clus ≡ some (some (value % 2 ^ 28), t'))
unfolding get_fat_entry_value
get_hit fat t clus index value b f g ok u =
    let b' : Buffer = record b { state = set_reference b.state } in
    let s = get_elem?-set_self t.fat_buf index b' (get_elem?-lt t.fat_buf index g) in
    let h = read_hit fat t (cluster_to_fat_entry fat clus).0 index b f g in
    (record t { fat_buf = set t.fat_buf index b' }, rw (h, ok, s, u) refl)

-- What `fs_modify_fat` does with the buffer that was read.
abbrev change : ℕ → ℕ → ℕ × Table → Option (ℕ × Table)
change offset value r = do
  b ← get_elem? r.1.fat_buf r.0
  b' ← modify_entry b offset value
  some (0, record r.1 { fat_buf = set r.1.fat_buf r.0 b' })

modify_entry-none :
    (b : Buffer) (offset value : ℕ)
    → get_u32 (bytes b.buf) offset ≡ none
    → modify_entry b offset value ≡ none
unfolding modify_entry
modify_entry-none b offset value e = rw e refl

changed_hit :
    (fat : FatInfo) (clus value : ℕ) (r : ℕ × Table) (t' : Table)
    → Held (cluster_to_fat_entry fat clus).0 r.0 r.1
    → (r.0 == invalid) ≡ false
    → change (cluster_to_fat_entry fat clus).1 value r ≡ some (0, t')
    → (t'' : Table) × (get_fat_entry_value fat t' clus ≡ some (some (value % 2 ^ 28), t''))
changed_hit fat clus value r t' h ok e =
    elim (Option-cases (get_u32 (bytes h.b.buf) (cluster_to_fat_entry fat clus).1)) [
      | inl missing ↦
          let m = modify_entry-none h.b (cluster_to_fat_entry fat clus).1 value missing in
          let bad : change (cluster_to_fat_entry fat clus).1 value r ≡ none = rw (h.at, m) refl in
          let clash : none ≡ some (0, t') = sym bad ∙ e in absurd cc
      | inr (old, g) ↦
          let (b', m, c) =
            Returns-result
              (modify_entry-Changed h.b (cluster_to_fat_entry fat clus).1 value old g) in
          let done : change (cluster_to_fat_entry fat clus).1 value r
              ≡ some (0, record r.1 { fat_buf = set r.1.fat_buf r.0 b' }) =
            rw (h.at, m) refl in
          let same : record r.1 { fat_buf = set r.1.fat_buf r.0 b' } ≡ t' =
            ap (λ (p : ℕ × Table). p.1) (some-injective _ _ (sym done ∙ e)) in
          let f =
            find-set_same r.1.fat_buf r.0 (cluster_to_fat_entry fat clus).0 h.b b' h.at c.same_cur
            ∙ h.found in
          let s = get_elem?-set_self r.1.fat_buf r.0 b' (get_elem?-lt r.1.fat_buf r.0 h.at) in
          let (t'', q) =
            get_hit fat (record r.1 { fat_buf = set r.1.fat_buf r.0 b' }) clus r.0 c.entry b' f s ok
              c.reads in
          (
            t'',
            subst (λ z. get_fat_entry_value fat z clus ≡ some (some (value % 2 ^ 28), t'')) same
                (q ∙ ap (λ n. some (some n, t'')) c.low),
          )
    ]

-- After `fs_modify_fat` has returned 0, `get_fat_entry_value` of the same cluster ends without a fault and
-- gives the lower 28 bits of the value, if the clock is inside the array of buffers.
pub fs_modify_fat-get_fat_entry_value :
    (fat : FatInfo) (t : Table) (clus value : ℕ) (t' : Table)
    → t.fat_clock_head < length t.fat_buf
    → fs_modify_fat fat t clus value ≡ some (0, t')
    → (t'' : Table) × (get_fat_entry_value fat t' clus ≡ some (some (value % 2 ^ 28), t''))
unfolding fs_modify_fat
fs_modify_fat-get_fat_entry_value fat t clus value t' clock e =
    let offset = (cluster_to_fat_entry fat clus).1 in
    let (r, q, h) =
      Returns-result (read_fat_sector-Reads fat t (cluster_to_fat_entry fat clus).0 clock) in
    let e' : (if r.0 == invalid then some (1, r.1) else change offset value r) ≡ some (0, t') =
      sym (
        ap
          (λ m. m >>= (λ (p : ℕ × Table).
            if p.0 == invalid then some (1, p.1) else change offset value p))
          q)
      ∙ e in
    go (r.0 == invalid) r refl h e'
  where
    go :
        (c : Bool) (r : ℕ × Table)
        → (r.0 == invalid) ≡ c
        → Reads (cluster_to_fat_entry fat clus).0 r
        → (if c then some (1, r.1) else change (cluster_to_fat_entry fat clus).1 value r)
          ≡ some (0, t')
        → (t'' : Table) × (get_fat_entry_value fat t' clus ≡ some (some (value % 2 ^ 28), t''))
    go true r ok h e =
        absurd (let z : 1 ≡ 0 = ap (λ (p : ℕ × Table). p.0) (some-injective _ _ e) in omega arith)
    go false r ok h e = changed_hit fat clus value r t' (h ok) ok e
