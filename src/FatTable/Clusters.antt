-- ===== src/FatTable/Clusters.antt =====
-- kernel/fs/fat/utils.c: the numbers of clusters and sectors.
use huge_pie.FatTable.{
  FatInfo, wa_loop, fs_wa, cluster_to_fat_entry, fs_dataclus2sec, fs_sec2dataclus,
}
use huge_pie.Base.{
  pow_pos, mul-div_cancel, ℕ, zero, suc, ◌+◌, ◌-◌, ◌*◌, ◌/◌, ◌%◌, ◌^◌, ◌≤◌, ◌<◌, ◌≡◌, ap, ◌∙◌, ltb,
  arith, true,
}

wa_loop_pow : (k n i : ℕ) → k < n → wa_loop n (2 ^ k) i ≡ i + k
unfolding wa_loop
wa_loop_pow zero zero i h = absurd (omega arith)
wa_loop_pow zero (suc n) i h = omega arith
wa_loop_pow (suc k) zero i h = absurd (omega arith)
wa_loop_pow (suc k) (suc n) i h =
    let pos = pow_pos k in
    let t : ltb 1 (2 ^ suc k) ≡ true = ground arith in
    let e : 2 ^ suc k / 2 ≡ 2 ^ k = omega arith in
    rw (t, e) (wa_loop_pow k n (i + 1) (omega arith) ∙ omega arith)

fs_wa_pow : (k : ℕ) → k < 32 → fs_wa (2 ^ k) ≡ k
unfolding fs_wa
fs_wa_pow k h = wa_loop_pow k 32 0 h ∙ omega arith

-- The entries of two clusters are in different places, as long as the table is within the first 2^32
-- sectors and the numbers are below 2^30; an entry lies inside its sector.
pub cluster_to_fat_entry_injective :
    (fat : FatInfo) (a b : ℕ)
    → a < 2 ^ 30
    → b < 2 ^ 30
    → fat.reserved_sectors + fat.base_addr + 2 ^ 23 ≤ 2 ^ 32
    → cluster_to_fat_entry fat a ≡ cluster_to_fat_entry fat b
    → a ≡ b
unfolding cluster_to_fat_entry
cluster_to_fat_entry_injective fat a b la lb room e =
    let s = ap (λ (p : ℕ × ℕ). p.0) e in let o = ap (λ (p : ℕ × ℕ). p.1) e in omega arith

-- Fs_sec2dataclus inverts fs_dataclus2sec for a cluster number from 2 to 2^32 - 1 and a number of
-- sectors per cluster that is a power of two below 2^32, if the sector of the cluster, (clus - 2)
-- times that number plus first_data_sector, is below 2^32.
pub fs_dataclus2sec-fs_sec2dataclus :
    (fat : FatInfo) (k clus : ℕ)
    → k < 32
    → fat.sectors_per_cluster ≡ 2 ^ k
    → 2 ≤ clus
    → clus < 2 ^ 32
    → (clus - 2) * 2 ^ k + fat.first_data_sector < 2 ^ 32
    → fs_sec2dataclus fat (fs_dataclus2sec fat clus) ≡ clus
unfolding fs_dataclus2sec fs_sec2dataclus
fs_dataclus2sec-fs_sec2dataclus fat k clus lt spc ge word small =
    let w : fs_wa fat.sectors_per_cluster ≡ k = ap fs_wa spc ∙ fs_wa_pow k lt in
    let a : (clus + (2 ^ 32 - 2)) % 2 ^ 32 ≡ clus - 2 = omega arith in
    let n = (clus - 2) * 2 ^ k in
    let b : (n % 2 ^ 32 + fat.first_data_sector) % 2 ^ 32 ≡ n + fat.first_data_sector =
      omega arith in
    let c : (n + fat.first_data_sector + 2 ^ 32 - fat.first_data_sector) % 2 ^ 32 ≡ n =
      omega arith in
    let d : n / 2 ^ k ≡ clus - 2 = mul-div_cancel (clus - 2) (pow_pos k) in
    rw (w, a, b, c, d) (omega arith)
