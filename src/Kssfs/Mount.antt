-- ===== src/Kssfs/Mount.antt =====
-- kssfs_init, and kssfs_write_cluster against kssfs_read_cluster.
use korolev.Prelude.{
  ℕ, zero, suc, ◌+◌, ◌*◌, ◌/◌, ◌%◌, ◌^◌, ◌≤◌, ◌<◌, ◌≡◌, ◌≢◌, refl, ap, ◌∙◌, ◌⊎◌, inl, inr, Bool,
  true, false, ◌&&◌, not, arith, ltb, ◌==◌, if◌then◌else◌, Bool-cases,
}
use mathlib.Core.Path.{fun_ext}
use native.Mathlib.Decide.{ℕ_discrete, dec_lt}
use korolev.Mem.{Mem, within}
use korolev.Libc.{kmemset}
use korolev.Libc.Copy.{kmemset_lem}
use korolev.Kfs2.{Disk, clstr_lba, cluster_loop, read_sector}
use korolev.Kssfs.{
  Kssfs, kssfs_signature, kssfs_fn_cache, kssfs_init, kssfs_read_cluster, write_sector,
  write_sectors, kssfs_write_cluster, kssfs_avail,
}
use korolev.Kssfs.Cache.{IsCached, empty, cluster_loop-loaded}

-- A number of 32 bits in a sector of the disk.
abbrev pub disk_long : Disk → (lba byte : ℕ) → ℕ
disk_long disk lba b =
    disk.sector lba b
    + 2 ^ 8 * disk.sector lba (b + 1)
    + 2 ^ 16 * disk.sector lba (b + 2)
    + 2 ^ 24 * disk.sector lba (b + 3)

-- A file system can be set up: there is none yet, and its header is readable and has the signature.
abbrev pub can_mount : Disk → ℕ → Kssfs → Bool
can_mount disk lba k =
    k.lba == 0 && not (disk.broken lba) && (disk_long disk lba 0 == kssfs_signature)

-- kssfs_init returns 1 exactly when no file system is set up and the header can be read and has the
-- signature: then the file system starts at the sector given, has the number of clusters from the
-- header, and counts no cluster as being in the buffer. Otherwise it returns 0, and what kssfs_avail
-- answers stays as it was.
pub kssfs_init_lem :
    (disk : Disk) (lba : ℕ) (k : Kssfs)
    → let (r, k') = kssfs_init disk lba k in
      ((can_mount disk lba k ≡ true)
        × (r ≡ 1)
        × (kssfs_avail k' ≡ lba)
        × (k'.cluster_n ≡ disk_long disk lba 4)
        × IsCached disk k')
      ⊎ ((can_mount disk lba k ≡ false) × (r ≡ 0) × (kssfs_avail k' ≡ kssfs_avail k))
unfolding kssfs_init kssfs_avail read_sector
kssfs_init_lem disk lba k = elim (Bool-cases (k.lba == 0)) [
  | inr on ↦ rw on (inr (refl, refl, refl))
  | inl off ↦
      let zero_lba : 0 ≡ k.lba = ground arith in
      elim (Bool-cases (disk.broken lba)) [
        | inl bad ↦ rw (off, bad) (inr (refl, refl, zero_lba))
        | inr good ↦ elim (Bool-cases (disk_long disk lba 0 == kssfs_signature)) [
          | inl match ↦ rw (off, good, match) (inl (refl, refl, refl, refl, empty refl))
          | inr other ↦ rw (off, good, other) (inr (refl, refl, zero_lba))
        ]
      ]
]

module _ (m : Mem) (disk : Disk) (sound : (lba : ℕ) → disk.broken lba ≡ false) where
  same_sector :
      (startc i j : ℕ)
      → i < 16
      → j < 16
      → ((startc + j) % 2 ^ 32 == (startc + i) % 2 ^ 32) ≡ (j == i)
  same_sector startc i j hi hj = elim (ℕ_discrete j i) [
    | yes e ↦ rw e (ground arith)
    | no ne ↦ let d : (startc + j) % 2 ^ 32 ≢ (startc + i) % 2 ^ 32 = omega arith in ground arith
  ]

  write_sectors-broken :
      (n startc i buf : ℕ) (d : Disk)
      → ((lba : ℕ) → d.broken lba ≡ false)
      → (lba : ℕ) → (write_sectors n startc i buf m d).broken lba ≡ false
  unfolding write_sectors write_sector
  write_sectors-broken zero startc i buf d ok = ok
  write_sectors-broken (suc n) startc i buf d ok =
      write_sectors-broken n startc (i + 1) buf _ (rw (ok ((startc + i) % 2 ^ 32)) ok)

  write_sectors-sector :
      (n startc i buf : ℕ) (d : Disk)
      → ((lba : ℕ) → d.broken lba ≡ false)
      → (j b : ℕ) → i + n ≤ 16
      → j < 16
      → (write_sectors n startc i buf m d).sector ((startc + j) % 2 ^ 32) b
        ≡ (if within i n j then m (buf + j * 512 + b) else d.sector ((startc + j) % 2 ^ 32) b)
  unfolding write_sectors write_sector
  write_sectors-sector zero startc i buf d ok j b hi hj = ground arith
  write_sectors-sector (suc n) startc i buf d ok j b hi hj =
      let s = (startc + i) % 2 ^ 32 in
      let next =
        write_sectors-sector n startc (i + 1) buf (write_sector d s (buf + i * 512) m)
          (unfold write_sector in rw (ok s) ok) j b (omega arith) hj in
      elim (ℕ_discrete j i) [
        | yes e ↦ next ∙ rw (ok s, same_sector startc i j (omega arith) hj, e) (ground arith)
        | no ne ↦
            let off : (j == i) ≡ false = ground arith in
            next ∙ rw (ok s, same_sector startc i j (omega arith) hj, off) (ground arith)
      ]

  written-loaded :
      (lba n buf : ℕ)
      → cluster_loop (write_sectors 16 (clstr_lba lba n) 0 buf m disk) 16 (clstr_lba lba n) 0 m
        ≡ (λ p. if ltb p 8192 then m (buf + p) else m p)
  written-loaded lba n buf =
      let disk' = write_sectors 16 (clstr_lba lba n) 0 buf m disk in
      let sound' = write_sectors-broken 16 (clstr_lba lba n) 0 buf disk sound in
      cluster_loop-loaded disk' sound' lba n m
      ∙ fun_ext (λ p. elim (dec_lt p 8192) [
        | yes low ↦
            let q : p / 512 < 16 = omega arith in
            let e : buf + p / 512 * 512 + p % 512 ≡ buf + p = omega arith in
            let byte =
              write_sectors-sector 16 (clstr_lba lba n) 0 buf disk sound (p / 512) (p % 512)
                (omega arith) q in
            let at_p = ap m e in ground arith
        | no high ↦ ground arith
      ])

-- On a disk that can be written, with a file system that is set up, kssfs_read_cluster gives back
-- what kssfs_write_cluster wrote to a cluster, if that cluster is not the one in the buffer; if it is,
-- the buffer keeps the contents from before the write.
pub kssfs_write_cluster_lem :
    (disk : Disk) (n buf : ℕ) (k : Kssfs)
    → ((lba : ℕ) → disk.broken lba ≡ false)
    → k.lba ≢ 0
    → n ≤ k.cluster_n
    → (kssfs_read_cluster (kssfs_write_cluster n buf k disk) n k).mem
      ≡ (if n == k.clstr_index then k.mem else λ p. if ltb p 8192 then k.mem (buf + p) else k.mem p)
unfolding kssfs_write_cluster kssfs_read_cluster
kssfs_write_cluster_lem disk n buf k sound on inside =
    let on' : (k.lba == 0) ≡ false = ground arith in
    let inside' : ltb (k.cluster_n) n ≡ false = ground arith in
    elim (Bool-cases (n == k.clstr_index)) [
      | inl hit ↦ rw (on', inside', hit) refl
      | inr miss ↦ rw (on', inside', miss) (written-loaded (k.mem) disk sound (k.lba) n buf)
    ]

-- Behind the cluster in the buffer, kssfs_init changes nothing when the cache of names is empty.
pub kssfs_init-mem :
    (disk : Disk) (lba : ℕ) (k : Kssfs) (p : ℕ)
    → 8192 ≤ p
    → (within kssfs_fn_cache 8320 p ≡ true → k.mem p ≡ 0)
    → (kssfs_init disk lba k).1.mem p ≡ k.mem p
unfolding kssfs_init read_sector
kssfs_init-mem disk lba k p high clear =
    let cache = (kmemset_lem kssfs_fn_cache 0 (32 * 260) (read_sector disk lba 0 (k.mem)).1).1 p in
    let buffer =
      (kmemset_lem 0 0 8192
          (kmemset kssfs_fn_cache 0 (32 * 260) (read_sector disk lba 0 (k.mem)).1).1).1
        p in
    ground (arith, cache, buffer, clear)
