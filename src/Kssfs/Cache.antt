-- ===== src/Kssfs/Cache.antt =====
-- The cluster in kssfs_buf.
use korolev.Prelude.{
  ℕ, ◌+◌, ◌*◌, ◌/◌, ◌%◌, ◌^◌, ◌≤◌, ◌<◌, ◌≡◌, ◌≢◌, refl, ◌∙◌, true, false, arith, ltb, ◌==◌,
  if◌then◌else◌,
}
use mathlib.Core.Path.{fun_ext}
use native.Mathlib.Decide.{ℕ_discrete, dec_lt}
use korolev.Mem.{Mem}
use korolev.Kfs2.{Disk, clstr_lba, cluster_loop}
use korolev.Kfs2.Cache.{cluster_loop-byte, cluster_loop-above}
use korolev.Kssfs.{Kssfs, kssfs_read_cluster}

-- The memory with the cluster `n` of the disk in the buffer.
abbrev pub loaded : Disk → (lba n : ℕ) → Mem → Mem
loaded disk lba n m p =
    if ltb p 8192 then disk.sector ((clstr_lba lba n + p / 512) % 2 ^ 32) (p % 512) else m p

-- A cluster read replaces the one read before.
pub loaded-loaded :
    (disk : Disk) (lba n l : ℕ) (m : Mem)
    → loaded disk lba n (loaded disk lba l m) ≡ loaded disk lba n m
loaded-loaded disk lba n l m = fun_ext (λ p. ground arith)

-- What the index of the cluster in the buffer promises.
pub data IsCached (disk : Disk) (k : Kssfs) : Type 0 where
  empty : k.clstr_index ≡ 0xffffffff → IsCached disk k
  holds : loaded disk (k.lba) (k.clstr_index) (k.mem) ≡ k.mem → IsCached disk k

module _ (disk : Disk) (sound : (lba : ℕ) → disk.broken lba ≡ false) where
  pub cluster_loop-loaded :
      (lba n : ℕ) (m : Mem) → cluster_loop disk 16 (clstr_lba lba n) 0 m ≡ loaded disk lba n m
  cluster_loop-loaded lba n m = fun_ext (λ p. elim (dec_lt p 8192) [
    | yes low ↦
        let e : 512 * (p / 512) + p % 512 ≡ p = omega arith in
        let q : p % 512 < 512 = omega arith in
        let byte = cluster_loop-byte disk sound 16 (clstr_lba lba n) 0 m (p / 512) (p % 512) q in
        let byte' = rw e at byte in byte' ∙ ground arith
    | no high ↦
        cluster_loop-above disk sound 16 (clstr_lba lba n) 0 m p (omega arith) ∙ ground arith
  ])

  -- kssfs_read_cluster leaves the memory with the cluster asked for.
  pub kssfs_read_cluster_lem :
      (n : ℕ) (k : Kssfs)
      → IsCached disk k
      → k.lba ≢ 0
      → n ≤ k.cluster_n
      → n ≢ 0xffffffff
      → kssfs_read_cluster disk n k
        ≡ record k { mem = loaded disk (k.lba) n (k.mem); clstr_index = n }
  unfolding kssfs_read_cluster
  kssfs_read_cluster_lem n k c on inside real =
      let on' : (k.lba == 0) ≡ false = ground arith in
      let inside' : ltb (k.cluster_n) n ≡ false = ground arith in
      elim (ℕ_discrete n (k.clstr_index)) [
        | yes e ↦
            let hit : (n == k.clstr_index) ≡ true = ground arith in
            let held : loaded disk (k.lba) n (k.mem) ≡ k.mem = elim c [
              | empty none ↦ absurd (real (e ∙ none))
              | holds h ↦ rw e h
            ] in
            rw (on', inside', hit, held, e) refl
        | no ne ↦
            let miss : (n == k.clstr_index) ≡ false = ground arith in
            rw (on', inside', miss, cluster_loop-loaded (k.lba) n (k.mem)) refl
      ]
