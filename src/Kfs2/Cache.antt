-- ===== src/Kfs2/Cache.antt =====
-- The cluster in the buffer.
use korolev.Prelude.{
  ℕ, zero, suc, ◌+◌, ◌*◌, ◌-◌, ◌%◌, ◌^◌, ◌≤◌, ◌<◌, ◌≡◌, ◌≢◌, refl, sym, ◌∙◌, ◌⊎◌, inl, inr, true,
  false, arith, ltb, ◌==◌, if◌then◌else◌,
}
use native.Mathlib.Decide.{ℕ_discrete}
use korolev.Mem.{Mem, within}
use korolev.Kfs2.{Disk, read_sector, Kfs2, clstr_lba, cluster_loop, kfs2_read_cluster}

module _ (disk : Disk) (sound : (lba : ℕ) → disk.broken lba ≡ false) where
  -- The buffer holds the 16 sectors of a cluster.
  pub record Holds (lba n : ℕ) (buf : Mem) : Type 0 where
    pub byte :
        (i b : ℕ)
        → i < 16
        → b < 512
        → buf (512 * i + b) ≡ disk.sector ((clstr_lba lba n + i) % 2 ^ 32) b

  pub cluster_loop-byte :
      (n startc i : ℕ) (buf : Mem) (j b : ℕ)
      → b < 512
      → cluster_loop disk n startc i buf (512 * j + b)
        ≡ (if within i n j then disk.sector ((startc + j) % 2 ^ 32) b else buf (512 * j + b))
  unfolding cluster_loop read_sector
  cluster_loop-byte zero startc i buf j b h = ground arith
  cluster_loop-byte (suc n) startc i buf j b h = rw (sound ((startc + i) % 2 ^ 32)) (
      cluster_loop-byte n startc (i + 1) _ j b h ∙ elim (ℕ_discrete j i) [
        | yes e ↦ let d : 512 * i + b - 512 * i ≡ b = omega arith in rw (e, d) (ground arith)
        | no ne ↦
            let off : within (512 * i) 512 (512 * j + b) ≡ false = ground arith in
            rw off (ground arith)
      ])

  -- Behind the sectors nothing changes.
  pub cluster_loop-above :
      (n startc i : ℕ) (buf : Mem) (p : ℕ)
      → 512 * (i + n) ≤ p
      → cluster_loop disk n startc i buf p ≡ buf p
  unfolding cluster_loop read_sector
  cluster_loop-above zero startc i buf p h = refl
  cluster_loop-above (suc n) startc i buf p h =
      let off : within (512 * i) 512 p ≡ false = ground arith in
      rw (sound ((startc + i) % 2 ^ 32))
        (cluster_loop-above n startc (i + 1) _ p (omega arith) ∙ rw off refl)

  -- What the index of the cluster in the buffer promises.
  pub record IsCached (k : Kfs2) : Type 0 where
    pub cached : (k.cluster_index ≡ 0xffffffff) ⊎ Holds (k.lba) (k.cluster_index) (k.buf)

  -- On a disk that can be read, and a file system that is set up, kfs2_read_cluster leaves the cluster
  -- asked for in the buffer, when its number is at most the number of the clusters, whether it reads it
  -- or finds it there from the call before; and it changes nothing but the buffer and its index.
  pub kfs2_read_cluster_lem :
      (n : ℕ) (k : Kfs2)
      → IsCached k
      → k.lba ≢ 0
      → n ≤ k.cluster_n
      → n ≢ 0xffffffff
      → let k' = kfs2_read_cluster disk n k in
        Holds (k.lba) n (k'.buf)
        × IsCached k'
        × (k'.cluster_index ≡ n)
        × (k'.lba ≡ k.lba)
        × (k'.cluster_n ≡ k.cluster_n)
        × (k'.handles ≡ k.handles)
  unfolding kfs2_read_cluster
  kfs2_read_cluster_lem n k c on inside real =
      let on' : (k.lba == 0) ≡ false = ground arith in
      let inside' : ltb (k.cluster_n) n ≡ false = ground arith in
      elim (ℕ_discrete n (k.cluster_index)) [
        | yes e ↦
            let hit : (n == k.cluster_index) ≡ true = ground arith in
            let held : Holds (k.lba) (k.cluster_index) (k.buf) = elim (c.cached) [
              | inl empty ↦ absurd (real (e ∙ empty))
              | inr holds ↦ holds
            ] in
            rw (on', inside', hit) (rw e held, c, sym e, refl, refl, refl)
        | no ne ↦
            let miss : (n == k.cluster_index) ≡ false = ground arith in
            let start = clstr_lba (k.lba) n in
            let holds : Holds (k.lba) n (cluster_loop disk 16 start 0 (k.buf)) = record {
              byte = λ i b hi hb. cluster_loop-byte 16 start 0 (k.buf) i b hb ∙ ground arith;
            } in
            rw (on', inside', miss) (holds, record { cached = inr holds }, refl, refl, refl, refl)
      ]
