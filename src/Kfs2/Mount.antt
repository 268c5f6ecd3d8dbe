-- ===== src/Kfs2/Mount.antt =====
-- kfs2_init.
use korolev.Prelude.{
  ℕ, ◌≡◌, refl, ◌⊎◌, inl, inr, Bool, true, false, ◌&&◌, not, arith, ◌==◌, Bool-cases, replicate,
}
use korolev.Kfs2.{Disk, Kfs2, closed, kfs2_signature, kfs2_max_files, kfs2_init, read_sector}
use korolev.Kssfs.Mount.{disk_long}

abbrev pub can_mount : Disk → ℕ → Kfs2 → Bool
can_mount disk lba k =
    k.lba == 0 && not (disk.broken lba) && (disk_long disk lba 0 == kfs2_signature)

-- kfs2_init returns 1 exactly when no file system is set up and the header can be read and has the
-- signature: then the file system starts at the sector given, has the number of clusters from the
-- header, no cluster in the buffer and no open file. Otherwise it returns 0, and leaves the file system
-- that was set up, or none.
pub kfs2_init_lem :
    (disk : Disk) (lba : ℕ) (k : Kfs2)
    → let (r, k') = kfs2_init disk lba k in
      ((can_mount disk lba k ≡ true)
        × (r ≡ 1)
        × (k'.lba ≡ lba)
        × (k'.cluster_n ≡ disk_long disk lba 4)
        × (k'.cluster_index ≡ 0xffffffff)
        × (k'.handles ≡ replicate kfs2_max_files closed))
      ⊎ ((can_mount disk lba k ≡ false) × (r ≡ 0) × (k'.lba ≡ k.lba))
unfolding kfs2_init read_sector
kfs2_init_lem disk lba k = elim (Bool-cases (k.lba == 0)) [
  | inr on ↦ rw on (inr (refl, refl, refl))
  | inl off ↦
      let zero_lba : 0 ≡ k.lba = ground arith in
      elim (Bool-cases (disk.broken lba)) [
        | inl bad ↦ rw (off, bad) (inr (refl, refl, zero_lba))
        | inr good ↦ elim (Bool-cases (disk_long disk lba 0 == kfs2_signature)) [
          | inl match ↦ rw (off, good, match) (inl (refl, refl, refl, refl, refl, refl))
          | inr other ↦ rw (off, good, other) (inr (refl, refl, zero_lba))
        ]
      ]
]
