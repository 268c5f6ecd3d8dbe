-- ===== src/Fuse/Kernel.antt =====
-- The kernel reads what the tool has written.
use korolev.Prelude.{
  ℕ, ◌+◌, ◌-◌, ◌*◌, ◌^◌, ◌≤◌, ◌<◌, ◌≡◌, ◌≢◌, refl, ap, sym, ◌∙◌, true, false, ltb, arith,
}
use korolev.Mem.{Mem, within}
use korolev.Libc.{strncmp}
use korolev.Kfs2.{Disk}
use korolev.Kssfs.{Kssfs, word_at, kssfs_read_file}
use korolev.Kssfs.Cache.{IsCached}
use korolev.Fuse.{Image, Tool, Reply, done, kssfs_write}
use korolev.Fuse.Clusters.{IsWhole, loaded, with_cluster}
use korolev.Fuse.Contents.{written, write-written}
use korolev.Format.Boot.{HoldsImage, shown, found-shown}

-- A cluster just written, as the kernel sees it.
shown-with_cluster :
    (img : Image) (i : ℕ) (m w : Mem) (p : ℕ) → p < 8192 → shown (with_cluster img i w) m i p ≡ w p
shown-with_cluster img i m w p low =
    let on : ltb p 8192 ≡ true = ground arith in
    let there : within (512 + i * 8192) 8192 (512 + 8192 * i + p) ≡ true = grind arith in
    let place : 512 + 8192 * i + p - (512 + i * 8192) ≡ p = omega arith in
    rw (on, there, place) refl

module _ (src size offset : ℕ) (l : Mem) (inside : offset + size ≤ 7680) where
  written-length : word_at (written src size offset l) 4 ≡ offset + size
  written-length =
      let four : within (512 + offset) size 4 ≡ false = grind arith in
      let five : within (512 + offset) size 5 ≡ false = grind arith in
      rw (four, five) (omega (arith, inside))

  written-data : (p : ℕ) → p < size → written src size offset l (512 + (offset + p)) ≡ l (src + p)
  written-data p lt =
      let there : within (512 + offset) size (512 + (offset + p)) ≡ true = grind arith in
      let place : 512 + (offset + p) - (512 + offset) ≡ p = omega arith in rw (there, place) refl

-- On an image that holds all its clusters, kssfs_write takes all the bytes of a range that ends inside the data of a
-- cluster, from a source outside the buffer. When a disk that can be read then holds the image, from a
-- sector that is not 0 on, the kernel has mounted it, with as many clusters and no false cluster in its
-- buffer, and the cluster is the first whose name compares equal, kssfs_read_file
-- returns 1 and leaves the bytes at the same offset of its destination, which is to be behind what the buffer and a
-- length can reach.
pub kssfs_read_file-kssfs_write :
    (src size offset fh : ℕ) (t : Tool) (disk : Disk) (lba dest filename : ℕ) (k : Kssfs)
    {img : Image}
    → offset + size ≤ 7680
    → 8192 ≤ src
    → IsWhole t
    → fh < t.cluster_n
    → (kssfs_write src size offset fh t).1.image ≡ img
    → ((l : ℕ) → disk.broken l ≡ false)
    → HoldsImage disk lba img
    → lba ≢ 0
    → lba < 2 ^ 32
    → 66048 ≤ dest
    → k.lba ≡ lba
    → k.cluster_n ≡ t.cluster_n
    → IsCached disk k
    → strncmp (shown img (k.mem) fh) 6 filename 256 ≡ 0
    → ((i : ℕ) → i < fh → strncmp (shown img (k.mem) i) 6 filename 256 ≢ 0)
    → let read = kssfs_read_file disk dest filename k in
      ((kssfs_write src size offset fh t).0 ≡ done size)
      × (read.0 ≡ 1)
      × ((p : ℕ) → p < size → read.1.mem (dest + (offset + p)) ≡ t.mem (src + p))
kssfs_read_file-kssfs_write src size offset fh t disk lba dest filename k {img = img} inside far
      whole known made sound holds on word beyond mounted clusters cached equal differ =
    let l = loaded (t.image) fh (t.mem) in
    let w = written src size offset l in
    let did = write-written src size offset fh inside far t whole known in
    let same : img ≡ with_cluster (t.image) fh w =
      sym made ∙ ap (λ (r : Reply × Tool). r.1.image) did in
    let seen : (p : ℕ) → p < 8192 → shown img (k.mem) fh p ≡ w p = λ p low.
      ap (λ (i : Image). shown i (k.mem) fh p) same
      ∙ shown-with_cluster (t.image) fh (k.mem) w p low in
    let reaches = ap (λ (i : Image). i.size) same in
    let (one, bytes) =
      found-shown disk sound lba img holds on word dest filename beyond (t.cluster_n) fh k known
        (omega (arith, whole.small)) (omega (arith, whole.whole, reaches)) mounted clusters cached
        equal differ in
    let length : word_at (shown img (k.mem) fh) 4 ≡ offset + size =
      rw (seen 4 (omega arith), seen 5 (omega arith)) (written-length src size offset l inside) in
    let behind : (p : ℕ) → l (src + p) ≡ t.mem (src + p) =
      λ p. let off : ltb (src + p) 8192 ≡ false = ground arith in rw off refl in
    (
      ap (λ (r : Reply × Tool). r.0) did,
      one,
      λ p lt.
          bytes (offset + p) (omega (arith, length, lt))
          ∙ seen (512 + (offset + p)) (omega arith)
          ∙ written-data src size offset l inside p lt
          ∙ behind p,
    )
