-- ===== src/Kssfs/Tests.antt =====
-- A disk with one file, `a`, of two bytes, in the second cluster of a file system at sector 100.
use korolev.Prelude.{◌+◌, ◌≡◌, ◌⊎◌, refl, true, false, arith, ltb, ◌==◌, if◌then◌else◌}
use korolev.Libc.{strncmp, memcpy}
use korolev.Kfs2.{Disk, read_sector, cluster_loop}
use korolev.Kssfs.{
  Kssfs, kssfs_avail, kssfs_init, kssfs_read_cluster, kssfs_write_cluster, file_loop,
  kssfs_read_file,
}
use korolev.Kssfs.Cache.{IsCached, empty}
use korolev.Kssfs.Files.{outside, lookup_file, kssfs_read_file_lem}
use korolev.Kssfs.Mount.{kssfs_write_cluster_lem, kssfs_init_lem, can_mount, disk_long}

abbrev disk : Disk
disk = record {
  sector = λ lba b.
      if lba == 100
      then (if b == 0
          then 0x26
          else if b == 1
          then 0x96
          else if b == 2
          then 0x01
          else if b == 3
          then 0x37
          else if b == 4
          then 2
          else 0)
      else if lba == 117
      then (if b == 0 then 1 else if b == 4 then 2 else if b == 6 then b'a' else 0)
      else if lba == 118
      then b + 7
      else 0;
  broken = λ lba. false;
}

-- The name `a` stands at 70000, and before the setup no file system is there.
abbrev fresh : Kssfs
fresh = record {
  lba = 0;
  mem = λ p. if p == 70000 then b'a' else 3;
  clstr_index = 0;
  cluster_n = 0;
}

abbrev mounted : Kssfs
mounted = record {
  lba = 100;
  mem = λ p. if p == 70000 then b'a' else if p == 70001 then 0 else 3;
  clstr_index = 0xffffffff;
  cluster_n = 2;
}

mounts : (kssfs_init disk 100 fresh).0 ≡ 1
unfolding kssfs_init read_sector
mounts = refl

reads_a : (kssfs_read_file disk 80000 70000 mounted).0 ≡ 1
unfolding kssfs_read_file file_loop kssfs_read_cluster cluster_loop read_sector strncmp memcpy
reads_a = refl

kssfs_read_file_lem_example :
    let r = kssfs_read_file disk 80000 70000 mounted in
    let s = lookup_file disk 100 80000 70000 2 0 (mounted.mem) in
    (r.0 ≡ s.0) × (outside (r.1.mem) ≡ outside s.1) × IsCached disk (r.1)
kssfs_read_file_lem_example =
    kssfs_read_file_lem disk (λ lba. refl) 80000 70000 (omega arith) mounted (empty refl)
      (λ e. omega (arith, e)) (omega arith)

kssfs_write_cluster_lem_example :
    (kssfs_read_cluster (kssfs_write_cluster 1 90000 mounted disk) 1 mounted).mem ≡ (
      if 1 == 0xffffffff then mounted.mem else λ p.
      if ltb p 8192 then mounted.mem (90000 + p) else mounted.mem p)
kssfs_write_cluster_lem_example =
    kssfs_write_cluster_lem disk 1 90000 mounted (λ lba. refl) (λ e. omega (arith, e)) (omega arith)

kssfs_init_lem_example :
    let (r, k') = kssfs_init disk 100 fresh in
    ((can_mount disk 100 fresh ≡ true)
      × (r ≡ 1)
      × (kssfs_avail k' ≡ 100)
      × (k'.cluster_n ≡ disk_long disk 100 4)
      × IsCached disk k')
    ⊎ ((can_mount disk 100 fresh ≡ false) × (r ≡ 0) × (kssfs_avail k' ≡ kssfs_avail fresh))
kssfs_init_lem_example = kssfs_init_lem disk 100 fresh
