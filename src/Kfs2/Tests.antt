-- ===== src/Kfs2/Tests.antt =====
-- A disk with one file, `a`, in the first cluster of a file system at sector 100.
use korolev.Prelude.{ℕ, ◌≡◌, refl, inl, false, some, arith, ◌==◌, if◌then◌else◌, replicate}
use korolev.Prelude.Slots.{first_slot}
use korolev.Prelude.{List, [], ◌∷◌, none}
use korolev.Mem.{Mem}
use korolev.Kfs2.{
  Disk, read_sector, Kfs2, closed, kfs2_init, cluster_loop, kfs2_read_cluster, open_handle,
  open_loop, kfs2_open_file, seek_loop, byte_loop, kfs2_read_byte,
}
use korolev.Kfs2.Cache.{Holds, IsCached, kfs2_read_cluster_lem}
use korolev.Libc.{strncmp}

abbrev disk : Disk
disk = record {
  sector = λ lba b. if lba == 101 then (if b == 0 then 1 else if b == 8 then b'a' else 0) else 0;
  broken = λ lba. false;
}

abbrev mounted : Kfs2
mounted = record {
  lba = 100;
  buf = λ p. 0;
  cluster_index = 0xffffffff;
  cluster_n = 1;
  err = 0;
  handles = replicate 16 closed;
}

abbrev name_a : Mem
name_a p = if p == 0 then b'a' else 0

kfs2_read_cluster_lem_example :
    Holds disk (λ lba. refl) 100 0 ((kfs2_read_cluster disk 0 mounted).buf)
    × IsCached disk (λ lba. refl) (kfs2_read_cluster disk 0 mounted)
    × ((kfs2_read_cluster disk 0 mounted).cluster_index ≡ 0)
    × ((kfs2_read_cluster disk 0 mounted).lba ≡ 100)
    × ((kfs2_read_cluster disk 0 mounted).cluster_n ≡ 1)
    × ((kfs2_read_cluster disk 0 mounted).handles ≡ mounted.handles)
kfs2_read_cluster_lem_example =
    kfs2_read_cluster_lem disk (λ lba. refl) 0 mounted (record { cached = inl refl })
      (λ e. omega (arith, e)) (omega arith) (λ e. omega (arith, e))

opens_a : (kfs2_open_file disk name_a mounted).0 ≡ some 0
unfolding kfs2_open_file open_loop kfs2_read_cluster cluster_loop read_sector open_handle strncmp
    first_slot
opens_a = refl

-- Without a signature there is no file system.
no_signature : (kfs2_init disk 200 (record mounted { lba = 0 })).0 ≡ 0
unfolding kfs2_init read_sector
no_signature = refl

-- The byte at offset 1 is read in front of the data, where the header ends.
abbrev opened : Kfs2
opened = record mounted {
  buf = λ p. if p == 511 then 7 else 9;
  cluster_index = 0;
  handles = record { flags = 1; startclstr = 0 } ∷ [];
}

reads_backwards :
    elim (kfs2_read_byte disk 5 0 1 1 opened) as (λ _. List ℕ) [
      | none ↦ []
      | some (bytes, k) ↦ bytes
    ]
    ≡ 7 ∷ []
unfolding kfs2_read_byte byte_loop seek_loop kfs2_read_cluster
reads_backwards = refl
