-- ===== src/Kssfs.antt =====
-- fs/kssfs.c: the file system KSSFS. The driver of the disk is the interface of Kfs2. The messages are
-- left out.
pub mod Cache
pub mod Files
pub mod Mount
mod Tests
use korolev.Prelude.{ℕ, zero, suc, ◌+◌, ◌*◌, ◌-◌, ◌/◌, ◌%◌, ◌^◌, ltb, ◌==◌, not, if◌then◌else◌}
use korolev.Mem.{Mem}
use korolev.Libc.{kmemset, memcpy, strncmp}
use korolev.Kfs2.{Disk, read_sector, cluster_loop, clstr_lba, long_at}

-- A number of 16 bits, its low byte first.
abbrev pub word_at : Mem → ℕ → ℕ
word_at m p = (m p + 2 ^ 8 * m (p + 1)) % 2 ^ 16

-- `ide_write_sector(lba, m + src, 1, 0)`: a sector that is broken takes nothing.
pub write_sector : Disk → (lba src : ℕ) → Mem → Disk
write_sector disk lba src m =
    if disk.broken lba
    then disk
    else record disk { sector = λ l b. if l == lba then m (src + b) else disk.sector l b }

-- `kssfs_lba`, `kssfs_clstr_index`, `kssfs_cluster_n`, and the memory: kssfs_buf stands from 0 to
-- 16383, kssfs_fn_cache (32 names of 260 bytes) behind it, and everything else behind that.
pub record Kssfs : Type 0 where
  pub lba : ℕ
  pub mem : Mem
  pub clstr_index : ℕ
  pub cluster_n : ℕ

abbrev pub kssfs_signature : ℕ
kssfs_signature = 0x37019626

abbrev pub kssfs_fn_cache : ℕ
kssfs_fn_cache = 16384

module _ (disk : Disk) where
  pub kssfs_init : ℕ → Kssfs → ℕ × Kssfs
  kssfs_init lba k =
      let (failed, mem') = read_sector disk lba 0 (k.mem) in
      let off : Kssfs = record k { lba = 0; mem = mem' } in
      if not (k.lba == 0)
      then (0, k)
      else if not (failed == 0)
      then (0, off)
      else if not (long_at mem' 0 == kssfs_signature)
      then (0, off)
      else (
        1,
        record {
          lba = lba;
          mem = (kmemset 0 0 8192 (kmemset kssfs_fn_cache 0 (32 * 260) mem').1).1;
          clstr_index = 0xffffffff;
          cluster_n = long_at mem' 4;
        },
      )

  -- The loop over the 16 sectors is that of kfs2_read_cluster, word for word.
  pub kssfs_read_cluster : ℕ → Kssfs → Kssfs
  kssfs_read_cluster n k =
      let read : Kssfs = record k {
        mem = cluster_loop disk 16 (clstr_lba (k.lba) n) 0 (k.mem);
        clstr_index = n;
      } in
      if k.lba == 0
      then k
      else if ltb (k.cluster_n) n
      then k
      else if n == k.clstr_index
      then k
      else read

  -- The loop over the clusters, over the rounds left. The name stands 6 bytes into a cluster, the
  -- length of the data 4 bytes, and the data 512 bytes.
  file_loop : ℕ → (i dest filename : ℕ) → Kssfs → ℕ × Kssfs
  file_loop zero i dest filename k = (0, k)
  file_loop (suc n) i dest filename k =
      let k' = kssfs_read_cluster i k in
      let next = file_loop n (i + 1) dest filename k' in
      if strncmp (k'.mem) 6 filename 256 == 0
      then (1, record k' { mem = (memcpy dest 512 (word_at (k'.mem) 4) (k'.mem)).1 })
      else next

  pub kssfs_read_file : (dest filename : ℕ) → Kssfs → ℕ × Kssfs
  kssfs_read_file dest filename k =
      let found = file_loop (k.cluster_n) 0 dest filename k in if k.lba == 0 then (0, k) else found

-- `for (i = 0; i < 16; i++) ide_write_sector(startc + i, buf + i * 512, 1, 0);` over the rounds left.
pub write_sectors : ℕ → (startc i buf : ℕ) → Mem → Disk → Disk
write_sectors zero startc i buf m disk = disk
write_sectors (suc n) startc i buf m disk =
    write_sectors n startc (i + 1) buf m
      (write_sector disk ((startc + i) % 2 ^ 32) (buf + i * 512) m)

pub kssfs_write_cluster : (n buf : ℕ) → Kssfs → Disk → Disk
kssfs_write_cluster n buf k disk =
    let written = write_sectors 16 (clstr_lba (k.lba) n) 0 buf (k.mem) disk in
    if k.lba == 0 then disk else if ltb (k.cluster_n) n then disk else written

unfoldable pub kssfs_avail : Kssfs → ℕ
kssfs_avail k = k.lba
