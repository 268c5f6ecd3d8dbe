-- ===== src/Kfs2.antt =====
-- fs/kfs2.c: the file system KFS2. The driver of the disk is an interface. The messages are left
-- out.
pub mod Cache
pub mod Handles
pub mod Mount
mod Tests
use korolev.Prelude.{
  ℕ, zero, suc, ◌+◌, ◌*◌, ◌-◌, ◌/◌, ◌%◌, ◌^◌, Bool, true, false, List, [], ◌∷◌, Option, none, some,
  ltb, leb, ◌==◌, not, if◌then◌else◌, get_or, set, replicate,
}
use korolev.Prelude.Slots.{first_slot}
use korolev.Mem.{Mem, within}
use korolev.Libc.{strncmp}

-- The disk by sectors of 512 bytes: what stands in one, and which ones cannot be read.
pub record Disk : Type 0 where
  pub sector : (lba byte : ℕ) → ℕ
  pub broken : ℕ → Bool

-- `ide_read_sector(lba, buf + at, 1, 0)`: the result, 0 for success, and the buffer.
unfoldable pub read_sector : Disk → (lba at : ℕ) → Mem → ℕ × Mem
read_sector disk lba at buf =
    if disk.broken lba
    then (1, buf)
    else (0, λ p. if within at 512 p then disk.sector lba (p - at) else buf p)

-- A number of 32 bits in the buffer, its low byte first.
abbrev pub long_at : Mem → ℕ → ℕ
long_at buf p = buf p + 2 ^ 8 * buf (p + 1) + 2 ^ 16 * buf (p + 2) + 2 ^ 24 * buf (p + 3)

-- `kfs2_file`
pub record Kfs2File : Type 0 where
  pub flags : ℕ
  pub startclstr : ℕ

abbrev pub closed : Kfs2File
closed = record { flags = 0; startclstr = 0 }

-- `kfs2_lba`, `kfs2_buf`, `kfs2_cluster_index`, `kfs2_cluster_n`, `kfs2_err`, `kfs2_handles`
pub record Kfs2 : Type 0 where
  pub lba : ℕ
  pub buf : Mem
  pub cluster_index : ℕ
  pub cluster_n : ℕ
  pub err : ℕ
  pub handles : List Kfs2File

abbrev pub kfs2_signature : ℕ
kfs2_signature = 0x37019627

abbrev pub kfs2_type_file : ℕ
kfs2_type_file = 1

abbrev pub kfs2_max_files : ℕ
kfs2_max_files = 16

abbrev pub enoent : ℕ
enoent = 2

abbrev pub emfile : ℕ
emfile = 24

-- `KFS2_CLSTR_LBA(n)`
abbrev pub clstr_lba : ℕ → ℕ → ℕ
clstr_lba lba n = (lba + 1 + n * 16) % 2 ^ 32

-- `handle.flags & 1` of a handle that is free
abbrev pub is_free : Kfs2File → Bool
is_free f = f.flags % 2 == 0

module _ (disk : Disk) where
  pub kfs2_init : ℕ → Kfs2 → ℕ × Kfs2
  kfs2_init lba k =
      let (failed, buf') = read_sector disk lba 0 (k.buf) in
      let off : Kfs2 = record k { lba = 0; buf = buf' } in
      if not (k.lba == 0)
      then (0, k)
      else if not (failed == 0)
      then (0, off)
      else if not (long_at buf' 0 == kfs2_signature)
      then (0, off)
      else (
        1,
        record {
          lba = lba;
          buf = λ p. if within 0 8192 p then 0 else buf' p;
          cluster_index = 0xffffffff;
          cluster_n = long_at buf' 4;
          err = k.err;
          handles = replicate kfs2_max_files closed;
        },
      )

  -- `for (i = 0; i < 16; i++) ide_read_sector(startc + i, kfs2_buf + 512 * i, 1, 0);` over the rounds
  -- left. The results are not looked at.
  unfoldable pub cluster_loop : ℕ → (startc i : ℕ) → Mem → Mem
  cluster_loop zero startc i buf = buf
  cluster_loop (suc n) startc i buf =
      cluster_loop n startc (i + 1) (read_sector disk ((startc + i) % 2 ^ 32) (512 * i) buf).1

  pub kfs2_read_cluster : ℕ → Kfs2 → Kfs2
  kfs2_read_cluster n k =
      let read : Kfs2 = record k {
        buf = cluster_loop 16 (clstr_lba (k.lba) n) 0 (k.buf);
        cluster_index = n;
      } in
      if k.lba == 0
      then k
      else if ltb (k.cluster_n) n
      then k
      else if n == k.cluster_index
      then k
      else read

  -- The memory that strncmp sees: the buffer, and the name from 16384 on.
  abbrev pub beside : Mem → Mem → Mem
  beside buf filename p = if ltb p 16384 then buf p else filename (p - 16384)

  -- The loop over the handles, for a file that starts at a cluster.
  pub open_handle : ℕ → Kfs2 → Option ℕ × Kfs2
  open_handle cluster k = elim (first_slot is_free (k.handles)) [
    | none ↦ (none, record k { err = emfile })
    | some j ↦ (
      some j,
      record k { handles = set (k.handles) j (record { flags = 1; startclstr = cluster }) },
    )
  ]

  -- The loop over the clusters, over the rounds left; `none` is -1. The name stands 8 bytes into a
  -- cluster.
  open_loop : ℕ → ℕ → Mem → Kfs2 → Option ℕ × Kfs2
  open_loop zero i filename k = (none, record k { err = enoent })
  open_loop (suc n) i filename k =
      let k' = kfs2_read_cluster i k in
      let next = open_loop n (i + 1) filename k' in
      if not (long_at (k'.buf) 0 == kfs2_type_file)
      then next
      else if strncmp (beside (k'.buf) filename) 16384 8 256 == 0
      then open_handle i k'
      else next

  pub kfs2_open_file : Mem → Kfs2 → Option ℕ × Kfs2
  kfs2_open_file filename k = open_loop (k.cluster_n) 0 filename k

  -- `while (1)` of kfs2_read_byte: the cluster `clstr_n` links further, and the buffer. The link
  -- stands 276 bytes into a cluster.
  seek_loop : (clstr_n clstr : ℕ) → Kfs2 → ℕ × Kfs2
  seek_loop zero clstr k = (clstr, kfs2_read_cluster clstr k)
  seek_loop (suc n) clstr k =
      let k' = kfs2_read_cluster clstr k in seek_loop n (long_at (k'.buf) 276) k'

  -- The loop over the bytes, over the rounds left; `none` is a read in front of the buffer.
  -- KFS2_BYTE_CLSTR_OFF(i) is the offset in the cluster with its sign changed.
  byte_loop : ℕ → (start i clstr clstr_n : ℕ) → Kfs2 → Option (List ℕ × Kfs2)
  byte_loop zero start i clstr clstr_n k = some ([], k)
  byte_loop (suc n) start i clstr clstr_n k =
      let t = i / 7680 in
      let same = t == clstr_n in
      let (clstr', k') = seek_loop t (if same then clstr else start) k in
      let back = i - t * 7680 in
      let rest = byte_loop n start (i + 1) clstr' 0 k' in
      if ltb 512 back then none else elim rest as (λ _. Option (List ℕ × Kfs2)) [
        | none ↦ none
        | some (bytes, k'') ↦ some (k'.buf (512 - back) ∷ bytes, k'')
      ]

  -- The bytes read, as many as the result says. The local variable `clstr_n` is not set before its
  -- first use: `unset` is what it happens to be. For offsets that an `int` holds.
  pub kfs2_read_byte : (unset file n off : ℕ) → Kfs2 → Option (List ℕ × Kfs2)
  kfs2_read_byte unset file n off k =
      let f = get_or (k.handles) file closed in
      let read = byte_loop n (f.startclstr) off 0 unset k in
      if is_free f then some ([], record k { err = enoent }) else read

pub kfs2_close_file : ℕ → Kfs2 → Kfs2
kfs2_close_file handle k =
    if leb kfs2_max_files handle
    then record k { err = enoent }
    else if is_free (get_or (k.handles) handle closed)
    then k
    else record k { handles = set (k.handles) handle closed }
