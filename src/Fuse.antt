-- ===== src/Fuse.antt =====
-- tools/kssfs_fuse.c: the file system KSSFS of an image file, mounted by FUSE on another system. What
-- FUSE does with the answers, the messages, fflush and the options of main are left out.
pub mod Clusters
pub mod Files
pub mod Reopen
pub mod Contents
pub mod Kernel
pub mod Names
pub mod Listing
mod Tests
use korolev.Prelude.{
  ℕ, zero, suc, ◌+◌, ◌-◌, ◌*◌, ◌/◌, ◌%◌, ◌^◌, Bool, true, false, ◌&&◌, not, Option, none, some,
  List, [], ◌∷◌, ltb, ◌==◌, if◌then◌else◌,
}
use korolev.Mem.{Mem, store}
use korolev.Libc.{memcpy, kmemset, strncpy}
use korolev.Kfs2.{long_at}
use korolev.Kssfs.{word_at, kssfs_signature}

-- The open file.
pub record Image : Type 0 where
  pub size : ℕ
  pub byte : ℕ → ℕ

-- `kssfs_file`, `cluster_n`, and the memory of the process: `buf` stands from 0 to 8191, everything
-- else behind it.
pub record Tool : Type 0 where
  pub image : Image
  pub cluster_n : ℕ
  pub mem : Mem

pub data Errno : Type 0 where
  enoent enospc : Errno

-- The `int` that an operation returns: a number (as a bit pattern of 32 bits), or the negative of an
-- error number.
pub data Reply : Type 0 where
  done : ℕ → Reply
  failed : Errno → Reply

-- `fseek(file, pos, SEEK_SET); fread(buf, 1, n, file);` stops at the end of the file.
pub file_read : (pos n : ℕ) → Tool → Tool
file_read pos n t = record t {
  mem = λ p. if ltb p n && ltb (pos + p) (t.image.size) then t.image.byte (pos + p) else t.mem p;
}

-- `fseek(file, pos, SEEK_SET); fwrite(buf, 1, n, file);` for the global buffer.
pub file_write : (pos n : ℕ) → Tool → Tool
file_write pos n t = record t {
  image = record {
    size = if ltb (t.image.size) (pos + n) then pos + n else t.image.size;
    byte = λ q. if not (ltb q pos) && ltb q (pos + n) then t.mem (q - pos) else t.image.byte q;
  };
}

abbrev pub place : ℕ → ℕ
place i = (512 + i * 8192) % 2 ^ 32

pub kssfs_read_cluster : ℕ → Tool → Tool
unfolding file_read
kssfs_read_cluster i t = file_read (place i) (512 * 16) t

-- Every caller gives the global buffer.
pub kssfs_write_cluster : ℕ → Tool → Tool
unfolding file_write
kssfs_write_cluster i t = file_write (place i) (512 * 16) t

-- 1 for a file that is no KSSFS.
pub kssfs_checkdisk : Tool → ℕ × Tool
unfolding file_read
kssfs_checkdisk t =
    let t' = file_read 0 512 t in
    if not (long_at (t'.mem) 0 == kssfs_signature)
    then (1, t')
    else (0, record t' { cluster_n = long_at (t'.mem) 4 })

-- `strncmp(a, b, n) == 0`, as the C library of the system has it.
pub same_text : Mem → (a b n : ℕ) → Bool
same_text m a b zero = true
same_text m a b (suc n) =
    let rest = same_text m (a + 1) (b + 1) n in
    if m a == m b then (if m a == 0 then true else rest) else false

-- `strcmp(path, "/") == 0`
pub is_root : Mem → ℕ → Bool
is_root m path = m path == b'/' && (m (path + 1) == 0)

-- The fields of the cluster in the buffer.
abbrev pub chdr_type : Mem → ℕ
chdr_type m = long_at m 0

abbrev pub chdr_len : Mem → ℕ
chdr_len m = word_at m 4

abbrev pub chdr_filename : ℕ
chdr_filename = 6

abbrev pub chdr_uid : Mem → ℕ
chdr_uid m = long_at m 262

abbrev pub chdr_gid : Mem → ℕ
chdr_gid m = long_at m 266

abbrev pub chdr_data : ℕ
chdr_data = 512

abbrev pub kssfs_clstr_free : ℕ
kssfs_clstr_free = 0

abbrev pub kssfs_clstr_com : ℕ
kssfs_clstr_com = 1

-- `chdr->type = v` and `chdr->len = v`
abbrev pub set_type : ℕ → Mem → Mem
set_type v m =
    store (store (store (store m 0 (v % 256)) 1 (v / 2 ^ 8 % 256)) 2 (v / 2 ^ 16 % 256)) 3
      (v / 2 ^ 24 % 256)

abbrev pub set_len : ℕ → Mem → Mem
set_len v m = store (store m 4 (v % 256)) 5 (v / 2 ^ 8 % 256)

-- `for (i = 0; i < cluster_n; i++) { kssfs_read_cluster(i); if (test) ... return ...; }` over the rounds
-- left, up to the first cluster that passes.
pub search_loop : (Mem → Bool) → (n i : ℕ) → Tool → Option ℕ × Tool
search_loop test zero i t = (none, t)
search_loop test (suc n) i t =
    let t' = kssfs_read_cluster i t in
    let next = search_loop test n (i + 1) t' in if test (t'.mem) then (some i, t') else next

-- The test of getattr, of open and rename, of unlink, and of create.
abbrev pub is_named : ℕ → Mem → Bool
is_named path m = same_text m (path + 1) chdr_filename 256

abbrev pub is_file : ℕ → Mem → Bool
is_file path m = not (chdr_type m == 0) && same_text m (path + 1) chdr_filename 256

abbrev pub is_victim : ℕ → Mem → Bool
is_victim path m = not (chdr_type m == kssfs_clstr_free) && same_text m path chdr_filename 256

abbrev pub is_free : Mem → Bool
is_free m = chdr_type m == kssfs_clstr_free

pub kssfs_release : Tool → Reply × Tool
kssfs_release t = (done 0, t)

pub kssfs_truncate : Tool → Reply × Tool
kssfs_truncate t = (done 0, t)

-- How many of `size` bytes from `offset` on fit into a cluster, as an `unsigned`. For numbers whose
-- sum is below 2 ^ 64.
pub fitting : (size offset : ℕ) → ℕ
fitting size offset =
    if ltb 7680 (offset + size)
    then (size + 2 ^ 64 - (offset + size - 7680)) % 2 ^ 32
    else size % 2 ^ 32

-- All of `size` is copied, whatever fits.
pub kssfs_read : (dest size offset fh : ℕ) → Tool → Reply × Tool
unfolding fitting
kssfs_read dest size offset fh t =
    let t' = kssfs_read_cluster fh t in
    (
      done (fitting size offset),
      record t' { mem = (memcpy dest (chdr_data + offset) size (t'.mem)).1 },
    )

pub kssfs_write : (fbuf size offset fh : ℕ) → Tool → Reply × Tool
unfolding fitting
kssfs_write fbuf size offset fh t =
    let t' = kssfs_read_cluster fh t in
    let copied = (memcpy (chdr_data + offset) fbuf size (t'.mem)).1 in
    (
      done (fitting size offset),
      kssfs_write_cluster fh (record t' { mem = set_len (offset + fitting size offset) copied }),
    )

pub kssfs_unlink : ℕ → Tool → Reply × Tool
kssfs_unlink path t =
    let (found, t') = search_loop (is_victim path) (t.cluster_n) 0 t in
    elim found as (λ _. Reply × Tool) [
      | none ↦ (failed enoent, t')
      | some i ↦ (done 0, kssfs_write_cluster i (record t' { mem = (kmemset 0 0 8192 (t'.mem)).1 }))
    ]

-- The answer, the tool, and `fi->fh`, which keeps its value where it is not set.
pub kssfs_create : (path fh : ℕ) → Tool → Reply × ℕ × Tool
kssfs_create path fh t =
    let (found, t') = search_loop is_free (t.cluster_n) 0 t in
    elim found as (λ _. Reply × ℕ × Tool) [
      | none ↦ (failed enospc, fh, t')
      | some i ↦ (
        done 0,
        i,
        kssfs_write_cluster i (record t' {
          mem = (strncpy chdr_filename (path + 1) 256 (set_type kssfs_clstr_com (t'.mem))).1;
        }),
      )
    ]

pub kssfs_open : (path fh : ℕ) → Tool → Reply × ℕ × Tool
kssfs_open path fh t =
    let (found, t') = search_loop (is_file path) (t.cluster_n) 0 t in
    elim found as (λ _. Reply × ℕ × Tool) [
      | none ↦ kssfs_create path fh t'
      | some i ↦ (done 0, i, t')
    ]

pub kssfs_rename : (src dst : ℕ) → Tool → Reply × Tool
kssfs_rename src dst t =
    let (found, t') = search_loop (is_file src) (t.cluster_n) 0 t in
    elim found as (λ _. Reply × Tool) [
      | none ↦ (failed enoent, t')
      | some i ↦ (done 0, record t' { mem = (strncpy chdr_filename (dst + 1) 256 (t'.mem)).1 })
    ]
