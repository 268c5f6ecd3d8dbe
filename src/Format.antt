-- ===== src/Format.antt =====
-- tools/format.c: the tool that makes an image with KSSFS from files. The messages are left out; the
-- writes to the image are taken not to fail. The calls of the C library are modelled as its
-- documentation has them.
pub mod Layout
pub mod Clusters
pub mod Boot
mod Tests
use korolev.Prelude.{
  ℕ, zero, suc, ◌+◌, ◌-◌, ◌*◌, ◌/◌, ◌%◌, ◌^◌, Bool, ◌&&◌, not, List, [], ◌∷◌, Option, none, some,
  ltb, if◌then◌else◌,
}
use korolev.Mem.{Mem, store}
use korolev.Libc.{strncpy}
use korolev.Kssfs.{kssfs_signature}
use korolev.Fuse.{Image, set_type, set_len, kssfs_clstr_com}

abbrev pub kssfs_clstr_data : ℕ
kssfs_clstr_data = 2

-- A file as fopen, fread and stat show it.
pub record SourceFile : Type 0 where
  pub size : ℕ
  pub byte : ℕ → ℕ
  pub executable : Bool
  pub uid : ℕ
  pub gid : ℕ

-- An argument of the command line: its text, from its first character on, and the file that it names,
-- if that can be opened.
pub record Argument : Type 0 where
  pub text : ℕ → ℕ
  pub file : Option SourceFile

-- `fwrite(bytes, 1, n, f)` at the end of the image.
unfoldable pub append : (n : ℕ) → (ℕ → ℕ) → Image → Image
append n bytes img = record {
  size = img.size + n;
  byte = λ q.
      if not (ltb q (img.size)) && ltb q (img.size + n) then bytes (q - img.size) else img.byte q;
}

abbrev pub no_image : Image
no_image = record { size = 0; byte = λ q. 0 }

-- `*(LONG*)(m + p) = v`
abbrev pub store_long : (p v : ℕ) → Mem → Mem
store_long p v m =
    store (store (store (store m p (v % 256)) (p + 1) (v / 2 ^ 8 % 256)) (p + 2) (v / 2 ^ 16 % 256))
      (p + 3) (v / 2 ^ 24 % 256)

-- `kssfs_header hdr` as it is written.
abbrev pub header : Mem
header = store_long 4 256 (store_long 0 kssfs_signature (λ p. 0))

-- `kssfs_clstr_hdr chdr` of a file as it is written; the text of the argument stands behind it.
unfoldable pub cluster_header : (ℕ → ℕ) → SourceFile → Mem
cluster_header text file =
    let clear : Mem = λ p. if ltb p 512 then 0 else text (p - 512) in
    let type = if file.executable then kssfs_clstr_com else kssfs_clstr_data in
    let named = (strncpy 6 512 256 (set_len (file.size) (set_type type clear))).1 in
    store_long 270 0 (store_long 266 (file.gid) (store_long 262 (file.uid) named))

-- `buf` after `memset(&buf, 0, 512); fread(buf, 512, 15, f2);`, where `stack` is what stood there.
pub file_buffer : Mem → SourceFile → Mem
file_buffer stack file p =
    if ltb p 7680 && ltb p (file.size) then file.byte p else if ltb p 512 then 0 else stack p

-- The body of the loop over the files.
pub format_file : Mem → Argument → Image → Image
format_file stack a img = elim (a.file) as (λ _. Image) [
  | none ↦ img
  | some file ↦
      if ltb 7680 (file.size)
      then img
      else append (512 * 15) (file_buffer stack file)
          (append 512 (cluster_header (a.text) file) img)
]

-- `for (i = 0; i < file_n; i++)`, over the rounds left and the arguments left; none is a read behind
-- the arguments. `stacks` says what stands in `buf` when a round starts.
pub format_loop : (ℕ → Mem) → (n i : ℕ) → List Argument → Image → Option Image
format_loop stacks zero i args img = some img
format_loop stacks (suc n) i [] img = none
format_loop stacks (suc n) i (a ∷ args) img =
    format_loop stacks n (i + 1) args (format_file (stacks i) a img)

-- `for (i = 0; i < 256 - file_n; i++)`, over the rounds left.
pub pad_loop : ℕ → Image → Image
pad_loop zero img = img
pad_loop (suc n) img = pad_loop n (append (512 * 16) (λ p. 0) img)

-- main behind the opening of the image, which empties it. `file_n` is what atoi gives; the difference
-- is one of LONGs.
pub format : (ℕ → Mem) → (file_n : ℕ) → List Argument → Option Image
format stacks file_n args =
    elim (format_loop stacks file_n 0 args (append 512 header no_image)) as (λ _. Option Image) [
      | none ↦ none
      | some img ↦ some (pad_loop ((2 ^ 32 + 256 - file_n) % 2 ^ 32) img)
    ]
