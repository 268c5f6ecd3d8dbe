-- ===== src/Mkfs.antt =====
-- tools/mkfs.kfs2.c: the tool that makes an image with KFS2. The messages are left out; the writes to
-- the image are taken not to fail.
pub mod Header
mod Tests
use korolev.Prelude.{ℕ, ◌+◌, ◌-◌, ◌*◌, ◌/◌, ◌%◌, ◌^◌, Option, none, some, ltb, if◌then◌else◌}
use korolev.Mem.{Mem}
use korolev.Kfs2.{kfs2_signature}
use korolev.Fuse.{Image}
use korolev.Format.{append, no_image, store_long}

abbrev pub kfs2_clstr_sz : ℕ
kfs2_clstr_sz = 8192

abbrev pub kfs2_version : ℕ
kfs2_version = 1

-- `sizeof(kfs2_clstr)`, whose `data` has no elements.
abbrev pub sizeof_clstr : ℕ
sizeof_clstr = 280

-- `kfs2_header h` as it is written.
abbrev pub kfs2_header : ℕ → Mem
kfs2_header cluster_n =
    store_long 8 kfs2_version (store_long 4 cluster_n (store_long 0 kfs2_signature (λ p. 0)))

-- `size` is a LONG.
pub prepare : ℕ → Image → ℕ × Image
prepare size img =
    let cluster_n = (size + 2 ^ 32 - 512) % 2 ^ 32 / kfs2_clstr_sz in
    (cluster_n, append 512 (kfs2_header cluster_n) img)

-- `fwrite(&c, sizeof(kfs2_clstr), cluster_n, f)` for one cluster `c` of zeros: more are read from
-- behind it, which is none.
pub fill : ℕ → Image → Option Image
fill cluster_n img =
    if ltb 1 cluster_n then none else some (append (sizeof_clstr * cluster_n) (λ p. 0) img)

-- main behind the opening of the image, which empties it: fstat gives the size 0.
pub mkfs_kfs2 : Option Image
unfolding prepare fill
mkfs_kfs2 = let (cluster_n, img) = prepare (no_image.size) no_image in fill cluster_n img
