-- ===== src/Fuse/Tests.antt =====
-- An image of two clusters that are free, and the path `/a` at 9000.
use korolev.Prelude.{
  ◌*◌, ◌<◌, ap, ◌∙◌, false, ℕ, ◌+◌, ◌-◌, ◌≡◌, refl, arith, ◌==◌, if◌then◌else◌, List, [], ◌∷◌,
}
use korolev.Mem.{within}
use korolev.Libc.{strncmp}
use korolev.Kfs2.{Disk}
use korolev.Kssfs.{Kssfs, kssfs_read_file}
use korolev.Kssfs.Cache.{empty}
use korolev.Format.Boot.{HoldsImage, shown}
use korolev.Fuse.Kernel.{kssfs_read_file-kssfs_write}
use korolev.Fuse.{
  Image, Reply, Tool, done, failed, enoent, chdr_len, is_root, search_loop, kssfs_read_cluster,
  kssfs_read, kssfs_write, kssfs_unlink, kssfs_create, kssfs_open,
}
use korolev.Fuse.Clusters.{IsWhole, loaded, with_cluster}
use korolev.Fuse.Files.{seen, open_answer, file_at, free_at, kssfs_open_lem}
use korolev.Fuse.Reopen.{kssfs_open_again}
use korolev.Fuse.Contents.{written, write-written, kssfs_write_read}
use korolev.Fuse.Names.{effect, kssfs_unlink_slash}
use korolev.Fuse.Listing.{kssfs_readdir, dot, dot_dot, names, clusters_of, fill, kssfs_readdir_lem}

abbrev blank : Tool
blank = record {
  image = record { size = 16896; byte = λ q. 0 };
  cluster_n = 2;
  mem = λ p. if p == 9000 then b'/' else if p == 9001 then b'a' else 0;
}

blank-IsWhole : IsWhole blank
blank-IsWhole = record { whole = omega arith; small = omega arith }

makes_a : (kssfs_open 9000 7 blank).0 ≡ done 0
unfolding kssfs_open search_loop kssfs_read_cluster kssfs_create
makes_a = refl

kssfs_open_lem_example :
    seen (kssfs_open 9000 7 blank) ≡ open_answer 9000 7 blank (file_at 9000 blank) (free_at blank)
kssfs_open_lem_example = kssfs_open_lem 9000 7 (omega arith) blank blank-IsWhole

kssfs_open_again_example :
    let (r, h, t') = kssfs_open 9000 7 blank in seen (kssfs_open 9000 8 t') ≡ (done 0, h, t'.image)
kssfs_open_again_example = kssfs_open_again 9000 7 (omega arith) 8 blank blank-IsWhole makes_a

kssfs_write_read_example :
    let (r, t') = kssfs_write 9000 2 5 1 blank in
    let (r', t'') = kssfs_read 10000 2 5 1 t' in
    (r ≡ done 2)
    × (r' ≡ done 2)
    × (t''.image ≡ t'.image)
    × (chdr_len (t''.mem) ≡ 7)
    × ((p : ℕ)
        → t''.mem (8192 + p) ≡ (
            if within 10000 2 (8192 + p)
            then blank.mem (9000 + (8192 + p - 10000))
            else blank.mem (8192 + p)))
kssfs_write_read_example =
    kssfs_write_read 10000 2 5 1 (omega arith) (omega arith) 9000 blank (omega arith) blank-IsWhole
      (omega arith)

kssfs_unlink_slash_example : effect (kssfs_unlink 9000 blank) ≡ (failed enoent, blank.image)
kssfs_unlink_slash_example =
    kssfs_unlink_slash 9000 blank blank-IsWhole (omega arith) refl (λ j e. omega (arith, e))

kssfs_readdir_lem_example :
    let (r, t', s') = kssfs_readdir {S = List ℕ} (λ x s. x 0 ∷ s) 9000 blank [] in
    (r ≡ (if is_root (blank.mem) 9000 then done 0 else failed enoent))
    × (s' ≡ (
        if is_root (blank.mem) 9000
        then fill (λ x s. x 0 ∷ s) (dot ∷ dot_dot ∷ names (clusters_of blank) 2 0) []
        else []))
    × (t'.image ≡ blank.image)
kssfs_readdir_lem_example = kssfs_readdir_lem (λ x s. x 0 ∷ s) 9000 blank [] blank-IsWhole

-- One cluster, with the name `a`; the source at 9000 holds `/a`.
abbrev one_file : Tool
one_file = record {
  image = record { size = 8704; byte = λ q. if q == 518 then b'a' else 0 };
  cluster_n = 1;
  mem = blank.mem;
}

one_file-IsWhole : IsWhole one_file
one_file-IsWhole = record { whole = omega arith; small = omega arith }

abbrev filled : Image
filled = (kssfs_write 9000 2 5 0 one_file).1.image

filled_lem :
    filled
    ≡ with_cluster (one_file.image) 0 (written 9000 2 5 (loaded (one_file.image) 0 (one_file.mem)))
filled_lem =
    ap (λ (r : Reply × Tool). r.1.image)
      (write-written 9000 2 5 0 (omega arith) (omega arith) one_file one_file-IsWhole (omega arith))

abbrev disk : Disk
disk = record { sector = λ l b. filled.byte (512 * (l - 100) + b); broken = λ l. false }

-- The name `a` stands at 70000, and no cluster is in the buffer.
abbrev kernel : Kssfs
kernel = record {
  lba = 100;
  mem = λ p. if p == 70000 then b'a' else 0;
  clstr_index = 0xffffffff;
  cluster_n = 1;
}

holds : HoldsImage disk 100 filled
holds s b lt inside =
    let size = ap (λ (i : Image). i.size) filled_lem in
    ap (filled.byte) (omega (arith, size, inside))

equal : strncmp (shown filled (kernel.mem) 0) 6 70000 256 ≡ 0
unfolding strncmp
equal = ap (λ (i : Image). strncmp (shown i (kernel.mem) 0) 6 70000 256) filled_lem ∙ refl

kssfs_read_file-kssfs_write_example :
    let read = kssfs_read_file disk 80000 70000 kernel in
    ((kssfs_write 9000 2 5 0 one_file).0 ≡ done 2)
    × (read.0 ≡ 1)
    × ((p : ℕ) → p < 2 → read.1.mem (80000 + (5 + p)) ≡ one_file.mem (9000 + p))
kssfs_read_file-kssfs_write_example =
    kssfs_read_file-kssfs_write 9000 2 5 0 one_file disk 100 80000 70000 kernel (omega arith)
      (omega arith) one_file-IsWhole (omega arith) refl (λ l. refl) holds (λ e. omega (arith, e))
      (omega arith) (omega arith) refl refl (empty refl) equal (λ i lt. absurd (omega (arith, lt)))
