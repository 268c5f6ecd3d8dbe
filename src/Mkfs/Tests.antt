-- ===== src/Mkfs/Tests.antt =====
-- The header that the tool writes, for the size 0, and its run.
use korolev.Prelude.{
  ◌+◌, ◌-◌, ◌*◌, ◌%◌, ◌^◌, ◌≤◌, ◌<◌, ◌≡◌, refl, ap, false, none, replicate, arith,
}
use korolev.Kfs2.{Disk, Kfs2, closed, kfs2_init}
use korolev.Fuse.{Image}
use korolev.Format.{append, no_image}
use korolev.Format.Boot.{HoldsImage}
use korolev.Mkfs.{prepare, fill, mkfs_kfs2}
use korolev.Mkfs.Header.{kfs2_init-prepare}

abbrev image : Image
image = (prepare 0 no_image).1

abbrev disk : Disk
disk = record { sector = λ l b. image.byte (512 * (l - 100) + b); broken = λ l. false }

abbrev kernel : Kfs2
kernel = record {
  lba = 0;
  buf = λ p. 3;
  cluster_index = 0;
  cluster_n = 0;
  err = 0;
  handles = replicate 16 closed;
}

holds : HoldsImage disk 100 image
unfolding prepare append
holds s b lt inside =
    let e : 512 * ((100 + s) % 2 ^ 32 - 100) + b ≡ 512 * s + b = omega (arith, inside) in
    ap (image.byte) e

kfs2_init-prepare_example :
    let (n, img) = prepare 0 no_image in
    let (r, k') = kfs2_init disk 100 kernel in
    let room = 2 ^ 32 + 0 - 512 in
    (r ≡ 1) × (k'.cluster_n ≡ n) × (8192 * n ≤ room) × (room < 8192 * (n + 1))
kfs2_init-prepare_example =
    kfs2_init-prepare disk 100 0 kernel (λ l. refl) (omega arith) (omega arith) refl holds

-- The image was emptied before its size is asked for, so the tool counts 524287 clusters, and reads as
-- many from where one stands.
counts : (prepare 0 no_image).0 ≡ 524287
unfolding prepare
counts = refl

overruns : mkfs_kfs2 ≡ none
unfolding mkfs_kfs2 prepare fill
overruns = refl
