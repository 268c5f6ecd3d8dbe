-- ===== src/Format/Tests.antt =====
-- Two arguments: the file `a` with the bytes 7 and 8, and one that cannot be opened.
use korolev.Prelude.{
  ℕ, ◌+◌, ◌-◌, ◌*◌, ◌<◌, ◌≡◌, ◌==◌, refl, ap, List, [], ◌∷◌, some, none, false, true, arith,
  if◌then◌else◌, ltb, ◌∙◌,
}
use mathlib.Core.Path.{fun_ext}
use native.Mathlib.Decide.{dec_lt}
use korolev.Mem.{Mem}
use korolev.Libc.{strncmp, strncpy}
use korolev.Kfs2.{Disk}
use korolev.Kssfs.{Kssfs, kssfs_init, kssfs_read_file}
use korolev.Fuse.{Image}
use korolev.Format.{SourceFile, Argument, cluster_header, format}
use korolev.Format.Layout.{Written, cluster, written, IsFormatted, format_lem}
use korolev.Format.Boot.{HoldsImage, shown, kssfs_read_file-format}

abbrev two_bytes : SourceFile
two_bytes = record { size = 2; byte = λ p. p + 7; executable = false; uid = 1000; gid = 100 }

abbrev arguments : List Argument
arguments =
    record { text = λ p. if p == 0 then b'a' else 0; file = some two_bytes }
    ∷ record { text = λ p. if p == 0 then b'b' else 0; file = none }
    ∷ []

abbrev stacks : ℕ → Mem
stacks i p = 3

formatted :
    (img : Image) × (format stacks 2 arguments ≡ some img)
    × IsFormatted (written stacks 2 0 arguments) 254 img
formatted = format_lem stacks 2 arguments (omega arith) (omega arith)

abbrev first : Written
first = record { stack = λ p. 3; text = λ p. if p == 0 then b'a' else 0; file = two_bytes }

abbrev image : Image
image = formatted.0

abbrev disk : Disk
disk = record { sector = λ l b. image.byte (512 * (l - 100) + b); broken = λ l. false }

-- The name `a` stands at 70000.
abbrev kernel : Kssfs
kernel = record {
  lba = 0;
  mem = λ p. if p == 70000 then b'a' else 0;
  clstr_index = 0;
  cluster_n = 0;
}

holds : HoldsImage disk 100 image
unfolding written
holds s b lt inside = let size = formatted.2.size in ap (image.byte) (omega (arith, size, inside))

format_lem_example :
    (img : Image) × (format stacks 2 arguments ≡ some img)
    × IsFormatted (written stacks 2 0 arguments) 254 img
format_lem_example = format_lem stacks 2 arguments (omega arith) (omega arith)

-- The first cluster as the kernel sees it.
cluster_shown :
    shown image (kernel.mem) 0 ≡ (λ p. if ltb p 8192 then cluster (first) p else kernel.mem p)
unfolding written
cluster_shown = fun_ext (λ p. elim (dec_lt p 8192) [
  | yes low ↦ let on : ltb p 8192 ≡ true = ground arith in rw on (formatted.2.clusters 0 p refl low)
  | no high ↦ let off : ltb p 8192 ≡ false = ground arith in rw off refl
])

equal : strncmp (shown image (kernel.mem) 0) 6 70000 256 ≡ 0
unfolding strncmp strncpy cluster cluster_header
equal = ap (λ (m : Mem). strncmp m 6 70000 256) cluster_shown ∙ refl

kssfs_read_file-format_example :
    let (r, k') = kssfs_init disk 100 kernel in
    let read = kssfs_read_file disk 80000 70000 k' in
    (r ≡ 1) × (read.0 ≡ 1) × ((p : ℕ) → p < 2 → read.1.mem (80000 + p) ≡ p + 7)
unfolding written
kssfs_read_file-format_example =
    kssfs_read_file-format stacks 2 arguments disk 100 80000 70000 0 kernel (omega arith)
      (omega arith) (formatted.1) (λ l. refl) holds (λ e. omega (arith, e)) (omega arith)
      (omega arith) refl (λ q h. ground arith) refl equal (λ i lt. absurd (omega (arith, lt)))
