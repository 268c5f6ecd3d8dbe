-- ===== src/Format/Boot.antt =====
-- The kernel reads the files of an image that the tool made.
use korolev.Prelude.{
  ℕ, ◌+◌, ◌-◌, ◌*◌, ◌/◌, ◌%◌, ◌^◌, ◌≤◌, ◌<◌, ◌≡◌, ◌≢◌, refl, ap, sym, ◌∙◌, inl, inr, true, false,
  List, some, ltb, if◌then◌else◌, arith, length, get_elem?,
}
use mathlib.Core.Path.{fun_ext}
use mathlib.Core.Option.{some-injective}
use native.Mathlib.Decide.{dec_lt}
use korolev.Prelude.Slots.{first_index-least}
use korolev.Mem.{Mem, within}
use korolev.Libc.{strncmp}
use korolev.Kfs2.{Disk, clstr_lba, long_at}
use korolev.Kssfs.{Kssfs, word_at, kssfs_fn_cache, kssfs_init, kssfs_read_file, kssfs_avail}
use korolev.Kssfs.Cache.{loaded, IsCached}
use korolev.Kssfs.Files.{named, outside, answer, with_data, lookup_file, kssfs_read_file_lem}
use korolev.Kssfs.Mount.{disk_long, can_mount, kssfs_init_lem, kssfs_init-mem}
use korolev.Fuse.{Image}
use korolev.Format.{Argument, format}
use korolev.Format.Layout.{Written, cluster, written, IsFormatted, length-get_elem?, format_lem}
use korolev.Format.Clusters.{cluster-length, cluster-data, length-written, written-fits}

-- The disk holds the image from the sector `lba` on.
abbrev pub HoldsImage : Disk → ℕ → Image → Type 0
HoldsImage disk lba img =
    (s b : ℕ)
    → b < 512
    → 512 * s + b < img.size
    → disk.sector ((lba + s) % 2 ^ 32) b ≡ img.byte (512 * s + b)

-- The kernel's memory with the cluster `i` of an image in its buffer.
abbrev pub shown : Image → Mem → ℕ → Mem
shown img m i p = if ltb p 8192 then img.byte (512 + 8192 * i + p) else m p

module _ (disk : Disk) (sound : (lba : ℕ) → disk.broken lba ≡ false) (lba : ℕ) (img : Image)
    (holds : HoldsImage disk lba img) where
  pub long_held :
      (p : ℕ)
      → p + 4 ≤ 512
      → 512 ≤ img.size
      → lba < 2 ^ 32
      → disk_long disk lba p ≡ long_at (img.byte) p
  long_held p small whole word =
      let first : (lba + 0) % 2 ^ 32 ≡ lba = omega arith in
      let byte : (b : ℕ) → b < 512 → disk.sector lba b ≡ img.byte b = λ b lt.
        ap (λ (l : ℕ). disk.sector l b) (sym first)
        ∙ holds 0 b lt (omega arith)
        ∙ ap (img.byte) (omega arith) in
      rw
        (
          byte p (omega arith),
          byte (p + 1) (omega arith),
          byte (p + 2) (omega arith),
          byte (p + 3) (omega arith),
        )
        refl

  loaded-shown :
      (i : ℕ) (m : Mem) → 512 + 8192 * (i + 1) ≤ img.size → loaded disk lba i m ≡ shown img m i
  loaded-shown i m inside = fun_ext (λ p. elim (dec_lt p 8192) [
    | yes low ↦
        let s : (clstr_lba lba i + p / 512) % 2 ^ 32 ≡ (lba + (1 + i * 16 + p / 512)) % 2 ^ 32 =
          omega arith in
        let b : 512 * (1 + i * 16 + p / 512) + p % 512 ≡ 512 + 8192 * i + p = omega arith in
        let byte =
          ap (λ (l : ℕ). disk.sector l (p % 512)) s
          ∙ holds (1 + i * 16 + p / 512) (p % 512) (omega arith) (omega arith)
          ∙ ap (img.byte) b in
        let on : ltb p 8192 ≡ true = ground arith in rw on byte
    | no high ↦ let off : ltb p 8192 ≡ false = ground arith in rw off refl
  ])

  module _ (on : lba ≢ 0) (word : lba < 2 ^ 32) (dest filename : ℕ) (far : 66048 ≤ dest) where
    -- The copy of the cluster `j`, when that is in the buffer.
    with_data-shown :
        (j : ℕ) (m : Mem)
        → 512 + 8192 * (j + 1) ≤ img.size
        → (p : ℕ) → p < word_at (shown img m j) 4
        → with_data disk lba dest filename (loaded disk lba j m) m (dest + p)
          ≡ shown img m j (512 + p)
    with_data-shown j m inside p lt =
        let place : dest + p - dest ≡ p = omega arith in
        let copied : within dest (word_at (shown img m j) 4) (dest + p) ≡ true = ground arith in
        ap (λ t. with_data disk lba dest filename t m (dest + p)) (loaded-shown j m inside)
        ∙ rw (copied, place) refl

    -- What the search of a file system of `n` clusters finds, when the cluster `j` is the first with the
    -- name.
    pub found-shown :
        (n j : ℕ) (k : Kssfs)
        → j < n
        → n < 2 ^ 32
        → 512 + 8192 * (j + 1) ≤ img.size
        → k.lba ≡ lba
        → k.cluster_n ≡ n
        → IsCached disk k
        → strncmp (shown img (k.mem) j) 6 filename 256 ≡ 0
        → ((i : ℕ) → i < j → strncmp (shown img (k.mem) i) 6 filename 256 ≢ 0)
        → let read = kssfs_read_file disk dest filename k in
          (read.0 ≡ 1)
          × ((p : ℕ)
              → p < word_at (shown img (k.mem) j) 4
              → read.1.mem (dest + p) ≡ shown img (k.mem) j (512 + p))
    found-shown n j k known few inside set_up clusters cached equal differ =
        let reaches : (i : ℕ) → i ≤ j → 512 + 8192 * (i + 1) ≤ img.size =
          λ i le. omega (arith, inside) in
        let named_j : named disk lba dest filename (k.mem) j ≡ true =
          rw (loaded-shown j (k.mem) inside, equal) refl in
        let others : (i : ℕ) → 0 ≤ i → i < j → named disk lba dest filename (k.mem) i ≡ false =
          λ i lo hi.
            let ne = differ i hi in
            rw (loaded-shown i (k.mem) (reaches i (omega arith))) (ground (arith, ne)) in
        let first =
          first_index-least (named disk lba dest filename (k.mem)) j n 0 (omega arith) (omega arith)
            others named_j in
        let lem =
          kssfs_read_file_lem disk sound dest filename far k cached
            (λ e. on (omega (arith, set_up, e))) (omega (arith, clusters)) in
        let look : lookup_file disk (k.lba) dest filename (k.cluster_n) 0 (k.mem)
            ≡ answer disk lba dest filename (k.mem) (some j) =
          rw (set_up, clusters, first) refl in
        (
          lem.0 ∙ ap (λ (r : ℕ × Mem). r.0) look,
          λ p lt.
              let q : 8192 + (dest + p - 8192) ≡ dest + p = omega arith in
              let seen =
                ap (λ (m : Mem). m (dest + p - 8192))
                  (lem.1 ∙ ap (λ (r : ℕ × Mem). outside (r.1)) look) in
              ap (λ (a : ℕ). (kssfs_read_file disk dest filename k).1.mem a) (sym q)
              ∙ seen
              ∙ ap (λ (a : ℕ). (answer disk lba dest filename (k.mem) (some j)).1 a) q
              ∙ with_data-shown j (k.mem) inside p lt,
        )

    -- The same for an image of the formatter.
    found-IsFormatted :
        (ws : List Written) (free j : ℕ) (k : Kssfs) {w : Written}
        → IsFormatted ws free img
        → length ws + free ≤ 256
        → get_elem? ws j ≡ some w
        → w.file.size ≤ 7680
        → k.lba ≡ lba
        → k.cluster_n ≡ 256
        → IsCached disk k
        → strncmp (shown img (k.mem) j) 6 filename 256 ≡ 0
        → ((i : ℕ) → i < j → strncmp (shown img (k.mem) i) 6 filename 256 ≢ 0)
        → let read = kssfs_read_file disk dest filename k in
          (read.0 ≡ 1) × ((p : ℕ) → p < w.file.size → read.1.mem (dest + p) ≡ w.file.byte p)
    found-IsFormatted ws free j k {w} x small at_j fits set_up clusters cached equal differ =
        let inside = length-get_elem? ws j at_j in
        let (one, bytes) =
          found-shown 256 j k (omega (arith, inside)) (omega arith) (omega (arith, x.size, inside))
            set_up clusters cached equal differ in
        let byte : (q : ℕ) → q < 8192 → shown img (k.mem) j q ≡ cluster w q =
          λ q low. let on : ltb q 8192 ≡ true = ground arith in rw on (x.clusters j q at_j low) in
        let size : word_at (shown img (k.mem) j) 4 ≡ w.file.size =
          rw (byte 4 (omega arith), byte 5 (omega arith)) (cluster-length w fits) in
        (
          one,
          λ p lt.
              bytes p (omega (arith, size, lt))
              ∙ byte (512 + p) (omega arith)
              ∙ cluster-data w fits p lt,
        )

    -- The kernel's side, for an image whose layout is known.
    read-IsFormatted :
        (ws : List Written) (free j : ℕ) (k : Kssfs) {w : Written}
        → IsFormatted ws free img
        → length ws + free ≤ 256
        → get_elem? ws j ≡ some w
        → w.file.size ≤ 7680
        → k.lba ≡ 0
        → let (r, k') = kssfs_init disk lba k in
          let read = kssfs_read_file disk dest filename k' in
          (strncmp (shown img (k'.mem) j) 6 filename 256 ≡ 0)
          → ((i : ℕ) → i < j → strncmp (shown img (k'.mem) i) 6 filename 256 ≢ 0)
          → (r ≡ 1)
            × (read.0 ≡ 1)
            × ((p : ℕ) → p < w.file.size → read.1.mem (dest + p) ≡ w.file.byte p)
    unfolding kssfs_avail
    read-IsFormatted ws free j k {w} x small at_j fits off equal differ =
        let inside = length-get_elem? ws j at_j in
        let sign = long_held 0 (omega arith) (omega (arith, x.size)) word ∙ x.signature in
        let count = long_held 4 (omega arith) (omega (arith, x.size)) word ∙ x.count in
        let mounts : can_mount disk lba k ≡ true = rw (off, sound lba, sign) refl in
        elim (kssfs_init_lem disk lba k) [
          | inr (fails, _, _) ↦ absurd (cc)
          | inl (_, one, avail, clusters, cached) ↦
              let found =
                found-IsFormatted ws free j _ x small at_j fits avail (clusters ∙ count) cached
                  equal differ in
              (one, found.0, found.1)
        ]

-- The set-up leaves what stands behind the buffer, when its cache of names is empty.
shown-kssfs_init :
    (disk : Disk) (lba : ℕ) (img : Image) (k : Kssfs) (i : ℕ)
    → ((q : ℕ) → within kssfs_fn_cache 8320 q ≡ true → k.mem q ≡ 0)
    → shown img (kssfs_init disk lba k).1.mem i ≡ shown img (k.mem) i
shown-kssfs_init disk lba img k i clear = fun_ext (λ p. elim (dec_lt p 8192) [
  | yes low ↦ let on : ltb p 8192 ≡ true = ground arith in rw on refl
  | no high ↦
      let off : ltb p 8192 ≡ false = ground arith in
      rw off (kssfs_init-mem disk lba k p (omega arith) (clear p))
])

-- When a disk that can be read holds, from a sector that is not 0 on, the image that the tool makes of
-- at most 256 arguments, and the kernel has no file system yet and no names in its cache, kssfs_init
-- returns 1; and for a name that compares equal to that of the `j`-th file written, and to none
-- before, kssfs_read_file then returns 1 and leaves the bytes of that file at the destination, which
-- is to be behind what the buffer and a length can reach.
pub kssfs_read_file-format :
    (stacks : ℕ → Mem) (file_n : ℕ) (args : List Argument) (disk : Disk) (lba dest filename j : ℕ)
    (k : Kssfs) {img : Image} {w : Written}
    → file_n ≤ 256
    → file_n ≤ length args
    → format stacks file_n args ≡ some img
    → ((l : ℕ) → disk.broken l ≡ false)
    → HoldsImage disk lba img
    → lba ≢ 0
    → lba < 2 ^ 32
    → 66048 ≤ dest
    → k.lba ≡ 0
    → ((q : ℕ) → within kssfs_fn_cache 8320 q ≡ true → k.mem q ≡ 0)
    → get_elem? (written stacks file_n 0 args) j ≡ some w
    → strncmp (shown img (k.mem) j) 6 filename 256 ≡ 0
    → ((i : ℕ) → i < j → strncmp (shown img (k.mem) i) 6 filename 256 ≢ 0)
    → let (r, k') = kssfs_init disk lba k in
      let read = kssfs_read_file disk dest filename k' in
      (r ≡ 1) × (read.0 ≡ 1) × ((p : ℕ) → p < w.file.size → read.1.mem (dest + p) ≡ w.file.byte p)
kssfs_read_file-format stacks file_n args disk lba dest filename j k {img} few enough made sound
      holds on word far off clear at_j equal differ =
    let (img', made', x) = format_lem stacks file_n args few enough in
    let same : img' ≡ img = some-injective _ _ (sym made' ∙ made) in
    let x' = rw same at x in
    let before = λ (i : ℕ). shown-kssfs_init disk lba img k i clear in
    let compare = λ (i : ℕ). ap (λ m. strncmp m 6 filename 256) (before i) in
    read-IsFormatted disk sound lba img holds on word dest filename far
      (written stacks file_n 0 args) (256 - file_n) j k x'
      (omega (arith, length-written stacks file_n 0 args)) at_j
      (written-fits stacks file_n 0 args j at_j) off (compare j ∙ equal)
      (λ i lt e. differ i lt (sym (compare i) ∙ e))
