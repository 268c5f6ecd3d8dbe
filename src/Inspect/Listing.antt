-- ===== src/Inspect/Listing.antt =====
-- What the tool lists of an image that the other tool made.
use korolev.Prelude.{
  ℕ, zero, suc, ◌+◌, ◌*◌, ◌≤◌, ◌<◌, ◌≡◌, refl, ap, sym, ◌∙◌, true, List, Option, some, ltb,
  if◌then◌else◌, arith, length, get_elem?,
}
use mathlib.Core.Option.{some-injective}
use korolev.Mem.{Mem}
use korolev.Libc.Copy.{strnlen}
use korolev.Kfs2.{long_at}
use korolev.Kssfs.{word_at}
use korolev.Fuse.{Image}
use korolev.Format.{Argument, format}
use korolev.Format.Layout.{Written, written, length-get_elem?, format_lem}
use korolev.Format.Clusters.{cluster-length, cluster-filename, length-written, written-fits}
use korolev.Inspect.{Entry, read_block, inspect_loop, inspect}

length-inspect_loop :
    (n pos : ℕ) (img : Image) (buf : Mem) → length (inspect_loop n pos img buf) ≡ n
unfolding inspect_loop
length-inspect_loop zero pos img buf = refl
length-inspect_loop (suc n) pos img buf = ap suc (length-inspect_loop n (pos + 512 * 16) img _)

-- The entry of a cluster that the image has whole.
record Listed (img : Image) (at : ℕ) (r : Option Entry) : Type 0 where
  entry : Entry
  found : r ≡ some entry
  size : entry.size ≡ word_at (λ p. img.byte (at + p)) 4
  filename : (i : ℕ) → i < 256 → entry.filename i ≡ img.byte (at + (6 + i))

read_block-whole :
    (img : Image) (pos : ℕ) (buf : Mem) (p : ℕ)
    → pos + 8192 ≤ img.size
    → p < 8192
    → read_block img pos (512 * 16) buf p ≡ img.byte (pos + p)
unfolding read_block
read_block-whole img pos buf p whole low = ground arith

inspect_loop-Listed :
    (n pos j : ℕ) (img : Image) (buf : Mem)
    → j < n
    → pos + 8192 * (j + 1) ≤ img.size
    → Listed img (pos + 8192 * j) (get_elem? (inspect_loop n pos img buf) j)
unfolding inspect_loop
inspect_loop-Listed zero pos j img buf lt whole = absurd (omega arith)
inspect_loop-Listed (suc n) pos zero img buf lt whole =
    let read =
      λ (p : ℕ) (low : p < 8192). read_block-whole img pos buf p (omega (arith, whole)) low in
    let here : pos + 8192 * 0 ≡ pos = omega arith in
    rw here (record {
      entry = _;
      found = refl;
      size = rw (read 4 (omega arith), read 5 (omega arith)) refl;
      filename = λ i small. read (6 + i) (omega arith);
    })
inspect_loop-Listed (suc n) pos (suc j) img buf lt whole =
    let there : pos + 8192 * suc j ≡ pos + 512 * 16 + 8192 * j = omega arith in
    rw there (inspect_loop-Listed n (pos + 512 * 16) j img _ (omega arith) (omega (arith, whole)))

-- Of an image that the other tool makes of at most 256 arguments, the tool says that the signature is
-- correct and that there are 256 clusters, and lists as many; the entry of the `j`-th file that was
-- written has the size of that file, and its name is the text of the argument up to its NUL, with zeros
-- behind it.
pub inspect-format :
    (stacks : ℕ → Mem) (file_n : ℕ) (args : List Argument) (j : ℕ) (buf : Mem) {img : Image}
    {w : Written}
    → file_n ≤ 256
    → file_n ≤ length args
    → format stacks file_n args ≡ some img
    → get_elem? (written stacks file_n 0 args) j ≡ some w
    → let report = inspect img buf in
      (report.correct ≡ true)
      × (report.cluster_n ≡ 256)
      × (length (report.entries) ≡ 256)
      × (e : Entry) × (get_elem? (report.entries) j ≡ some e)
      × (e.size ≡ w.file.size)
      × ((i : ℕ)
          → i < 256
          → e.filename i ≡ (if ltb i (strnlen (w.text) 0 256) then w.text i else 0))
unfolding inspect read_block
inspect-format stacks file_n args j buf {img} {w} few enough made at_j =
    let (img', made', x') = format_lem stacks file_n args few enough in
    let same : img' ≡ img = some-injective _ _ (sym made' ∙ made) in
    let x = rw same at x' in
    let ws = written stacks file_n 0 args in
    let inside = length-get_elem? ws j at_j in
    let most = length-written stacks file_n 0 args in
    let fits = written-fits stacks file_n 0 args j at_j in
    let start = read_block img 0 512 buf in
    let head : (p : ℕ) → p < 512 → start p ≡ img.byte p = λ p lt. ground (arith, x.size) in
    let long : (p : ℕ) → p + 4 ≤ 512 → long_at start p ≡ long_at (img.byte) p = λ p le.
      rw
        (
          head p (omega arith),
          head (p + 1) (omega arith),
          head (p + 2) (omega arith),
          head (p + 3) (omega arith),
        )
        refl in
    let signature = long 0 (omega arith) ∙ x.signature in
    let count = long 4 (omega arith) ∙ x.count in
    let l =
      inspect_loop-Listed 256 512 j img start (omega (arith, inside, most))
        (omega (arith, x.size, inside)) in
    let byte = λ (p : ℕ) (low : p < 8192). x.clusters j p at_j low in
    rw (inspect, signature, count)
      (
        refl,
        refl,
        length-inspect_loop 256 512 img start,
        l.entry,
        l.found,
        l.size ∙ rw (byte 4 (omega arith), byte 5 (omega arith)) (cluster-length w fits),
        λ i lt. l.filename i lt ∙ byte (6 + i) (omega arith) ∙ cluster-filename w fits i lt,
      )
