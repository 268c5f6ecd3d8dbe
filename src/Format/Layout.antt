-- ===== src/Format/Layout.antt =====
-- Where the tool puts the files.
use korolev.Prelude.{
  ℕ, zero, suc, ◌+◌, ◌-◌, ◌*◌, ◌%◌, ◌^◌, ◌≤◌, ◌<◌, ◌≡◌, refl, ap, ◌∙◌, inl, inr, true, false, List,
  [], ◌∷◌, Option, none, some, ltb, if◌then◌else◌, arith, length, get_elem?, Bool-cases,
}
use mathlib.Core.Option.{some-injective}
use native.Mathlib.Decide.{dec_lt}
use korolev.Mem.{Mem}
use korolev.Kfs2.{long_at}
use korolev.Kssfs.{kssfs_signature}
use korolev.Fuse.{Image}
use korolev.Format.{
  SourceFile, Argument, append, no_image, header, cluster_header, file_buffer, format_file,
  format_loop, pad_loop, format,
}

-- A file that is written: what stood in the buffer, the text of its argument, and the file.
pub record Written : Type 0 where
  pub stack : Mem
  pub text : ℕ → ℕ
  pub file : SourceFile

-- The cluster of a file that is written.
unfoldable pub cluster : Written → Mem
cluster w p =
    if ltb p 512
    then cluster_header (w.text) (w.file) p
    else file_buffer (w.stack) (w.file) (p - 512)

-- The files among the first `n` arguments that can be opened and fit into a cluster, in order.
unfoldable pub written : (ℕ → Mem) → (n i : ℕ) → List Argument → List Written
written stacks zero i args = []
written stacks (suc n) i [] = []
written stacks (suc n) i (a ∷ args) =
    let rest = written stacks n (i + 1) args in
    elim (a.file) as (λ _. List Written) [
      | none ↦ rest
      | some file ↦
          if ltb 7680 (file.size)
          then rest
          else record { stack = stacks i; text = a.text; file = file } ∷ rest
    ]

-- An image is another one with the clusters of the files behind it.
record Extends (img : Image) (ws : List Written) (r : Image) : Type 0 where
  size : r.size ≡ img.size + 8192 * length ws
  before : (q : ℕ) → q < img.size → r.byte q ≡ img.byte q
  clusters :
      (j : ℕ) {w : Written} (p : ℕ)
      → get_elem? ws j ≡ some w
      → p < 8192
      → r.byte (img.size + 8192 * j + p) ≡ cluster w p

abbrev with_file : Written → Image → Image
with_file w img =
    append (512 * 15) (file_buffer (w.stack) (w.file))
      (append 512 (cluster_header (w.text) (w.file)) img)

with_file-size : (w : Written) (img : Image) → (with_file w img).size ≡ img.size + 8192
unfolding append
with_file-size w img = omega arith

with_file-before :
    (w : Written) (img : Image) (q : ℕ) → q < img.size → (with_file w img).byte q ≡ img.byte q
unfolding append
with_file-before w img q lt = ground arith

with_file-cluster :
    (w : Written) (img : Image) (p : ℕ)
    → p < 8192
    → (with_file w img).byte (img.size + p) ≡ cluster w p
unfolding append cluster
with_file-cluster w img p lt = elim (dec_lt p 512) [
  | yes low ↦ let e : img.size + p - img.size ≡ p = omega arith in rw e (ground arith)
  | no high ↦ let e : img.size + p - (img.size + 512) ≡ p - 512 = omega arith in rw e (ground arith)
]

Extends-cons :
    (w : Written) (ws : List Written) (img r : Image)
    → Extends (with_file w img) ws r
    → Extends img (w ∷ ws) r
Extends-cons w ws img r x = record {
  size = omega (arith, x.size, with_file-size w img);
  before = λ q lt. x.before q (omega (arith, with_file-size w img)) ∙ with_file-before w img q lt;
  clusters = at_place;
}
  where
    at_place :
        (j : ℕ) {v : Written} (p : ℕ)
        → get_elem? (w ∷ ws) j ≡ some v
        → p < 8192
        → r.byte (img.size + 8192 * j + p) ≡ cluster v p
    at_place zero p e lt =
        let here : img.size + 8192 * 0 + p ≡ img.size + p = omega arith in
        ap (r.byte) here
        ∙ x.before (img.size + p) (omega (arith, with_file-size w img))
        ∙ with_file-cluster w img p lt
        ∙ ap (λ u. cluster u p) (some-injective _ _ e)
    at_place (suc j) p e lt =
        let there : img.size + 8192 * suc j + p ≡ (with_file w img).size + 8192 * j + p =
          omega (arith, with_file-size w img) in
        ap (r.byte) there ∙ x.clusters j p e lt

format_loop-Extends :
    (stacks : ℕ → Mem) (n i : ℕ) (args : List Argument) (img : Image)
    → n ≤ length args
    → (r : Image) × (format_loop stacks n i args img ≡ some r)
      × Extends img (written stacks n i args) r
unfolding format_loop format_file written
format_loop-Extends stacks zero i args img enough = (
  img,
  refl,
  record { size = omega arith; before = λ q lt. refl; clusters = λ j p e lt. absurd (cc) },
)
format_loop-Extends stacks (suc n) i [] img enough = absurd (omega arith)
format_loop-Extends stacks (suc n) i (a ∷ args) img enough =
    go (λ img. format_loop-Extends stacks n (i + 1) args img (omega arith)) (a.file) refl
  where
    go :
        ((img : Image)
          → (r : Image) × (format_loop stacks n (i + 1) args img ≡ some r)
            × Extends img (written stacks n (i + 1) args) r)
        → (file : Option SourceFile) → a.file ≡ file
        → (r : Image) × (format_loop stacks (suc n) i (a ∷ args) img ≡ some r)
          × Extends img (written stacks (suc n) i (a ∷ args)) r
    go next none e = rw e (next img)
    go next (some file) e = elim (Bool-cases (ltb 7680 (file.size))) [
      | inl large ↦ rw (e, large) (next img)
      | inr fits ↦
          let w : Written = record { stack = stacks i; text = a.text; file = file } in
          let (r, ran, x) = next (with_file w img) in
          rw (e, fits) (r, ran, Extends-cons w (written stacks n (i + 1) args) img r x)
    ]

append-size : (bytes : ℕ → ℕ) → (append 512 bytes no_image).size ≡ 512
unfolding append
append-size bytes = refl

pad_loop-size : (n : ℕ) (img : Image) → (pad_loop n img).size ≡ img.size + 8192 * n
unfolding pad_loop append
pad_loop-size zero img = omega arith
pad_loop-size (suc n) img = omega (arith, pad_loop-size n (append (512 * 16) (λ p. 0) img))

pad_loop-byte :
    (n : ℕ) (img : Image) (q : ℕ)
    → (pad_loop n img).byte q ≡ (
        if ltb q (img.size)
        then img.byte q
        else if ltb q (img.size + 8192 * n)
        then 0
        else img.byte q)
unfolding pad_loop append
pad_loop-byte zero img q = ground arith
pad_loop-byte (suc n) img q = ground (arith, pad_loop-byte n (append (512 * 16) (λ p. 0) img) q)

-- An image with a header, the clusters of the files, and `free` clusters of zeros behind them.
pub record IsFormatted (ws : List Written) (free : ℕ) (img : Image) : Type 0 where
  pub size : img.size ≡ 512 + 8192 * (length ws + free)
  pub signature : long_at (img.byte) 0 ≡ kssfs_signature
  pub count : long_at (img.byte) 4 ≡ 256
  pub clusters :
      (j : ℕ) {w : Written} (p : ℕ)
      → get_elem? ws j ≡ some w
      → p < 8192
      → img.byte (512 + 8192 * j + p) ≡ cluster w p
  pub zeros : (q : ℕ) → 512 + 8192 * length ws ≤ q → q < img.size → img.byte q ≡ 0

-- The clusters in front of the free ones end where those start.
pub length-get_elem? {ℓ} :
    {A : Type ℓ} (xs : List A) (j : ℕ) {x : A} → get_elem? xs j ≡ some x → j < length xs
length-get_elem? [] j e = absurd (cc)
length-get_elem? (x ∷ xs) zero e = omega arith
length-get_elem? (x ∷ xs) (suc j) e = omega (arith, length-get_elem? xs j e)

-- For at most 256 files, each with an argument, the image has a header for 256 clusters, then one
-- cluster for each file that can be opened and has at most 7680 bytes, in the order of the arguments,
-- and then as many clusters of zeros as 256 has more than there are arguments: an argument that is left
-- out makes the image one cluster shorter than its header says.
pub format_lem :
    (stacks : ℕ → Mem) (file_n : ℕ) (args : List Argument)
    → file_n ≤ 256
    → file_n ≤ length args
    → (img : Image) × (format stacks file_n args ≡ some img)
      × IsFormatted (written stacks file_n 0 args) (256 - file_n) img
unfolding format append
format_lem stacks file_n args few enough =
    let start = append 512 header no_image in
    let (r, ran, x) = format_loop-Extends stacks file_n 0 args start enough in
    let wrap : (2 ^ 32 + 256 - file_n) % 2 ^ 32 ≡ 256 - file_n = omega arith in
    let ws = written stacks file_n 0 args in
    let pad = 256 - file_n in
    let head : (q : ℕ) → q < 512 → (pad_loop pad r).byte q ≡ start.byte q = λ q lt.
      let old = x.before q (omega (arith, append-size header)) in
      let inside : ltb q (r.size) ≡ true = ground (arith, x.size, append-size header) in
      pad_loop-byte pad r q ∙ rw inside old in
    rw (format, ran, wrap)
      (
        pad_loop pad r,
        refl,
        record {
          size = omega (arith, pad_loop-size pad r, x.size, append-size header);
          signature =
              rw
                (
                  head 0 (omega arith),
                  head 1 (omega arith),
                  head 2 (omega arith),
                  head 3 (omega arith),
                )
                refl;
          count =
              rw
                (
                  head 4 (omega arith),
                  head 5 (omega arith),
                  head 6 (omega arith),
                  head 7 (omega arith),
                )
                refl;
          clusters = λ j p e lt.
              let inside : ltb (512 + 8192 * j + p) (r.size) ≡ true =
                ground (arith, x.size, append-size header, length-get_elem? ws j e) in
              pad_loop-byte pad r (512 + 8192 * j + p) ∙ rw inside (x.clusters j p e lt);
          zeros = λ q lo hi.
              let behind : ltb q (r.size) ≡ false = ground (arith, x.size, append-size header) in
              let free : ltb q (r.size + 8192 * pad) ≡ true =
                ground (arith, pad_loop-size pad r, hi) in
              pad_loop-byte pad r q ∙ rw (behind, free) refl;
        },
      )
