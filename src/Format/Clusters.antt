-- ===== src/Format/Clusters.antt =====
-- The fields of a cluster that the tool writes, and which files are written.
use korolev.Prelude.{
  ℕ, zero, suc, ◌+◌, ◌-◌, ◌≤◌, ◌<◌, ◌≡◌, refl, ap, inl, inr, false, List, [], ◌∷◌, Option, none,
  some, ltb, if◌then◌else◌, arith, length, get_elem?, Bool-cases,
}
use mathlib.Core.Option.{some-injective}
use korolev.Mem.{Mem}
use korolev.Libc.Copy.{strncpy_lem, strnlen, strnlen-agree}
use korolev.Kssfs.{word_at}
use korolev.Fuse.{set_type, set_len, kssfs_clstr_com}
use korolev.Format.{Argument, SourceFile, kssfs_clstr_data, cluster_header, file_buffer}
use korolev.Format.Layout.{Written, cluster, written}

module _ (w : Written) (fits : w.file.size ≤ 7680) where
  pub cluster-length : word_at (cluster w) 4 ≡ w.file.size
  unfolding cluster cluster_header
  cluster-length =
      let type = if w.file.executable then kssfs_clstr_com else kssfs_clstr_data in
      let clear : Mem = λ p. if ltb p 512 then 0 else w.text (p - 512) in
      let m = set_len (w.file.size) (set_type type clear) in
      let copied = (strncpy_lem 6 512 256 m (inl (omega arith))).1 in
      rw (copied 4, copied 5) (omega (arith, fits))

  pub cluster-data : (p : ℕ) → p < w.file.size → cluster w (512 + p) ≡ w.file.byte p
  unfolding cluster file_buffer
  cluster-data p lt = let e : 512 + p - 512 ≡ p = omega arith in rw e (ground arith)

  -- The text of the argument up to its NUL, and zeros behind it.
  pub cluster-filename :
      (i : ℕ)
      → i < 256
      → cluster w (6 + i) ≡ (if ltb i (strnlen (w.text) 0 256) then w.text i else 0)
  unfolding cluster cluster_header
  cluster-filename i lt =
      let type = if w.file.executable then kssfs_clstr_com else kssfs_clstr_data in
      let clear : Mem = λ p. if ltb p 512 then 0 else w.text (p - 512) in
      let m = set_len (w.file.size) (set_type type clear) in
      let copied = (strncpy_lem 6 512 256 m (inl (omega arith))).1 (6 + i) in
      let shift : strnlen m 512 256 ≡ strnlen (w.text) 0 256 =
        strnlen-agree 256 512 0 m (w.text) (λ k h. ground arith) in
      let place : 6 + i - 6 ≡ i = omega arith in ground (arith, copied, shift, place)

pub length-written :
    (stacks : ℕ → Mem) (n i : ℕ) (args : List Argument) → length (written stacks n i args) ≤ n
unfolding written
length-written stacks zero i args = omega arith
length-written stacks (suc n) i [] = omega arith
length-written stacks (suc n) i (a ∷ args) = ground (arith, length-written stacks n (i + 1) args)

pub written-fits :
    (stacks : ℕ → Mem) (n i : ℕ) (args : List Argument) (j : ℕ) {w : Written}
    → get_elem? (written stacks n i args) j ≡ some w
    → w.file.size ≤ 7680
unfolding written
written-fits stacks zero i args j e = absurd (cc)
written-fits stacks (suc n) i [] j e = absurd (cc)
written-fits stacks (suc n) i (a ∷ args) j {w} e =
    go (a.file) refl (λ j. written-fits stacks n (i + 1) args j)
  where
    go :
        (file : Option SourceFile)
        → a.file ≡ file
        → ((j : ℕ) → get_elem? (written stacks n (i + 1) args) j ≡ some w → w.file.size ≤ 7680)
        → w.file.size ≤ 7680
    go none f next = let e' = rw f at e in next j e'
    go (some file) f next = elim (Bool-cases (ltb 7680 (file.size))) [
      | inl large ↦ let e' = rw (f, large) at e in next j e'
      | inr small ↦ let e' = rw (f, small) at e in at_index small j e'
    ]
      where
        at_index :
            ltb 7680 (file.size) ≡ false
            → (j : ℕ)
            → get_elem?
                (record { stack = stacks i; text = a.text; file = file }
                  ∷ written stacks n (i + 1) args)
                j
              ≡ some w
            → w.file.size ≤ 7680
        at_index small zero e =
            let same : file.size ≡ w.file.size =
              ap (λ (u : Written). u.file.size) (some-injective _ _ e) in
            let fits : file.size ≤ 7680 = ground (arith, small) in omega (arith, same, fits)
        at_index small (suc j) e = next j e
