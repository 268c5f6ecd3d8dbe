-- ===== src/Kssfs/Files.antt =====
-- kssfs_read_file against a reference that looks at the disk alone.
use korolev.Prelude.{
  ℕ, zero, suc, ◌+◌, ◌-◌, ◌^◌, ◌≤◌, ◌<◌, ◌≡◌, ◌≢◌, refl, ap, ◌∙◌, inl, inr, Bool, true, false,
  arith, ◌==◌, if◌then◌else◌, Bool-cases, Option, none, some,
}
use mathlib.Core.Path.{fun_ext}
use korolev.Prelude.Slots.{first_index}
use korolev.Mem.{Mem, within}
use korolev.Libc.{memcpy, strncmp}
use korolev.Libc.Copy.{memcpy_lem}
use korolev.Kfs2.{Disk}
use korolev.Kssfs.{Kssfs, word_at, file_loop, kssfs_read_file}
use korolev.Kssfs.Cache.{loaded, loaded-loaded, IsCached, holds, kssfs_read_cluster_lem}

-- The memory behind the cluster in the buffer.
abbrev pub outside : Mem → Mem
outside m p = m (8192 + p)

module _ (disk : Disk) (lba dest filename : ℕ) where
  -- The name of the cluster `j` on the disk compares equal.
  abbrev pub named : Mem → ℕ → Bool
  named m j = strncmp (loaded disk lba j m) 6 filename 256 == 0

  -- The memory with the data of the cluster that `t` holds at `dest`.
  abbrev pub with_data : Mem → Mem → Mem
  with_data t m p = if within dest (word_at t 4) p then t (512 + (p - dest)) else m p

  -- What is read: the data of the first cluster with the name.
  abbrev pub answer : Mem → Option ℕ → ℕ × Mem
  answer m none = (0, m)
  answer m (some j) = (1, with_data (loaded disk lba j m) m)

  -- The clusters `i` to `i + n - 1` are looked through.
  abbrev pub lookup_file : (n i : ℕ) → Mem → ℕ × Mem
  lookup_file n i m = answer m (first_index (named m) n i)

  named-loaded : (l : ℕ) (m : Mem) → named (loaded disk lba l m) ≡ named m
  named-loaded l m =
      fun_ext (λ j. ap (λ t. strncmp t 6 filename 256 == 0) (loaded-loaded disk lba j l m))

  answer-loaded :
      (l : ℕ) (m : Mem) (r : Option ℕ)
      → ((answer (loaded disk lba l m) r).0 ≡ (answer m r).0)
        × (outside (answer (loaded disk lba l m) r).1 ≡ outside (answer m r).1)
  answer-loaded l m none = (refl, fun_ext (λ p. ground arith))
  answer-loaded l m (some j) = (
    refl,
    ap (λ t. outside (with_data t (loaded disk lba l m))) (loaded-loaded disk lba j l m)
        ∙ same (loaded disk lba j m),
  )
    where
      same : (t : Mem) → outside (with_data t (loaded disk lba l m)) ≡ outside (with_data t m)
      same t = fun_ext (λ p. ground arith)

  -- The result, and the memory behind the cluster in the buffer, are those of the reference.
  abbrev pub Reads : (n i : ℕ) → Mem → ℕ × Kssfs → Type 0
  Reads n i m r =
      (r.0 ≡ (lookup_file n i m).0)
      × (outside (r.1.mem) ≡ outside (lookup_file n i m).1)
      × IsCached disk (r.1)

  Reads-loaded :
      (n i l : ℕ) (m : Mem) (r : ℕ × Kssfs) → Reads n i (loaded disk lba l m) r → Reads n i m r
  Reads-loaded n i l m r (e, f, c) =
      let tests = ap (λ t. answer (loaded disk lba l m) (first_index t n i)) (named-loaded l m) in
      let same = answer-loaded l m (first_index (named m) n i) in
      (
        e ∙ ap (λ (t : ℕ × Mem). t.0) tests ∙ same.0,
        f ∙ ap (λ (t : ℕ × Mem). outside (t.1)) tests ∙ same.1,
        c,
      )

  -- The copy that kssfs_read_file makes of the cluster in the buffer.
  module _ (far : 66048 ≤ dest) where
    word-lt : (t : Mem) (p : ℕ) → word_at t p < 65536
    word-lt t p = omega arith

    copy-with_data : (t : Mem) → (memcpy dest 512 (word_at t 4) t).1 ≡ with_data t t
    copy-with_data t =
        fun_ext (λ p. (memcpy_lem dest 512 (word_at t 4) t (inr (omega (arith, word-lt t 4)))).1 p)

    loaded-copy :
        (i : ℕ) (m : Mem)
        → let t = loaded disk lba i m in loaded disk lba i (with_data t t) ≡ with_data t t
    loaded-copy i m = fun_ext (λ p. ground arith)

module _ (disk : Disk) (sound : (lba : ℕ) → disk.broken lba ≡ false) (dest filename : ℕ)
    (far : 66048 ≤ dest) where
  file_loop-Reads :
      (n i : ℕ) (k : Kssfs)
      → IsCached disk k
      → k.lba ≢ 0
      → i + n ≤ k.cluster_n
      → k.cluster_n < 2 ^ 32
      → Reads disk (k.lba) dest filename n i (k.mem) (file_loop disk n i dest filename k)
  unfolding file_loop first_index
  file_loop-Reads zero i k c on inside small = (refl, refl, c)
  file_loop-Reads (suc n) i k c on inside small =
      let t = loaded disk (k.lba) i (k.mem) in
      let k' : Kssfs = record k { mem = t; clstr_index = i } in
      let c' : IsCached disk k' = holds (loaded-loaded disk (k.lba) i i (k.mem)) in
      let next =
        Reads-loaded disk (k.lba) dest filename n (i + 1) i (k.mem) _
          (file_loop-Reads n (i + 1) k' c' on (omega arith) small) in
      let read = kssfs_read_cluster_lem disk sound i k c on (omega arith) (omega arith) in
      rw read (elim (Bool-cases (strncmp t 6 filename 256 == 0)) [
        | inl equal ↦
            rw (equal, copy-with_data disk (k.lba) dest filename far t)
              (
                refl,
                fun_ext (λ p. ground arith),
                holds (loaded-copy disk (k.lba) dest filename far i (k.mem)),
              )
        | inr differ ↦ rw differ next
      ])

  -- On a disk that can be read, with a file system that is set up and a destination behind what the
  -- buffer and a length can reach, kssfs_read_file does what a search of the disk without a buffer
  -- does: it returns 1 and copies the data of the first cluster with the name to the destination, or
  -- it returns 0 and changes nothing behind the cluster in the buffer; and it keeps the buffer true to
  -- the disk.
  pub kssfs_read_file_lem :
      (k : Kssfs)
      → IsCached disk k
      → k.lba ≢ 0
      → k.cluster_n < 2 ^ 32
      → let r = kssfs_read_file disk dest filename k in
        let s = lookup_file disk (k.lba) dest filename (k.cluster_n) 0 (k.mem) in
        (r.0 ≡ s.0) × (outside (r.1.mem) ≡ outside s.1) × IsCached disk (r.1)
  unfolding kssfs_read_file
  kssfs_read_file_lem k c on small =
      let on' : (k.lba == 0) ≡ false = ground arith in
      rw on' (file_loop-Reads (k.cluster_n) 0 k c on (omega arith) small)

-- Without a file system nothing is read.
pub kssfs_read_file_off :
    (disk : Disk) (dest filename : ℕ) (k : Kssfs)
    → (k.lba == 0) ≡ true
    → (kssfs_read_file disk dest filename k).0 ≡ 0
unfolding kssfs_read_file
kssfs_read_file_off disk dest filename k off = rw off refl
