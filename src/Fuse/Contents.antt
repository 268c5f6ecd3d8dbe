-- ===== src/Fuse/Contents.antt =====
-- The bytes of the files of an image: writing and reading.
use korolev.Prelude.{
  ℕ, ◌+◌, ◌-◌, ◌/◌, ◌%◌, ◌^◌, ◌≤◌, ◌<◌, ◌≡◌, refl, ap, ◌∙◌, ◌==◌, if◌then◌else◌, arith, inl, inr,
}
use mathlib.Core.Path.{fun_ext}
use korolev.Mem.{Mem, within}
use korolev.Libc.{memcpy}
use korolev.Libc.Copy.{memcpy_lem}
use korolev.Fuse.{
  Tool, done, fitting, kssfs_read, kssfs_write, set_len, chdr_len, kssfs_write_cluster,
}
use korolev.Fuse.Clusters.{
  IsWhole, loaded, with_cluster, loaded-with_cluster_self, read_cluster-loaded,
  write_cluster-with_cluster,
}

-- A range that ends inside a cluster fits.
fitting-inside : (size offset : ℕ) → offset + size ≤ 7680 → fitting size offset ≡ size
unfolding fitting
fitting-inside size offset h = ground arith

-- The cluster that `l` holds, with `size` bytes from `src` on at `offset` of its data, and the length
-- that this gives.
abbrev pub written : (src size offset : ℕ) → Mem → Mem
written src size offset l p =
    if within (512 + offset) size p
    then l (src + (p - (512 + offset)))
    else if p == 4
    then (offset + size) % 256
    else if p == 5
    then (offset + size) / 2 ^ 8 % 256
    else l p

module _ (src size offset fh : ℕ) (inside : offset + size ≤ 7680) (far : 8192 ≤ src) where
  set_len-written :
      (l : Mem)
      → set_len (offset + fitting size offset) (memcpy (512 + offset) src size l).1
        ≡ written src size offset l
  set_len-written l = fun_ext (λ p.
      let copy = (memcpy_lem (512 + offset) src size l (inl (omega arith))).1 p in
      rw (fitting-inside size offset inside) (ground arith))

  pub write-written :
      (t : Tool)
      → IsWhole t
      → fh < t.cluster_n
      → let w = written src size offset (loaded (t.image) fh (t.mem)) in
        kssfs_write src size offset fh t
        ≡ (done size, record t { image = with_cluster (t.image) fh w; mem = w })
  unfolding kssfs_write
  write-written t whole known =
      let l = loaded (t.image) fh (t.mem) in
      let fits = fitting-inside size offset inside in
      rw (read_cluster-loaded whole fh known) (
        ap
          (λ (m : Mem). (done (fitting size offset), kssfs_write_cluster fh (record t { mem = m })))
          (set_len-written l)
        ∙ ap
            (λ (n : ℕ).
              (done n, kssfs_write_cluster fh (record t { mem = written src size offset l })))
            fits
        ∙ ap (λ (t' : Tool). (done size, t'))
            (write_cluster-with_cluster whole fh known (written src size offset l)))

-- The memory with the `size` bytes at `offset` of the data of the cluster that `l` holds at `dest`.
abbrev pub fetched : (dest size offset : ℕ) → Mem → Mem
fetched dest size offset l p = if within dest size p then l (512 + offset + (p - dest)) else l p

module _ (dest size offset fh : ℕ) (inside : offset + size ≤ 7680) (beyond : 8192 ≤ dest) where
  read-fetched :
      (t : Tool)
      → IsWhole t
      → fh < t.cluster_n
      → kssfs_read dest size offset fh t
        ≡ (done size, record t { mem = fetched dest size offset (loaded (t.image) fh (t.mem)) })
  unfolding kssfs_read
  read-fetched t whole known =
      let l = loaded (t.image) fh (t.mem) in
      let copy = memcpy_lem dest (512 + offset) size l (inr (omega arith)) in
      rw (read_cluster-loaded whole fh known, fitting-inside size offset inside)
        (ap (λ (m : Mem). (done size, record t { mem = m })) (fun_ext (copy.1)))

  -- On an image that holds all its clusters, for a range that ends inside the data of a cluster and
  -- for a source and a destination outside the buffer: kssfs_write takes all the bytes and makes the
  -- file as long as the end of the range, and kssfs_read then gives the same bytes at the destination,
  -- and changes neither the image nor any other byte outside the buffer.
  pub kssfs_write_read :
      (src : ℕ) (t : Tool)
      → 8192 ≤ src
      → IsWhole t
      → fh < t.cluster_n
      → let (r, t') = kssfs_write src size offset fh t in
        let (r', t'') = kssfs_read dest size offset fh t' in
        (r ≡ done size)
        × (r' ≡ done size)
        × (t''.image ≡ t'.image)
        × (chdr_len (t''.mem) ≡ offset + size)
        × ((p : ℕ)
            → t''.mem (8192 + p) ≡ (
                if within dest size (8192 + p)
                then t.mem (src + (8192 + p - dest))
                else t.mem (8192 + p)))
  kssfs_write_read src t far whole known =
      let l = loaded (t.image) fh (t.mem) in
      let w = written src size offset l in
      let img = with_cluster (t.image) fh w in
      let t' : Tool = record t { image = img; mem = w } in
      let whole' : IsWhole t' = record { whole = whole.whole; small = whole.small } in
      let back : loaded img fh w ≡ w =
        loaded-with_cluster_self (t.image) fh w w ∙ fun_ext (λ p. ground arith) in
      let read =
        read-fetched t' whole' known
        ∙ ap (λ (m : Mem). (done size, record t' { mem = fetched dest size offset m })) back in
      let byte : (p : ℕ)
          → fetched dest size offset w (8192 + p) ≡ (
              if within dest size (8192 + p)
              then t.mem (src + (8192 + p - dest))
              else t.mem (8192 + p)) =
        λ p.
          let e : 512 + offset + (8192 + p - dest) - (512 + offset) ≡ 8192 + p - dest =
            omega arith in
          ground (arith, ap (λ k. l (src + k)) e) in
      rw (write-written src size offset fh inside far t whole known, read)
        (refl, refl, refl, ground arith, byte)
