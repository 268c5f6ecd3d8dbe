-- ===== src/Fuse/Listing.antt =====
-- Attributes and names of the files of an image: getattr, fgetattr and readdir of
-- tools/kssfs_fuse.c.
use korolev.Prelude.{
  ℕ, zero, suc, ◌+◌, ◌≤◌, ◌≡◌, refl, ap, ◌∙◌, not, none, some, ltb, ◌==◌, if◌then◌else◌, arith,
  Bool-cases, inl, inr, List, [], ◌∷◌,
}
use mathlib.Core.Path.{fun_ext}
use korolev.Mem.{Mem}
use korolev.Fuse.{
  Tool, Reply, done, failed, enoent, search_loop, is_named, is_root, chdr_type, chdr_len, chdr_uid,
  chdr_gid, chdr_filename, kssfs_read_cluster,
}
use korolev.Fuse.Clusters.{IsWhole, loaded, outside-loaded, loaded-outside, read_cluster-loaded}

pub record Stat : Type 0 where
  pub st_mode : ℕ
  pub st_uid : ℕ
  pub st_gid : ℕ
  pub st_nlink : ℕ
  pub st_size : ℕ
  pub st_mtime : ℕ
  pub st_atime : ℕ
  pub st_ctime : ℕ

abbrev pub no_stat : Stat
no_stat = record {
  st_mode = 0;
  st_uid = 0;
  st_gid = 0;
  st_nlink = 0;
  st_size = 0;
  st_mtime = 0;
  st_atime = 0;
  st_ctime = 0;
}

-- `getuid()`, `getgid()` and `time(NULL)` are parameters.
pub kssfs_getattr : (uid gid now path : ℕ) → Tool → Reply × Stat × Tool
kssfs_getattr uid gid now path t =
    let found = search_loop (is_named path) (t.cluster_n) 0 t in
    if is_root (t.mem) path
    then (done 0, record no_stat { st_mode = 0x41ed; st_uid = uid; st_gid = gid; st_nlink = 2 }, t)
    else elim (found.0) as (λ _. Reply × Stat × Tool) [
      | none ↦ (failed enoent, no_stat, found.1)
      | some i ↦ (
        done 0,
        record {
          st_mode = 0x81ed;
          st_uid = chdr_uid (found.1.mem);
          st_gid = chdr_gid (found.1.mem);
          st_nlink = 0;
          st_size = chdr_len (found.1.mem);
          st_mtime = now;
          st_atime = now;
          st_ctime = now;
        },
        found.1,
      )
    ]

pub kssfs_fgetattr : (uid gid now path : ℕ) → Tool → Reply × Stat × Tool
unfolding kssfs_getattr
kssfs_fgetattr uid gid now path t = kssfs_getattr uid gid now path t

-- A text as `filler` sees it, from its first character on. `filler` is a parameter, which changes a
-- state of its own.
abbrev pub text_of : Mem → ℕ → Mem
text_of m a p = m (a + p)

abbrev pub dot : Mem
dot p = if p == 0 then b'.' else 0

abbrev pub dot_dot : Mem
dot_dot p = if ltb p 2 then b'.' else 0

module _ {S : Type 0} (filler : Mem → S → S) where
  -- The loop over the clusters, over the rounds left.
  list_loop : (n i : ℕ) → Tool → S → Tool × S
  list_loop zero i t s = (t, s)
  list_loop (suc n) i t s =
      let t' = kssfs_read_cluster i t in
      let s' =
        if not (chdr_type (t'.mem) == 0) then filler (text_of (t'.mem) chdr_filename) s else s in
      list_loop n (i + 1) t' s'

  pub kssfs_readdir : ℕ → Tool → S → Reply × Tool × S
  kssfs_readdir path t s =
      let (t', s') = list_loop (t.cluster_n) 0 t (filler dot_dot (filler dot s)) in
      if not (is_root (t.mem) path) then (failed enoent, t, s) else (done 0, t', s')

-- The names in those of the clusters `i` to `i + n - 1` that are not free, in their order.
abbrev pub names : (ℕ → Mem) → (n i : ℕ) → List Mem
names clusters zero i = []
names clusters (suc n) i =
    if not (chdr_type (clusters i) == 0)
    then text_of (clusters i) chdr_filename ∷ names clusters n (i + 1)
    else names clusters n (i + 1)

-- The clusters of an image.
abbrev pub clusters_of : Tool → ℕ → Mem
clusters_of t j = loaded (t.image) j (t.mem)

module _ {S : Type 0} (filler : Mem → S → S) where
  -- `filler` called for each text in turn.
  abbrev pub fill : List Mem → S → S
  fill [] s = s
  fill (x ∷ xs) s = fill xs (filler x s)

  list_loop-fill :
      (n i : ℕ) (t : Tool) (s : S)
      → IsWhole t
      → i + n ≤ t.cluster_n
      → ((list_loop filler n i t s).1 ≡ fill (names (clusters_of t) n i) s)
        × ((list_loop filler n i t s).0.image ≡ t.image)
  unfolding list_loop
  list_loop-fill zero i t s w h = (refl, refl)
  list_loop-fill (suc n) i t s w h =
      let l = loaded (t.image) i (t.mem) in
      let t' : Tool = record t { mem = l } in
      let w' : IsWhole t' = record { whole = w.whole; small = w.small } in
      let out = outside-loaded (t.image) i (t.mem) in
      let same : clusters_of t' ≡ clusters_of t =
        fun_ext (λ j. loaded-outside (t.image) j l (t.mem) out) in
      let next : (s' : S)
          → ((list_loop filler n (i + 1) t' s').1 ≡ fill (names (clusters_of t) n (i + 1)) s')
            × ((list_loop filler n (i + 1) t' s').0.image ≡ t.image) =
        λ s'.
          let r = list_loop-fill n (i + 1) t' s' w' (omega arith) in
          (r.0 ∙ ap (λ c. fill (names c n (i + 1)) s') same, r.1) in
      rw (read_cluster-loaded w i (omega arith), list_loop)
        (elim (Bool-cases (chdr_type l == 0)) [
          | inl free ↦ rw (free, list_loop) (next s)
          | inr used ↦ rw (used, list_loop) (next (filler (text_of l 6) s))
        ])

  -- On an image that holds all its clusters, kssfs_readdir of the root gives FUSE the two dots and then
  -- the name of every cluster that is not free, in the order of the clusters; of any other path it
  -- gives nothing and answers ENOENT. It never changes the image.
  pub kssfs_readdir_lem :
      (path : ℕ) (t : Tool) (s : S)
      → IsWhole t
      → let (r, t', s') = kssfs_readdir filler path t s in
        (r ≡ (if is_root (t.mem) path then done 0 else failed enoent))
        × (s' ≡ (
            if is_root (t.mem) path
            then fill (dot ∷ dot_dot ∷ names (clusters_of t) (t.cluster_n) 0) s
            else s))
        × (t'.image ≡ t.image)
  unfolding kssfs_readdir
  kssfs_readdir_lem path t s w =
      let loop = list_loop-fill (t.cluster_n) 0 t (filler dot_dot (filler dot s)) w (omega arith) in
      elim (Bool-cases (is_root (t.mem) path)) [
        | inl root ↦ rw root (refl, loop.0, loop.1)
        | inr other ↦ rw other (refl, refl, refl)
      ]
