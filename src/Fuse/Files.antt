-- ===== src/Fuse/Files.antt =====
-- Opening and creating the files of an image, against what the clusters say.
use korolev.Prelude.{
  ℕ, ◌+◌, ◌≤◌, ◌≡◌, refl, ap, ◌∙◌, Option, none, some, ltb, ◌==◌, if◌then◌else◌, arith, inl,
}
use mathlib.Core.Path.{fun_ext}
use korolev.Prelude.Slots.{first_index}
use korolev.Mem.{Mem}
use korolev.Libc.{strncpy}
use korolev.Libc.Copy.{strncpy_lem, strnlen, strnlen-store, copied}
use korolev.Fuse.{
  Image, Tool, Reply, done, failed, enospc, kssfs_write_cluster, is_file, is_free, set_type,
  kssfs_create, kssfs_open,
}
use korolev.Fuse.Clusters.{
  IsWhole, loaded, with_cluster, outside, loaded-outside, passing, Searched, missed, hit,
  search_loop-Searched, write_cluster-with_cluster,
}

-- The cluster of a file that is new: of the type 1, with the name behind the first character of the
-- path, filled with zeros; the rest is what the cluster held.
abbrev pub new_file : ℕ → Mem → Mem
new_file path m p = if ltb p 4 then (if p == 0 then 1 else 0) else copied 6 (path + 1) 256 m p

strnlen-set_type :
    (path : ℕ) (m : Mem) (v : ℕ)
    → 8192 ≤ path
    → strnlen (set_type v m) (path + 1) 256 ≡ strnlen m (path + 1) 256
strnlen-set_type path m v far =
    strnlen-store 256 (path + 1) _ 3 _ (ground arith)
    ∙ strnlen-store 256 (path + 1) _ 2 _ (ground arith)
    ∙ strnlen-store 256 (path + 1) _ 1 _ (ground arith)
    ∙ strnlen-store 256 (path + 1) m 0 _ (ground arith)

pub strncpy-new_file :
    (path : ℕ) (m : Mem)
    → 8192 ≤ path
    → (strncpy 6 (path + 1) 256 (set_type 1 m)).1 ≡ new_file path m
strncpy-new_file path m far = fun_ext (λ p.
    (strncpy_lem 6 (path + 1) 256 (set_type 1 m) (inl (omega arith))).1 p
    ∙ rw (strnlen-set_type path m 1 far) (ground arith))

-- The answer, the handle and the image afterwards, by the first file with the name and the first
-- cluster that is free.
abbrev pub open_answer : (path fh : ℕ) → Tool → Option ℕ → Option ℕ → Reply × ℕ × Image
open_answer path fh t (some j) free = (done 0, j, t.image)
open_answer path fh t none (some j) =
    (done 0, j, with_cluster (t.image) j (new_file path (loaded (t.image) j (t.mem))))
open_answer path fh t none none = (failed enospc, fh, t.image)

-- What is seen of the tool from outside.
abbrev pub seen : Reply × ℕ × Tool → Reply × ℕ × Image
seen (r, h, t) = (r, h, t.image)

-- The first file with the name of the path, and the first free cluster.
abbrev pub file_at : ℕ → Tool → Option ℕ
file_at path t = first_index (passing (is_file path) t) (t.cluster_n) 0

abbrev pub free_at : Tool → Option ℕ
free_at t = first_index (passing is_free t) (t.cluster_n) 0

module _ (path fh : ℕ) (far : 8192 ≤ path) where
  create-seen :
      (t : Tool)
      → IsWhole t
      → seen (kssfs_create path fh t) ≡ open_answer path fh t none (free_at t)
  unfolding kssfs_create
  create-seen t w = go (search_loop-Searched is_free (t.cluster_n) 0 t w (omega arith))
    where
      go :
          {r : Option ℕ × Tool}
          → Searched is_free t (t.cluster_n) 0 r
          → seen (elim (r.0) as (λ _. Reply × ℕ × Tool) [
            | none ↦ (failed enospc, fh, r.1)
            | some i ↦ (
              done 0,
              i,
              kssfs_write_cluster i
                  (record (r.1) { mem = (strncpy 6 (path + 1) 256 (set_type 1 (r.1.mem))).1 }),
            )
          ])
            ≡ open_answer path fh t none (free_at t)
      go (missed m out first) = rw first refl
      go (hit j inside first) = rw first (
          ap (λ (m : Mem). seen (done 0, j, kssfs_write_cluster j (record t { mem = m })))
            (strncpy-new_file path (loaded (t.image) j (t.mem)) far)
          ∙ ap (λ (t' : Tool). seen (done 0, j, t'))
              (write_cluster-with_cluster w j (omega arith) _))

  answer-outside :
      (t : Tool) (m : Mem)
      → outside m ≡ outside (t.mem)
      → (r : Option ℕ)
      → open_answer path fh (record t { mem = m }) none r ≡ open_answer path fh t none r
  answer-outside t m out none = refl
  answer-outside t m out (some j) =
      ap (λ (l : Mem). (done 0, j, with_cluster (t.image) j (new_file path l)))
        (loaded-outside (t.image) j m (t.mem) out)

  -- On an image that holds all its clusters, and for a path that stands outside the buffer, kssfs_open
  -- gives the first file with the name of the path and leaves the image alone; if there is none, it
  -- makes such a file in the first free cluster and changes nothing else in the image; and if no
  -- cluster is free either, it answers ENOSPC and leaves the image alone.
  pub kssfs_open_lem :
      (t : Tool)
      → IsWhole t
      → seen (kssfs_open path fh t) ≡ open_answer path fh t (file_at path t) (free_at t)
  unfolding kssfs_open
  kssfs_open_lem t w = go (search_loop-Searched (is_file path) (t.cluster_n) 0 t w (omega arith))
    where
      go :
          {r : Option ℕ × Tool}
          → Searched (is_file path) t (t.cluster_n) 0 r
          → seen (elim (r.0) as (λ _. Reply × ℕ × Tool) [
            | none ↦ kssfs_create path fh (r.1)
            | some i ↦ (done 0, i, r.1)
          ])
            ≡ open_answer path fh t (file_at path t) (free_at t)
      go (missed m out first) =
          let w' : IsWhole (record t { mem = m }) = record { whole = w.whole; small = w.small } in
          create-seen (record t { mem = m }) w' ∙ answer-outside t m out (free_at t) ∙ rw first refl
      go (hit j inside first) = rw first refl
