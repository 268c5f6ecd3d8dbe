-- ===== src/Fuse/Names.antt =====
-- Removing and renaming the files of an image.
use korolev.Prelude.{
  ℕ, suc, ◌+◌, ◌-◌, ◌*◌, ◌≤◌, ◌≡◌, ◌≢◌, refl, ap, ◌∙◌, false, Option, none, some, arith,
}
use mathlib.Core.Path.{fun_ext}
use korolev.Prelude.Slots.{first_index, first_index-some}
use korolev.Mem.{Mem}
use korolev.Libc.{kmemset, strncpy}
use korolev.Libc.Copy.{kmemset_lem}
use korolev.Fuse.{
  Image, Tool, Reply, done, failed, enoent, same_text, is_victim, is_file, kssfs_write_cluster,
  kssfs_unlink, kssfs_rename,
}
use korolev.Fuse.Files.{file_at}
use korolev.Fuse.Clusters.{
  IsWhole, loaded, with_cluster, passing, Searched, missed, hit, search_loop-Searched,
  write_cluster-with_cluster,
}

-- The answer and the image afterwards.
abbrev pub effect : Reply × Tool → Reply × Image
effect (r, t) = (r, t.image)

-- The first cluster that kssfs_unlink takes for the path.
abbrev pub victim_at : ℕ → Tool → Option ℕ
victim_at path t = first_index (passing (is_victim path) t) (t.cluster_n) 0

abbrev pub unlink_answer : Tool → Option ℕ → Reply × Image
unlink_answer t none = (failed enoent, t.image)
unlink_answer t (some j) = (done 0, with_cluster (t.image) j (λ p. 0))

with_cluster-zero :
    (img : Image) (j : ℕ) (m : Mem)
    → with_cluster img j (kmemset 0 0 8192 m).1 ≡ with_cluster img j (λ p. 0)
with_cluster-zero img j m =
    ap (λ (f : ℕ → ℕ). record img { byte = f })
      (fun_ext (λ q. ground (arith, (kmemset_lem 0 0 8192 m).1 (q - (512 + j * 8192)))))

module _ (path : ℕ) (t : Tool) (w : IsWhole t) where
  -- On an image that holds all its clusters, kssfs_unlink fills the first cluster that is not free and
  -- whose name is the whole path with zeros and changes nothing else in the image; if there is none, it
  -- answers ENOENT and leaves the image alone.
  pub kssfs_unlink_lem : effect (kssfs_unlink path t) ≡ unlink_answer t (victim_at path t)
  unfolding kssfs_unlink
  kssfs_unlink_lem = go (search_loop-Searched (is_victim path) (t.cluster_n) 0 t w (omega arith))
    where
      go :
          {r : Option ℕ × Tool}
          → Searched (is_victim path) t (t.cluster_n) 0 r
          → effect (elim (r.0) as (λ _. Reply × Tool) [
            | none ↦ (failed enoent, r.1)
            | some i ↦ (
              done 0,
              kssfs_write_cluster i (record (r.1) { mem = (kmemset 0 0 8192 (r.1.mem)).1 }),
            )
          ])
            ≡ unlink_answer t (victim_at path t)
      go (missed m out first) = rw first refl
      go (hit j inside first) =
          let l = loaded (t.image) j (t.mem) in
          rw first (
            ap (λ (t' : Tool). effect (done 0, t')) (write_cluster-with_cluster w j (omega arith) _)
            ∙ ap (λ (img : Image). (done 0, img)) (with_cluster-zero (t.image) j l))

  -- On an image that holds all its clusters, kssfs_rename succeeds exactly when there is a file with the
  -- old name, and never changes the image.
  pub kssfs_rename_lem :
      (dst : ℕ)
      → effect (kssfs_rename path dst t) ≡ (
        elim (file_at path t) as (λ _. Reply) [ none ↦ failed enoent | some j ↦ done 0 ],
        t.image,
      )
  unfolding kssfs_rename
  kssfs_rename_lem dst = go (search_loop-Searched (is_file path) (t.cluster_n) 0 t w (omega arith))
    where
      go :
          {r : Option ℕ × Tool}
          → Searched (is_file path) t (t.cluster_n) 0 r
          → effect (elim (r.0) as (λ _. Reply × Tool) [
            | none ↦ (failed enoent, r.1)
            | some i ↦ (done 0, record (r.1) { mem = (strncpy 6 (dst + 1) 256 (r.1.mem)).1 })
          ])
            ≡ (
              elim (file_at path t) as (λ _. Reply) [ none ↦ failed enoent | some j ↦ done 0 ],
              t.image,
            )
      go (missed m out first) = rw first refl
      go (hit j inside first) = rw first refl

same_text-first : (m : Mem) (a b n : ℕ) → m a ≢ m b → same_text m a b (suc n) ≡ false
unfolding same_text
same_text-first m a b n ne = ground arith

-- On an image that holds all its clusters and in which no name begins with a slash, kssfs_unlink of a
-- path that begins with a slash answers ENOENT and leaves the image alone.
pub kssfs_unlink_slash :
    (path : ℕ) (t : Tool)
    → IsWhole t
    → 8192 ≤ path
    → t.mem path ≡ b'/'
    → ((j : ℕ) → t.image.byte (512 + j * 8192 + 6) ≢ b'/')
    → effect (kssfs_unlink path t) ≡ (failed enoent, t.image)
kssfs_unlink_slash path t w far slash bare = kssfs_unlink_lem path t w ∙ go (victim_at path t) refl
  where
    go : (r : Option ℕ) → victim_at path t ≡ r → unlink_answer t r ≡ (failed enoent, t.image)
    go none e = refl
    go (some j) e =
        let found = first_index-some (passing (is_victim path) t) (t.cluster_n) 0 e in
        let l = loaded (t.image) j (t.mem) in
        let differ : l path ≢ l 6 = λ q. bare j (ground arith) in
        let never = same_text-first l path 6 255 differ in absurd (ground (arith, found.2))
