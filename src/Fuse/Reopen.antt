-- ===== src/Fuse/Reopen.antt =====
-- A file that was opened is found again.
use korolev.Prelude.{
  ℕ, zero, suc, ◌+◌, ◌-◌, ◌≤◌, ◌<◌, ◌≡◌, ◌≢◌, refl, ap, sym, ◌∙◌, Bool, true, Option, none, some,
  ltb, ◌==◌, if◌then◌else◌, arith, Bool-cases, inl, inr,
}
use mathlib.Core.Path.{fun_ext, subst}
use korolev.Prelude.Slots.{first_index, first_index-only, first_index-some}
use korolev.Mem.{Mem}
use korolev.Libc.{strncpy}
use korolev.Libc.Copy.{strnlen, strnlen-agree}
use korolev.Fuse.{
  Image, Tool, Reply, done, failed, enospc, kssfs_write_cluster, same_text, is_file, is_free,
  set_type, kssfs_create, kssfs_open,
}
use korolev.Fuse.Clusters.{
  IsWhole, loaded, with_cluster, outside, outside-loaded, loaded-with_cluster_self,
  loaded-with_cluster_ne, passing, passing-outside, Searched, missed, hit, search_loop-Searched,
  write_cluster-with_cluster,
}
use korolev.Fuse.Files.{
  new_file, strncpy-new_file, open_answer, seen, file_at, free_at, kssfs_open_lem,
}

-- A text that strncpy copied compares equal to its source.
same_text-copied :
    (n a b : ℕ) (m : Mem)
    → ((i : ℕ) → i < n → m (b + i) ≡ (if ltb i (strnlen m a n) then m (a + i) else 0))
    → same_text m a b n ≡ true
unfolding same_text strnlen
same_text-copied zero a b m h = refl
same_text-copied (suc n) a b m h = elim (Bool-cases (m a == 0)) [
  | inl end ↦ ground (arith, h 0)
  | inr more ↦
      let later : (i : ℕ)
          → i < n
          → m (b + 1 + i) ≡ (if ltb i (strnlen m (a + 1) n) then m (a + 1 + i) else 0) =
        λ i lt.
          let e : b + 1 + i ≡ b + (i + 1) = omega arith in
          let f : a + 1 + i ≡ a + (i + 1) = omega arith in
          let hi = h (i + 1) (omega arith) in rw (e, f) (ground arith) in
      ground (arith, h 0, same_text-copied n (a + 1) (b + 1) m later)
]

-- Opening keeps the memory behind the buffer, and the measures of the image.
record Kept (t t' : Tool) : Type 0 where
  out : outside (t'.mem) ≡ outside (t.mem)
  count : t'.cluster_n ≡ t.cluster_n
  size : t'.image.size ≡ t.image.size

Kept-IsWhole : {t t' : Tool} → Kept t t' → IsWhole t → IsWhole t'
Kept-IsWhole k w = record {
  whole = omega (arith, k.count, k.size, w.whole);
  small = omega (arith, k.count, w.small);
}

module _ (path fh : ℕ) (far : 8192 ≤ path) where
  outside-new_file : (m : Mem) → outside (new_file path m) ≡ outside m
  outside-new_file m = fun_ext (λ p. ground arith)

  create-Kept : (t : Tool) → IsWhole t → Kept t (kssfs_create path fh t).2
  unfolding kssfs_create
  create-Kept t w = go (search_loop-Searched is_free (t.cluster_n) 0 t w (omega arith))
    where
      go :
          {r : Option ℕ × Tool}
          → Searched is_free t (t.cluster_n) 0 r
          → Kept t
              (elim (r.0) as (λ _. Reply × ℕ × Tool) [
                | none ↦ (failed enospc, fh, r.1)
                | some i ↦ (
                  done 0,
                  i,
                  kssfs_write_cluster i
                      (record (r.1) { mem = (strncpy 6 (path + 1) 256 (set_type 1 (r.1.mem))).1 }),
                )
              ]).2
      go (missed m out first) = record { out = out; count = refl; size = refl }
      go (hit j inside first) =
          let l = loaded (t.image) j (t.mem) in
          subst (λ (m : Mem). Kept t (kssfs_write_cluster j (record t { mem = m })))
            (sym (strncpy-new_file path l far))
            (subst (Kept t) (sym (write_cluster-with_cluster w j (omega arith) (new_file path l)))
              (record {
                out = outside-new_file l ∙ outside-loaded (t.image) j (t.mem);
                count = refl;
                size = refl;
              }))

  open-Kept : (t : Tool) → IsWhole t → Kept t (kssfs_open path fh t).2
  unfolding kssfs_open
  open-Kept t w = go (search_loop-Searched (is_file path) (t.cluster_n) 0 t w (omega arith))
    where
      go :
          {r : Option ℕ × Tool}
          → Searched (is_file path) t (t.cluster_n) 0 r
          → Kept t
              (elim (r.0) as (λ _. Reply × ℕ × Tool) [
                | none ↦ kssfs_create path fh (r.1)
                | some i ↦ (done 0, i, r.1)
              ]).2
      go (missed m out first) =
          let t' : Tool = record t { mem = m } in
          let w' : IsWhole t' = record { whole = w.whole; small = w.small } in
          let k = create-Kept t' w' in record { out = k.out ∙ out; count = k.count; size = k.size }
      go (hit j inside first) = record {
        out = outside-loaded (t.image) j (t.mem);
        count = refl;
        size = refl;
      }

  far_byte : (m m' : Mem) → outside m ≡ outside m' → (q : ℕ) → 8192 ≤ q → m q ≡ m' q
  far_byte m m' e q h =
      let at_q = ap (λ (f : Mem). f (q - 8192)) e in
      let r : 8192 + (q - 8192) ≡ q = omega arith in rw r at at_q

  -- A new file has its name.
  new_file-is_file :
      (l m : Mem)
      → outside m ≡ outside l
      → is_file path (λ p. if ltb p 8192 then new_file path l p else m p) ≡ true
  new_file-is_file l m e =
      let mixed : Mem = λ p. if ltb p 8192 then new_file path l p else m p in
      let far_eq : (i : ℕ) → mixed (path + 1 + i) ≡ l (path + 1 + i) =
        λ i. let b = far_byte m l e (path + 1 + i) (omega arith) in ground arith in
      let len = strnlen-agree 256 (path + 1) (path + 1) mixed l (λ i lt. far_eq i) in
      same_text-copied 256 (path + 1) 6 mixed (λ i lt.
        let b = far_eq i in
        let d : 6 + i - 6 ≡ i = omega arith in
        rw len (ground (arith, ap (λ k. l (path + 1 + k)) d)))

  reopens :
      {t t' : Tool} {h : ℕ} (k : Kept t t') (file free : Option ℕ)
      → file_at path t ≡ file
      → free_at t ≡ free
      → (done 0, h, t'.image) ≡ open_answer path fh t file free
      → file_at path t' ≡ some h
  reopens {t} {t'} {h} k (some j) free a b e =
      let image : t'.image ≡ t.image = ap (λ (s : Reply × ℕ × Image). s.2) e in
      let same : some j ≡ some h = ap (λ (s : Reply × ℕ × Image). some (s.1)) (sym e) in
      ap (λ img. first_index (λ l. is_file path (loaded img l (t'.mem))) (t'.cluster_n) 0) image
      ∙ ap (λ n. first_index (λ l. is_file path (loaded (t.image) l (t'.mem))) n 0) (k.count)
      ∙ ap (λ f. first_index f (t.cluster_n) 0) (passing-outside (is_file path) t (t'.mem) (k.out))
      ∙ a
      ∙ same
  reopens {t} {t'} {h} k none (some j) a b e =
      let l = loaded (t.image) j (t.mem) in
      let image : t'.image ≡ with_cluster (t.image) j (new_file path l) =
        ap (λ (s : Reply × ℕ × Image). s.2) e in
      let same : some j ≡ some h = ap (λ (s : Reply × ℕ × Image). some (s.1)) (sym e) in
      let g : ℕ → Bool =
        λ i. is_file path (loaded (with_cluster (t.image) j (new_file path l)) i (t'.mem)) in
      let here : g j ≡ true =
        ap (is_file path) (loaded-with_cluster_self (t.image) j (new_file path l) (t'.mem))
        ∙ new_file-is_file l (t'.mem) (k.out ∙ sym (outside-loaded (t.image) j (t.mem))) in
      let others : (i : ℕ) → i ≢ j → g i ≡ passing (is_file path) t i = λ i ne.
        ap (is_file path)
          (loaded-with_cluster_ne (t.image) j i (new_file path l) (t'.mem) (λ q. ne (sym q)))
        ∙ ap (λ f. f i) (passing-outside (is_file path) t (t'.mem) (k.out)) in
      let bounds = first_index-some (passing is_free t) (t.cluster_n) 0 b in
      ap (λ img. first_index (λ i. is_file path (loaded img i (t'.mem))) (t'.cluster_n) 0) image
      ∙ ap (λ n. first_index g n 0) (k.count)
      ∙ first_index-only (passing (is_file path) t) g j (t.cluster_n) 0 others here (bounds.0)
          (bounds.1) a
      ∙ same
  reopens k none none a b e =
      let r : done 0 ≡ failed enospc = ap (λ (s : Reply × ℕ × Image). s.0) e in absurd (cc)

  -- On an image that holds all its clusters, and for a path that stands outside the buffer: when
  -- kssfs_open succeeds, whether it finds the file or makes it, opening the path again succeeds, gives
  -- the same handle, and leaves the image alone.
  pub kssfs_open_again :
      (fh' : ℕ) (t : Tool)
      → IsWhole t
      → (kssfs_open path fh t).0 ≡ done 0
      → let (r, h, t') = kssfs_open path fh t in
        seen (kssfs_open path fh' t') ≡ (done 0, h, t'.image)
  kssfs_open_again fh' t w success =
      let o = kssfs_open path fh t in
      let k = open-Kept t w in
      let h = o.1 in
      let t' = o.2 in
      let answer = kssfs_open_lem path fh far t w in
      let found =
        reopens {h = h} k (file_at path t) (free_at t) refl refl
          (ap (λ (r : Reply). (r, h, t'.image)) (sym success) ∙ answer) in
      kssfs_open_lem path fh' far t' (Kept-IsWhole k w)
      ∙ ap (λ (f : Option ℕ). open_answer path fh' t' f (free_at t')) found
