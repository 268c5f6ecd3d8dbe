-- ===== src/Kfs2/Handles.antt =====
-- The handles of the open files.
use korolev.Prelude.{
  ℕ, zero, suc, ◌+◌, ◌<◌, ◌≡◌, refl, true, false, arith, leb, ltb, ◌==◌, if◌then◌else◌, List,
  Option, none, some, length, length-set, get_or, set, get_or-set, get_or-set_self, Bool-cases, inl,
  inr, not,
}
use korolev.Prelude.Slots.{Found, nowhere, at_slot, first_slot-Found}
use mathlib.Core.Path.{subst}
use korolev.Mem.{Mem}
use korolev.Libc.{strncmp}
use korolev.Kfs2.{
  Disk, Kfs2File, closed, Kfs2, is_free, kfs2_read_cluster, beside, long_at, kfs2_type_file,
  open_handle, open_loop, kfs2_open_file, kfs2_close_file,
}

-- What opening does to the handles.
data Opened (handles : List Kfs2File) : Option ℕ × Kfs2 → Type 0 where
  refused : (k' : Kfs2) → k'.handles ≡ handles → Opened handles (none, k')
  opened :
      (j start : ℕ) (k' : Kfs2)
      → j < length handles
      → is_free (get_or handles j closed) ≡ true
      → k'.handles ≡ set handles j (record { flags = 1; startclstr = start })
      → Opened handles (some j, k')

Opened-same :
    {handles handles' : List Kfs2File} {r : Option ℕ × Kfs2}
    → handles' ≡ handles
    → Opened handles' r
    → Opened handles r
Opened-same {r} e t = subst (λ h. Opened h r) e t

module _ (disk : Disk) where
  handles-read_cluster : (n : ℕ) (k : Kfs2) → (kfs2_read_cluster disk n k).handles ≡ k.handles
  unfolding kfs2_read_cluster
  handles-read_cluster n k = elim (Bool-cases (k.lba == 0)) [
    | inl off ↦ rw off refl
    | inr on ↦ elim (Bool-cases (ltb (k.cluster_n) n)) [
      | inl outside ↦ rw (on, outside) refl
      | inr inside ↦ elim (Bool-cases (n == k.cluster_index)) [
        | inl hit ↦ rw (on, inside, hit) refl
        | inr miss ↦ rw (on, inside, miss) refl
      ]
    ]
  ]

  open_handle-Opened : (cluster : ℕ) (k : Kfs2) → Opened (k.handles) (open_handle disk cluster k)
  unfolding open_handle
  open_handle-Opened cluster k = go (first_slot-Found is_free (k.handles))
    where
      go :
          {r : Option ℕ}
          → Found is_free (k.handles) r
          → Opened (k.handles) (elim r as (λ _. Option ℕ × Kfs2) [
            | none ↦ (none, record k { err = 24 })
            | some j ↦ (
              some j,
              record k { handles = set (k.handles) j (record { flags = 1; startclstr = cluster }) },
            )
          ])
      go (nowhere z) = refused (record k { err = 24 }) refl
      go (at_slot j h t p) =
          let k' : Kfs2 = record k {
            handles = set (k.handles) j (record { flags = 1; startclstr = cluster });
          } in
          opened j cluster k' h (t closed) refl

  open_loop-Opened :
      (n i : ℕ) (filename : Mem) (k : Kfs2) → Opened (k.handles) (open_loop disk n i filename k)
  unfolding open_loop
  open_loop-Opened zero i filename k = refused (record k { err = 2 }) refl
  open_loop-Opened (suc n) i filename k =
      let k' = kfs2_read_cluster disk i k in
      let same = handles-read_cluster i k in
      let next = Opened-same same (open_loop-Opened n (i + 1) filename k') in
      let here = Opened-same same (open_handle-Opened i k') in
      elim (Bool-cases (not (long_at (k'.buf) 0 == kfs2_type_file))) [
        | inl other ↦ rw other next
        | inr file ↦ elim (Bool-cases (strncmp (beside disk (k'.buf) filename) 16384 8 256 == 0)) [
          | inl equal ↦ rw (file, equal) here
          | inr differ ↦ rw (file, differ) next
        ]
      ]

-- When kfs2_open_file gives a handle, the handle was free before and is in use afterwards, every other
-- handle stays as it is, and kfs2_close_file makes it free again.
pub kfs2_open_file_lem :
    (disk : Disk) (filename : Mem) (k : Kfs2) {j : ℕ}
    → length (k.handles) ≡ 16
    → (kfs2_open_file disk filename k).0 ≡ some j
    → let k' = (kfs2_open_file disk filename k).1 in
      (j < 16)
      × (is_free (get_or (k.handles) j closed) ≡ true)
      × (is_free (get_or (k'.handles) j closed) ≡ false)
      × ((l : ℕ)
          → get_or (k'.handles) l closed
            ≡ (if l == j then get_or (k'.handles) j closed else get_or (k.handles) l closed))
      × (get_or ((kfs2_close_file j k').handles) j closed ≡ closed)
unfolding kfs2_open_file kfs2_close_file
kfs2_open_file_lem disk filename k {j} size e =
    go (open_loop-Opened disk (k.cluster_n) 0 filename k) e
  where
    go :
        {r : Option ℕ × Kfs2}
        → Opened (k.handles) r
        → r.0 ≡ some j
        → (j < 16)
          × (is_free (get_or (k.handles) j closed) ≡ true)
          × (is_free (get_or (r.1.handles) j closed) ≡ false)
          × ((l : ℕ)
              → get_or (r.1.handles) l closed
                ≡ (if l == j then get_or (r.1.handles) j closed else get_or (k.handles) l closed))
          × (get_or ((kfs2_close_file j (r.1)).handles) j closed ≡ closed)
    go (refused k' same) e = absurd (cc)
    go (opened i start k' h free new) e =
        let here : j ≡ i = cc in
        let file : Kfs2File = record { flags = 1; startclstr = start } in
        let self = get_or-set_self (k.handles) i file closed h in
        let in_use : leb 16 i ≡ false = ground arith in
        let long = length-set (k.handles) i file in
        rw (here, new, self)
          (
            omega arith,
            free,
            refl,
            λ l. get_or-set (k.handles) i l file closed h,
            rw in_use
                (get_or-set_self (set (k.handles) i file) i closed closed (omega (arith, long))),
          )
