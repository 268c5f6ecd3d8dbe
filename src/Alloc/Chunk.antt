-- ===== src/Alloc/Chunk.antt =====
-- mmgmt_greatest_chunk and mmgmt_init: the region that the allocator works in.
use korolev.Prelude.{
  ℕ, zero, suc, ◌+◌, ◌/◌, ◌%◌, ◌^◌, ◌≤◌, ◌<◌, ◌≡◌, refl, ap, ◌⊎◌, inl, inr, some, List, [], ◌∷◌,
  ◌&&◌, arith, ltb, ◌==◌, Bool-cases,
}
use korolev.Alloc.{
  MmapEntry, multiboot_memory_available, entry?, chunk_loop, mmgmt_greatest_chunk, mmgmt_init,
}

abbrev pub All {ℓ} : (MmapEntry → Type ℓ) → List MmapEntry → Type ℓ
All P [] = Unit
All P (e ∷ es) = P e × All P es

-- Every available entry is at most `max` long.
abbrev pub Bounded : ℕ → MmapEntry → Type 0
Bounded max e = e.typ ≡ multiboot_memory_available → e.len ≤ max

abbrev pub Short : MmapEntry → Type 0
Short e = e.len < 2 ^ 32

-- What the loop from `i` on has found, given that the entries before are no longer than `max`.
record Found (es : List MmapEntry) (i maxi max : ℕ) (r : ℕ × ℕ) : Type 0 where
  grows : max ≤ r.1
  bounded : All (Bounded r.1) es
  chosen :
      (r ≡ (maxi, max))
      ⊎ ((j : ℕ) × (e : MmapEntry) × (r.0 ≡ i + j)
          × (entry? es j ≡ some e)
          × (e.len ≡ r.1)
          × (e.typ ≡ multiboot_memory_available))

-- The entry in front becomes the best so far.
Found-better :
    {e : MmapEntry} {es : List MmapEntry} {i maxi max : ℕ} {r : ℕ × ℕ}
    → max ≤ e.len
    → e.typ ≡ multiboot_memory_available
    → Found es (i + 1) i e.len r
    → Found (e ∷ es) i maxi max r
Found-better {e} {i} le avail f = record {
  grows = omega (arith, f.grows);
  bounded = (λ _. f.grows, f.bounded);
  chosen = elim (f.chosen) [
    | inl p ↦ inr (0, e, ground arith, refl, ground arith, avail)
    | inr (j, e', at, is, len, typ) ↦ inr (suc j, e', omega arith, is, len, typ)
  ];
}

-- The entry in front is passed over.
Found-worse :
    {e : MmapEntry} {es : List MmapEntry} {i maxi max : ℕ} {r : ℕ × ℕ}
    → Bounded max e
    → Found es (i + 1) maxi max r
    → Found (e ∷ es) i maxi max r
Found-worse {e} {i} b f = record {
  grows = f.grows;
  bounded = (λ a. omega (arith, b a, f.grows), f.bounded);
  chosen = elim (f.chosen) [
    | inl p ↦ inl p
    | inr (j, e', at, is, len, typ) ↦ inr (suc j, e', omega arith, is, len, typ)
  ];
}

chunk_loop-Found :
    (es : List MmapEntry) (i maxi max : ℕ)
    → All Short es
    → Found es i maxi max (chunk_loop es i maxi max)
unfolding chunk_loop
chunk_loop-Found [] i maxi max h = record { grows = omega arith; bounded = tt; chosen = inl refl }
chunk_loop-Found (e ∷ es) i maxi max h =
    elim (Bool-cases (ltb max e.len && e.typ == multiboot_memory_available)) [
      | inl better ↦
          let fits : e.len % 2 ^ 32 ≡ e.len = omega (arith, h.0) in
          rw (better, fits)
            (Found-better (ground arith) (ground arith) (chunk_loop-Found es (i + 1) i e.len h.1))
      | inr worse ↦
          rw worse (Found-worse (λ a. ground arith) (chunk_loop-Found es (i + 1) maxi max h.1))
    ]

Bounded-entry :
    (es : List MmapEntry) (k : ℕ) {e : MmapEntry} {max : ℕ}
    → All (Bounded max) es
    → entry? es k ≡ some e
    → Bounded max e
Bounded-entry [] k b at = absurd (cc)
Bounded-entry (x ∷ es) zero b at = λ a. ground (arith, b.0)
Bounded-entry (x ∷ es) (suc k) b at = Bounded-entry es k b.1 at

-- If every length fits 32 bits and some entry is available and not empty, mmgmt_init takes for its
-- region an available entry that no available entry exceeds: it starts at the low 32 bits of that
-- entry's address, has as many pages as its length holds, and has given none away.
pub mmgmt_init_lem :
    (mmap : List MmapEntry) (k : ℕ) {some_entry : MmapEntry}
    → All Short mmap
    → entry? mmap k ≡ some some_entry
    → some_entry.typ ≡ multiboot_memory_available
    → 0 < some_entry.len
    → (j : ℕ) × (e : MmapEntry) × (entry? mmap j ≡ some e)
      × (e.typ ≡ multiboot_memory_available)
      × All (Bounded e.len) mmap
      × (mmgmt_init mmap
          ≡ some (record { counter = 0; start = e.addr % 2 ^ 32; len = e.len / 2 ^ 12 }))
unfolding mmgmt_init mmgmt_greatest_chunk
mmgmt_init_lem mmap k {some_entry} short at avail pos =
    let f = chunk_loop-Found mmap 0 0 0 short in
    let big : some_entry.len ≤ (chunk_loop mmap 0 0 0).1 =
      Bounded-entry mmap k f.bounded at avail in
    elim (f.chosen) [
      | inl p ↦ absurd (omega (arith, ap (λ r. r.1) p))
      | inr (j, e, index, is, len, typ) ↦
          let here : (chunk_loop mmap 0 0 0).0 ≡ j = omega arith in
          (j, e, is, typ, rw len f.bounded, ground (arith, here, is, len))
    ]
