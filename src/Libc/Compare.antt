-- ===== src/Libc/Compare.antt =====
-- strncmp of libc/stdlib.c: what its comparison by blocks of four bytes answers.
use korolev.Prelude.{
  ℕ, zero, suc, ◌+◌, ◌-◌, ◌*◌, ◌/◌, ◌≤◌, ◌<◌, ◌≡◌, ◌≢◌, refl, true, none, some, ◌⊎◌, inl, ap, arith,
  ltb, ◌==◌, if◌then◌else◌,
}
use native.Mathlib.Decide.{dec_lt, ℕ_discrete}
use korolev.Mem.{Mem}
use korolev.Libc.{word, byte_sub, strncmp_block, strncmp_blocks, strncmp_tail, strncmp}
use korolev.Libc.Copy.{strnlen}

mod_four :
    (p : ℕ)
    → (p ≡ 4 * (p / 4)) ⊎ (p ≡ 4 * (p / 4) + 1) ⊎ (p ≡ 4 * (p / 4) + 2) ⊎ (p ≡ 4 * (p / 4) + 3)
mod_four p = omega arith

strnlen-step :
    (m : Mem) (s n : ℕ)
    → strnlen m s n
      ≡ (if n == 0 then 0 else if m s == 0 then 0 else suc (strnlen m (s + 1) (n - 1)))
unfolding strnlen
strnlen-step m s zero = refl
strnlen-step m s (suc n) = ground arith

module _ (m : Mem) (a b : ℕ) where
  -- The two texts agree before `n`.
  abbrev pub Agree : ℕ → Type 0
  Agree n = (i : ℕ) → i < n → m (a + i) ≡ m (b + i)

  block-none-or-zero :
      (n pos len : ℕ)
      → Agree len
      → n ≤ len - pos
      → (strncmp_block m a b n pos ≡ none) ⊎ (strncmp_block m a b n pos ≡ some 0)
  unfolding strncmp_block byte_sub
  block-none-or-zero zero pos len h e = inl refl
  block-none-or-zero (suc n) pos len h e =
      ground (arith, h pos, block-none-or-zero n (pos + 1) len h)

  blocks-none-or-zero :
      (n k len : ℕ)
      → Agree len
      → (strncmp_blocks m a b len n k ≡ none) ⊎ (strncmp_blocks m a b len n k ≡ some 0)
  unfolding strncmp_blocks
  blocks-none-or-zero zero k len h = inl refl
  blocks-none-or-zero (suc n) k len h =
      ground
        (arith, block-none-or-zero (len - 4 * k) (4 * k) len h, blocks-none-or-zero n (k + 1) len h)

  tail-zero : (n offset len : ℕ) → Agree len → offset + n ≤ len → strncmp_tail m a b n offset ≡ 0
  unfolding strncmp_tail
  tail-zero zero offset len h e = refl
  tail-zero (suc n) offset len h e = ground (arith, h offset, tail-zero n (offset + 1) len h)

  -- Texts that agree on `len` bytes compare equal.
  pub strncmp-zero : (len : ℕ) → Agree len → strncmp m a b len ≡ 0
  unfolding strncmp
  strncmp-zero len h = ground (
    arith,
    blocks-none-or-zero 0 0 len h,
    blocks-none-or-zero (len / 4 + 1) 0 len h,
    tail-zero (len - len / 4 * 4) (len / 4 * 4) len h,
  )

  -- `p` is the first place where the texts differ.
  pub record FirstDifference (p : ℕ) : Type 0 where
    pub agree : Agree p
    pub differ : m (a + p) ≢ m (b + p)

  -- What strncmp makes of it: a NUL between the start of the block of four and `p` hides the
  -- difference.
  abbrev pub verdict : ℕ → ℕ → ℕ
  verdict pos p =
      if strnlen m (a + pos) (p - pos) == p - pos then byte_sub (m (a + p)) (m (b + p)) else 0

  verdict-here : (p : ℕ) → verdict p p ≡ byte_sub (m (a + p)) (m (b + p))
  unfolding strnlen
  verdict-here p = ground (arith, strnlen-step m (a + p) (p - p))

  verdict-next :
      (pos p : ℕ) → pos < p → verdict pos p ≡ (if m (a + pos) == 0 then 0 else verdict (pos + 1) p)
  verdict-next pos p h = ground (arith, strnlen-step m (a + pos) (p - pos))

  block-verdict :
      (n pos : ℕ) {p : ℕ}
      → FirstDifference p
      → pos ≤ p
      → p < pos + n
      → strncmp_block m a b n pos ≡ some (verdict pos p)
  unfolding strncmp_block byte_sub
  block-verdict zero pos d lo hi = absurd (omega arith)
  block-verdict (suc n) pos {p} d lo hi = elim (dec_lt pos p) [
    | yes h ↦
        ground
          (arith, d.agree pos h, verdict-next pos p h, block-verdict n (pos + 1) d (omega arith))
    | no h ↦ ground (
      arith,
      d.differ,
      verdict-here p,
      ap (λ k. m (a + k)) (eq_of h),
      ap (λ k. m (b + k)) (eq_of h),
    )
  ]
    where
      eq_of : ¬ (pos < p) → pos ≡ p
      eq_of h = omega arith

  tail-difference :
      (n offset : ℕ) {p : ℕ}
      → FirstDifference p
      → offset ≤ p
      → p < offset + n
      → strncmp_tail m a b n offset ≡ byte_sub (m (a + p)) (m (b + p))
  unfolding strncmp_tail
  tail-difference zero offset d lo hi = absurd (omega arith)
  tail-difference (suc n) offset {p} d lo hi = elim (dec_lt offset p) [
    | yes h ↦
        ground
          (arith, d.agree offset h, tail-difference n (offset + 1) d (omega arith) (omega arith))
    | no h ↦ let e : offset ≡ p = omega arith in rw e (ground (arith, d.differ))
  ]

  module _ (bytes : (i : ℕ) → m i < 256) where
    -- Equal words hold equal bytes.
    word-injective :
        (k p : ℕ) → p / 4 ≡ k → word m (a + 4 * k) ≡ word m (b + 4 * k) → m (a + p) ≡ m (b + p)
    unfolding word
    word-injective k p e w = ground (
      arith,
      bytes (a + 4 * k),
      bytes (b + 4 * k),
      bytes (a + 4 * k + 1),
      bytes (b + 4 * k + 1),
      bytes (a + 4 * k + 2),
      bytes (b + 4 * k + 2),
      bytes (a + 4 * k + 3),
      bytes (b + 4 * k + 3),
      mod_four p,
    )

    word-eq :
        (k p : ℕ) → Agree p → 4 * k + 3 < p → (word m (a + 4 * k) == word m (b + 4 * k)) ≡ true
    unfolding word
    word-eq k p h lt = ground (arith, h (4 * k), h (4 * k + 1), h (4 * k + 2), h (4 * k + 3))

    blocks-verdict :
        (len n k : ℕ) {p : ℕ}
        → FirstDifference p
        → p < len
        → k ≤ p / 4
        → p / 4 < k + n
        → strncmp_blocks m a b len n k ≡ some (verdict (4 * (p / 4)) p)
    unfolding strncmp_blocks
    blocks-verdict len zero k d inside lo hi = absurd (omega arith)
    blocks-verdict len (suc n) k {p} d inside lo hi = elim (dec_lt k (p / 4)) [
      | yes h ↦ ground (
        arith,
        word-eq k p d.agree (omega arith),
        blocks-verdict len n (k + 1) d inside (omega arith) (omega arith),
      )
      | no h ↦
          let e : k ≡ p / 4 = omega arith in
          rw e (
            ground (
              arith,
              d.differ,
              word-injective (p / 4) p refl,
              block-verdict (len - 4 * (p / 4)) (4 * (p / 4)) d (omega arith) (omega arith),
            ))
    ]

    -- Where `p` is the first place below `len` at which the texts differ, strncmp answers by the
    -- bytes there if `len` is below four, by nothing (0) if `len` is four, and beyond four by the
    -- bytes there unless a NUL stands before `p` in the block of four bytes that holds `p`.
    pub strncmp_lem :
        (len : ℕ) {p : ℕ}
        → FirstDifference p
        → p < len
        → strncmp m a b len ≡ (
            if ltb 4 len
            then verdict (4 * (p / 4)) p
            else if len == 4
            then 0
            else byte_sub (m (a + p)) (m (b + p)))
    unfolding strncmp strncmp_blocks
    strncmp_lem len {p} d inside = elim (dec_lt 4 len) [
      | yes h ↦
          ground (arith, blocks-verdict len (len / 4 + 1) 0 d inside (omega arith) (omega arith))
      | no h ↦ elim (ℕ_discrete len 4) [
        | yes e ↦ rw e (unfold strncmp_tail in refl)
        | no ne ↦
            let e : len - len / 4 * 4 ≡ len = omega arith in
            let f : len / 4 * 4 ≡ 0 = omega arith in
            ground (
              arith,
              tail-difference len 0 d (omega arith) (omega arith),
              ap (λ k. strncmp_tail m a b k (len / 4 * 4)) e,
              ap (λ k. strncmp_tail m a b len k) f,
            )
      ]
    ]
