-- ===== src/Libc/Tests.antt =====
-- The routines of libc/stdlib.c on texts in memory.
use korolev.Prelude.{
  ℕ, zero, suc, ◌+◌, ◌-◌, ◌%◌, ◌^◌, ◌<◌, ◌≡◌, refl, inr, List, [], ◌∷◌, arith, get_or,
}
use korolev.Mem.{Mem}
use korolev.Libc.{strncmp, strncpy}
use korolev.Libc.{word, byte_sub, strncmp_block, strncmp_blocks, strncmp_tail}
use korolev.Libc.Copy.{strnlen, strncpy_lem}
use korolev.Libc.Compare.{FirstDifference, strncmp_lem}

-- `abc` at 0, `ab` at 8, `abcde` at 16, `abcdx` at 24; ones behind.
abbrev text_bytes : List ℕ
text_bytes =
    b'a' ∷ b'b' ∷ b'c' ∷ 0 ∷ 0 ∷ 0 ∷ 0 ∷ 0 ∷ b'a' ∷ b'b' ∷ 0 ∷ 0 ∷ 0 ∷ 0 ∷ 0 ∷ 0 ∷ b'a' ∷ b'b'
    ∷ b'c' ∷ b'd' ∷ b'e' ∷ 0 ∷ 0 ∷ 0 ∷ b'a' ∷ b'b' ∷ b'c' ∷ b'd' ∷ b'x' ∷ 0 ∷ 0 ∷ 0 ∷ []

abbrev texts : Mem
texts p = get_or text_bytes p 1 % 256

differ_at_four : FirstDifference texts 16 24 4
differ_at_four = record { agree = λ i h. agree i h; differ = λ e. omega (arith, e) }
  where
    agree : (i : ℕ) → i < 4 → texts (16 + i) ≡ texts (24 + i)
    agree zero h = refl
    agree (suc zero) h = refl
    agree (suc (suc zero)) h = refl
    agree (suc (suc (suc zero))) h = refl
    agree (suc (suc (suc (suc i)))) h = absurd (omega arith)

-- 'e' - 'x' as a word
strncmp_lem_example : strncmp texts 16 24 6 ≡ 2 ^ 32 - 19
unfolding strnlen byte_sub
strncmp_lem_example = strncmp_lem texts 16 24 (λ i. omega arith) 6 differ_at_four (omega arith)

-- A length of four compares nothing.
strncmp_of_four : strncmp texts 0 100 4 ≡ 0
unfolding strncmp word byte_sub strncmp_block strncmp_blocks strncmp_tail
strncmp_of_four = refl

-- The NUL of `ab` and the padding behind it.
strncpy_lem_example : ((strncpy 32 8 4 texts).0 ≡ 32) × ((strncpy 32 8 4 texts).1 35 ≡ 0)
unfolding strnlen
strncpy_lem_example = (
  (strncpy_lem 32 8 4 texts (inr (omega arith))).0,
  (strncpy_lem 32 8 4 texts (inr (omega arith))).1 35,
)
