-- ===== src/Number/Atoi.antt =====
-- atoi of libc/stdlib.c.
use korolev.Prelude.{
  ℕ, zero, suc, ◌+◌, ◌-◌, ◌*◌, ◌%◌, ◌^◌, ◌≡◌, ◌≢◌, refl, none, some, arith, ◌==◌, if◌then◌else◌,
}
use korolev.Mem.{Mem}
use korolev.Number.{sign_extend, atoi_loop, atoi}

atoi_loop-none : (f : ℕ) (m : Mem) (s n : ℕ) → m s ≢ 0 → atoi_loop f m s n ≡ none
unfolding atoi_loop
atoi_loop-none zero m s n h = refl
atoi_loop-none (suc f) m s n h =
    ground (arith, atoi_loop-none f m s ((n * 10 + sign_extend (m s) + 2 ^ 32 - 48) % 2 ^ 32) h)

-- atoi answers 0 on the empty text; on any other text it does not come to an end, whatever number
-- of rounds it is given.
pub atoi_lem : (fuel : ℕ) (m : Mem) (s : ℕ) → atoi fuel m s ≡ (if m s == 0 then some 0 else none)
unfolding atoi
atoi_lem fuel m s = ground (arith, atoi_loop-none fuel m s 0)
