-- ===== src/Mem.antt =====
-- Byte-addressed memory, as the C code sees it through its pointers. An address is a plain number:
-- C forbids a pointer to leave its object, so no address computation of the code wraps.
use korolev.Prelude.{ℕ, ◌+◌, ◌≤◌, Bool, ◌&&◌, ◌⊎◌, ltb, leb, ◌==◌, if◌then◌else◌}

-- The byte at each address.
abbrev pub Mem : Type 0
Mem = ℕ → ℕ

-- `*p = v` for a byte `v`.
abbrev pub store : Mem → ℕ → ℕ → Mem
store m p v a = if a == p then v else m a

-- `p` is one of the `n` addresses from `a` on.
abbrev pub within : ℕ → ℕ → ℕ → Bool
within a n p = leb a p && ltb p (a + n)

-- A copy that runs upwards from `s` to `d` reads each byte before it overwrites it.
abbrev pub Apart : ℕ → ℕ → ℕ → Type 0
Apart d s n = (d ≤ s) ⊎ (s + n ≤ d)
