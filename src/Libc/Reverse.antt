-- ===== src/Libc/Reverse.antt =====
-- reverse of libc/stdlib.c.
use korolev.Prelude.{ℕ, zero, suc, ◌+◌, ◌-◌, ◌≤◌, ◌≡◌, ◌&&◌, arith, leb, if◌then◌else◌}
use korolev.Mem.{Mem, store, within}
use korolev.Libc.{reverse_loop, reverse}

reverse_loop_byte :
    (f i j : ℕ) (m : Mem) (p : ℕ)
    → j ≤ i + f
    → reverse_loop f i j m p ≡ (if leb i p && leb p j then m (i + j - p) else m p)
unfolding reverse_loop
reverse_loop_byte zero i j m p h = ground arith
reverse_loop_byte (suc f) i j m p h =
    ground (arith, reverse_loop_byte f (i + 1) (j - 1) (store (store m i (m j)) j (m i)) p)

-- Whatever length strlen reports, reverse turns that many bytes round in place and leaves every
-- other byte.
pub reverse_lem :
    (strlen : Mem → ℕ → ℕ) (s : ℕ) (m : Mem) (p : ℕ)
    → reverse strlen s m p
      ≡ (if within s (strlen m s) p then m (s + (strlen m s - 1 - (p - s))) else m p)
unfolding reverse
reverse_lem strlen s m p = ground (arith, reverse_loop_byte (strlen m s) s (s + strlen m s - 1) m p)
