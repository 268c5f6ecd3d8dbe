-- ===== src/Libc.antt =====
-- libc/stdlib.c: the memory and string routines. Each changes memory through its pointers and
-- returns one of them, so each gives back that pointer and the new memory. A `size_t` that counts a
-- loop down (`while (n--)`) is the number of rounds left.
pub mod Copy
pub mod Reverse
pub mod Concat
pub mod Compare
mod Tests
use korolev.Prelude.{
  ℕ, zero, suc, ◌+◌, ◌-◌, ◌*◌, ◌/◌, ◌%◌, ◌^◌, Bool, true, false, ◌&&◌, ◌||◌, not, Option, none,
  some, List, [], ◌∷◌, ltb, leb, ◌==◌, if◌then◌else◌,
}
use korolev.Mem.{Mem, store}

-- memcpy: `while (n--) *d++ = *s++;`
memcpy_loop : ℕ → ℕ → ℕ → Mem → Mem
memcpy_loop d s zero m = m
memcpy_loop d s (suc n) m = memcpy_loop (d + 1) (s + 1) n (store m d (m s))

unfoldable pub memcpy : ℕ → ℕ → ℕ → Mem → ℕ × Mem
unfolding memcpy_loop
memcpy dst src n m = (dst, memcpy_loop dst src n m)

-- kmemset: `while (n--) *p++ = (unsigned char)c;`
kmemset_loop : ℕ → ℕ → ℕ → Mem → Mem
kmemset_loop p c zero m = m
kmemset_loop p c (suc n) m = kmemset_loop (p + 1) c n (store m p (c % 256))

unfoldable pub kmemset : ℕ → ℕ → ℕ → Mem → ℕ × Mem
unfolding kmemset_loop
kmemset s c n m = (s, kmemset_loop s c n m)

-- The last loop of strncpy, `while (n--) *dest++ = 0;`.
strncpy_pad : ℕ → ℕ → Mem → Mem
strncpy_pad d zero m = m
strncpy_pad d (suc n) m = strncpy_pad (d + 1) n (store m d 0)

-- `do { if (!n--) return ret; } while ((*dest++ = *src++));`, then the padding.
strncpy_loop : ℕ → ℕ → ℕ → Mem → Mem
strncpy_loop d s zero m = m
strncpy_loop d s (suc n) m =
    let m' = store m d (m s) in
    if m s == 0 then strncpy_pad (d + 1) n m' else strncpy_loop (d + 1) (s + 1) n m'

unfoldable pub strncpy : ℕ → ℕ → ℕ → Mem → ℕ × Mem
unfolding strncpy_loop strncpy_pad
strncpy dest src n m = (dest, strncpy_loop dest src n m)

-- `while (*dest) dest++;`, `none` when the fuel runs out.
find_end : ℕ → ℕ → Mem → Option ℕ
find_end zero d m = none
find_end (suc f) d m = let rest = find_end f (d + 1) m in if m d == 0 then some d else rest

-- `while (n--) if (!(*dest++ = *src++)) return ret; *dest = 0;`
strncat_loop : ℕ → ℕ → ℕ → Mem → Mem
strncat_loop d s zero m = store m d 0
strncat_loop d s (suc n) m =
    let m' = store m d (m s) in if m s == 0 then m' else strncat_loop (d + 1) (s + 1) n m'

-- The fuel bounds the walk to the end of `dest`.
unfoldable pub strncat : ℕ → ℕ → ℕ → ℕ → Mem → Option (ℕ × Mem)
unfolding find_end strncat_loop
strncat fuel dest src n m = elim (find_end fuel dest m) [
  | none ↦ none
  | some d ↦ some (dest, strncat_loop d src n m)
]

-- `for (i = 0, j = len - 1; i < j; i++, j--)` on fuel, over the pointers `s + i` and `s + j`. For
-- an empty string C has j = -1 and the model j = 0: the loop makes no round either way.
reverse_loop : ℕ → ℕ → ℕ → Mem → Mem
reverse_loop zero i j m = m
reverse_loop (suc f) i j m =
    if ltb i j then reverse_loop f (i + 1) (j - 1) (store (store m i (m j)) j (m i)) else m

-- `strlen` is the assembly routine of kernel/fastop.asm: a parameter here.
unfoldable pub reverse : (Mem → ℕ → ℕ) → ℕ → Mem → Mem
unfolding reverse_loop
reverse strlen s m = let len = strlen m s in reverse_loop len s (s + len - 1) m

-- `size_t` at `p`, little-endian. Two of them have a nonzero `^` exactly when they differ.
word : Mem → ℕ → ℕ
word m p = m p + 2 ^ 8 * m (p + 1) + 2 ^ 16 * m (p + 2) + 2 ^ 24 * m (p + 3)

-- `(int)((unsigned char)x - (unsigned char)y)`, as a bit pattern of 32 bits.
unfoldable pub byte_sub : ℕ → ℕ → ℕ
byte_sub x y = (x + 2 ^ 32 - y) % 2 ^ 32

-- `for (pos = ...; pos < len; ++pos)` inside a block that differs, over the rounds left.
strncmp_block : Mem → ℕ → ℕ → ℕ → ℕ → Option ℕ
strncmp_block m a b zero pos = none
strncmp_block m a b (suc n) pos =
    let x = m (a + pos) in
    let y = m (b + pos) in
    let next = strncmp_block m a b n (pos + 1) in
    if not (x == y) || (x == 0) || (y == 0) then some (byte_sub x y) else next

-- `while (current_block < fast)`, over the blocks left.
strncmp_blocks : Mem → ℕ → ℕ → ℕ → ℕ → ℕ → Option ℕ
strncmp_blocks m a b len zero k = none
strncmp_blocks m a b len (suc n) k =
    let next = strncmp_blocks m a b len n (k + 1) in
    if word m (a + 4 * k) == word m (b + 4 * k)
    then next
    else elim (strncmp_block m a b (len - 4 * k) (4 * k)) [ some r ↦ some r | none ↦ next ]

-- `while (len > offset)`, over the rounds left.
strncmp_tail : Mem → ℕ → ℕ → ℕ → ℕ → ℕ
strncmp_tail m a b zero offset = 0
strncmp_tail m a b (suc n) offset =
    let next = strncmp_tail m a b n (offset + 1) in
    if m (a + offset) == m (b + offset) then next else byte_sub (m (a + offset)) (m (b + offset))

-- For a length that is not negative.
unfoldable pub strncmp : Mem → ℕ → ℕ → ℕ → ℕ
unfolding word byte_sub strncmp_block strncmp_blocks strncmp_tail
strncmp m a b len =
    let offset = (len / 4 + 1 - 1) * 4 in
    let fast = if leb len 4 then 0 else len / 4 + 1 in
    elim (strncmp_blocks m a b len fast 0) [
      | some r ↦ r
      | none ↦ strncmp_tail m a b (len - offset) offset
    ]
