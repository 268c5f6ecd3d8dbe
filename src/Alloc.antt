-- ===== src/Alloc.antt =====
-- kernel/memory.c, the page allocator, and malloc and free of libc/stdlib.c on top of it. LONG and
-- `size_t` have 32 bits; the addresses and lengths of the memory map have 64. The messages that
-- these functions print are left out.
pub mod Blocks
pub mod Chunk
pub mod Limits
mod Tests
use korolev.Prelude.{
  ℕ, zero, suc, ◌+◌, ◌-◌, ◌*◌, ◌/◌, ◌%◌, ◌^◌, ◌&&◌, Option, none, some, List, [], ◌∷◌, ltb, leb,
  ◌==◌, if◌then◌else◌, length,
}

-- `struct multiboot_mmap_entry`, less its padding.
pub record MmapEntry : Type 0 where
  pub addr : ℕ
  pub len : ℕ
  pub typ : ℕ

abbrev pub multiboot_memory_available : ℕ
multiboot_memory_available = 1

-- The entry at an index, `none` out of range.
abbrev pub entry? : List MmapEntry → ℕ → Option MmapEntry
entry? [] i = none
entry? (e ∷ es) zero = some e
entry? (e ∷ es) (suc i) = entry? es i

-- The loop of mmgmt_greatest_chunk from entry `i` on: the index and the length of the best so far.
-- `max = mmap[i].len` keeps the low 32 bits.
unfoldable pub chunk_loop : List MmapEntry → ℕ → ℕ → ℕ → ℕ × ℕ
chunk_loop [] i maxi max = (maxi, max)
chunk_loop (e ∷ es) i maxi max =
    let better = ltb max e.len && e.typ == multiboot_memory_available in
    chunk_loop es (i + 1) (if better then i else maxi) (if better then e.len % 2 ^ 32 else max)

unfoldable pub mmgmt_greatest_chunk : List MmapEntry → ℕ × ℕ
mmgmt_greatest_chunk mmap = chunk_loop mmap 0 0 0

-- `mmgmt_counter`, `mmgmt_start` and `mmgmt_len`: pages given away, first address, pages in all.
pub record Pages : Type 0 where
  pub counter : ℕ
  pub start : ℕ
  pub len : ℕ

-- `none` is the read of `mmap[0]` from an empty map.
unfoldable pub mmgmt_init : List MmapEntry → Option Pages
mmgmt_init mmap =
    let (maxi, max) = mmgmt_greatest_chunk mmap in
    elim (entry? mmap maxi) [
      | none ↦ none
      | some e ↦ some (record { counter = 0; start = e.addr % 2 ^ 32; len = max / 2 ^ 12 })
    ]

-- `size + (4096 - size % 4096)`
pub round_size : ℕ → ℕ
round_size size = (size + (4096 - size % 4096)) % 2 ^ 32

abbrev pub null : ℕ
null = 0

pub mmgmt_alloc : Pages → ℕ → ℕ × Pages
mmgmt_alloc h size = if leb h.len h.counter then (null, h) else if size == 0 then (null, h) else (
  (h.start + h.counter * 4096) % 2 ^ 32,
  record h { counter = (h.counter + round_size size / 2 ^ 12) % 2 ^ 32 },
)

pub mmgmt_free : Pages → ℕ → Pages
mmgmt_free h ptr = h

-- `size <= 0` of an unsigned number
pub malloc : Pages → ℕ → ℕ × Pages
malloc h size = if size == 0 then (null, h) else mmgmt_alloc h size

pub free : Pages → ℕ → Pages
free h ptr = if ptr == 0 then h else mmgmt_free h ptr

-- A client's calls in order: `some n` asks for `n` bytes, `none` frees the pointer got last.
pub run : Pages → ℕ → List (Option ℕ) → List (ℕ × ℕ)
run h last [] = []
run h last (some size ∷ ops) = let (p, h') = malloc h size in (p, size) ∷ run h' p ops
run h last (none ∷ ops) = run (free h last) last ops
