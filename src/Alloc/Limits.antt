-- ===== src/Alloc/Limits.antt =====
-- Where malloc gives more than it has: it compares the pages given away with the region before a
-- call, never after it.
use korolev.Prelude.{ℕ, ◌+◌, ◌-◌, ◌*◌, ◌^◌, ◌≤◌, ◌<◌, ◌≡◌, arith}
use korolev.Alloc.{Pages, round_size, mmgmt_alloc, malloc}
use korolev.Alloc.Blocks.{IsValid, Fits, frontier, malloc-Allocated}

-- As long as one page is left, malloc grants a request for more than the pages that are left, with a
-- block that ends behind the region.
pub malloc_overrun :
    {h : Pages} (size : ℕ)
    → IsValid h
    → Fits size
    → h.counter < h.len
    → (h.len - h.counter) * 4096 < size
    → ((malloc h size).0 ≡ frontier h) × (h.start + h.len * 4096 < (malloc h size).0 + size)
malloc_overrun {h} size v f left big =
    let a = malloc-Allocated size v f in
    let got = a.granted (omega arith) left in (a.place got, omega (arith, a.place got))

-- A size within 4096 of 2 ^ 32 wraps to no page at all: as long as one page is left, malloc grants it,
-- and gives the same address again to the next request that it grants.
pub malloc_wrap :
    {h : Pages} (size next : ℕ)
    → IsValid h
    → 2 ^ 32 ≤ size + 4096
    → size < 2 ^ 32
    → h.counter < h.len
    → 0 < next
    → ((malloc h size).0 ≡ frontier h) × ((malloc (malloc h size).1 next).0 ≡ frontier h)
unfolding malloc mmgmt_alloc round_size
malloc_wrap size next v wraps word left pos = ground arith
