-- ===== src/Alloc/Tests.antt =====
-- The allocator on a memory map of three regions.
use korolev.Prelude.{ℕ, ◌/◌, ◌%◌, ◌^◌, ◌≡◌, refl, none, some, List, [], ◌∷◌, arith}
use korolev.Alloc.{
  MmapEntry, multiboot_memory_available, entry?, chunk_loop, mmgmt_greatest_chunk, Pages,
  mmgmt_init, round_size, mmgmt_alloc, mmgmt_free, malloc, free, run,
}
use korolev.Alloc.Chunk.{All, Bounded, mmgmt_init_lem}
use korolev.Alloc.Blocks.{IsValid, Separated, malloc_lem, run-Separated}

abbrev low : MmapEntry
low = record { addr = 0; len = 0x9fc00; typ = 1 }

abbrev rom : MmapEntry
rom = record { addr = 0xf0000; len = 0x8000000; typ = 2 }

abbrev high : MmapEntry
high = record { addr = 0x100000; len = 0x7ee0000; typ = 1 }

abbrev pc : List MmapEntry
pc = low ∷ rom ∷ high ∷ []

-- Ten pages at the second megabyte, three of them given away.
abbrev pages : Pages
pages = record { counter = 3; start = 0x100000; len = 10 }

pages-IsValid : IsValid pages
pages-IsValid = record { above = omega arith; inside = omega arith }

init_takes_the_high_memory :
    mmgmt_init pc ≡ some (record { counter = 0; start = 0x100000; len = 0x7ee0 })
unfolding mmgmt_init mmgmt_greatest_chunk chunk_loop
init_takes_the_high_memory = refl

mmgmt_init_lem_example :
    (j : ℕ) × (e : MmapEntry) × (entry? pc j ≡ some e)
    × (e.typ ≡ multiboot_memory_available)
    × All (Bounded e.len) pc
    × (mmgmt_init pc ≡ some (record { counter = 0; start = e.addr % 2 ^ 32; len = e.len / 2 ^ 12 }))
mmgmt_init_lem_example =
    mmgmt_init_lem pc 0 (omega arith, (omega arith, (omega arith, tt))) refl refl (omega arith)

malloc_lem_example :
    malloc pages 4096 ≡ (0x103000, record { counter = 5; start = 0x100000; len = 10 })
malloc_lem_example = malloc_lem 4096 pages-IsValid (omega arith)

run-Separated_example : Separated (run pages 0 (some 10 ∷ none ∷ some 9000 ∷ []))
run-Separated_example =
    run-Separated (some 10 ∷ none ∷ some 9000 ∷ []) 0 pages-IsValid (omega arith, (omega arith, tt))

run-pages : run pages 0 (some 10 ∷ none ∷ some 9000 ∷ []) ≡ (0x103000, 10) ∷ (0x104000, 9000) ∷ []
unfolding run malloc mmgmt_alloc round_size free mmgmt_free
run-pages = refl
