-- ===== src/Alloc/Blocks.antt =====
-- What malloc hands out: blocks of whole pages that do not overlap.
use korolev.Prelude.{
  ℕ, ◌+◌, ◌*◌, ◌^◌, ◌≤◌, ◌<◌, ◌≡◌, ◌≢◌, Option, none, some, List, [], ◌∷◌, ap, arith,
}
use korolev.Prelude.{◌/◌, ◌||◌, if◌then◌else◌, leb, ◌==◌}
use native.Mathlib.Decide.{ℕ_discrete}
use korolev.Alloc.{Pages, round_size, mmgmt_alloc, mmgmt_free, null, malloc, free, run}

-- The region lies above address 0 and within 32 bits.
pub record IsValid (h : Pages) : Type 0 where
  pub above : 0 < h.start
  pub inside : h.start + h.len * 4096 ≤ 2 ^ 32

-- The address of the first page not given away.
abbrev pub frontier : Pages → ℕ
frontier h = h.start + h.counter * 4096

-- A size that still fits 32 bits when it is rounded up.
abbrev pub Fits : ℕ → Type 0
Fits size = size + 4096 < 2 ^ 32

-- What a call of malloc does, on every branch.
pub record Allocated (h : Pages) (size : ℕ) (r : ℕ × Pages) : Type 0 where
  pub refused : r.0 ≡ 0 → r.1 ≡ h
  pub place : r.0 ≢ 0 → r.0 ≡ frontier h
  pub room : r.0 ≢ 0 → r.0 + size < frontier r.1
  pub whole : r.0 ≢ 0 → frontier r.1 ≤ r.0 + size + 4096
  pub region : (r.1.start ≡ h.start) × (r.1.len ≡ h.len)
  pub granted : (0 < size) → (h.counter < h.len) → r.0 ≢ 0
  pub only : r.0 ≢ 0 → (0 < size) × (h.counter < h.len)

pub malloc-Allocated :
    {h : Pages} (size : ℕ) → IsValid h → Fits size → Allocated h size (malloc h size)
unfolding malloc mmgmt_alloc round_size
malloc-Allocated size v f = ground arith

-- In a region that lies above address 0 and within 32 bits, and for a size whose sum with 4096 is below
-- 2 ^ 32, malloc gives NULL and changes nothing exactly for size 0 and when all pages are given away.
-- Otherwise it gives the address of the first page not given away, and counts
-- one page more than the whole pages in the size.
pub malloc_lem :
    {h : Pages} (size : ℕ)
    → IsValid h
    → Fits size
    → malloc h size ≡ (
        if size == 0 || leb h.len h.counter
        then (null, h)
        else (frontier h, record h { counter = h.counter + size / 4096 + 1 }))
unfolding malloc mmgmt_alloc round_size
malloc_lem size v f = ground arith

-- Every block of the list starts at `b` or above.
abbrev pub Above : ℕ → List (ℕ × ℕ) → Type 0
Above b [] = Unit
Above b ((q, size) ∷ bs) = (q ≢ 0 → b ≤ q) × Above b bs

-- Each block that was granted ends before all later ones start.
abbrev pub Separated : List (ℕ × ℕ) → Type 0
Separated [] = Unit
Separated ((p, size) ∷ bs) = (p ≢ 0 → Above (p + size + 1) bs) × Separated bs

abbrev pub AllFit : List (Option ℕ) → Type 0
AllFit [] = Unit
AllFit (none ∷ ops) = AllFit ops
AllFit (some size ∷ ops) = Fits size × AllFit ops

free_lem : (h : Pages) (p : ℕ) → free h p ≡ h
unfolding free mmgmt_free
free_lem h p = ground arith

Allocated-IsValid :
    {h : Pages} (size : ℕ) {r : ℕ × Pages} → Allocated h size r → IsValid h → IsValid r.1
Allocated-IsValid size a v = ground (arith, a.region)

Allocated-frontier :
    {h : Pages} (size : ℕ) {r : ℕ × Pages} → Allocated h size r → frontier h ≤ frontier r.1
Allocated-frontier {h} size {r} a = elim (ℕ_discrete r.0 0) [
  | yes null ↦ omega (arith, ap frontier (a.refused null))
  | no got ↦ omega (arith, a.place got, a.room got)
]

run-Above :
    (ops : List (Option ℕ)) {h : Pages} (last b : ℕ)
    → IsValid h
    → AllFit ops
    → b ≤ frontier h
    → Above b (run h last ops)
unfolding run
run-Above [] last b v f le = tt
run-Above (none ∷ ops) {h} last b v f le = rw (free_lem h last) (run-Above ops last b v f le)
run-Above (some size ∷ ops) {h} last b v f le =
    let a = malloc-Allocated size v f.0 in
    (
      λ got. omega (arith, a.place got),
      run-Above ops (malloc h size).0 b (Allocated-IsValid size a v) f.1
          (omega (arith, Allocated-frontier size a)),
    )

-- In a region that lies above address 0 and within 32 bits, for a client that allocates and frees in any
-- order, but never asks for a size whose sum with 4096 reaches 2 ^ 32, no two blocks that it is given
-- overlap: each ends before every later one starts.
pub run-Separated :
    (ops : List (Option ℕ)) {h : Pages} (last : ℕ)
    → IsValid h
    → AllFit ops
    → Separated (run h last ops)
unfolding run
run-Separated [] last v f = tt
run-Separated (none ∷ ops) {h} last v f = rw (free_lem h last) (run-Separated ops last v f)
run-Separated (some size ∷ ops) {h} last v f =
    let a = malloc-Allocated size v f.0 in
    let v' = Allocated-IsValid size a v in
    let p = (malloc h size).0 in
    (
      λ got. run-Above ops p (p + size + 1) v' f.1 (omega (arith, a.room got)),
      run-Separated ops p v' f.1,
    )
