-- ===== src/Libc/Copy.antt =====
-- memcpy, kmemset and strncpy of libc/stdlib.c: which byte every address holds afterwards.
use korolev.Prelude.{
  ℕ, zero, suc, ◌+◌, ◌-◌, ◌%◌, ◌≤◌, ◌<◌, ◌≡◌, refl, ap, ◌∙◌, false, inl, inr, arith, ltb, ◌==◌,
  if◌then◌else◌, Bool-cases,
}
use korolev.Mem.{Mem, store, within, Apart}
use korolev.Libc.{memcpy_loop, memcpy, kmemset_loop, kmemset, strncpy_pad, strncpy_loop, strncpy}

-- The bytes before the first NUL among the `n` from `s` on.
unfoldable pub strnlen : Mem → ℕ → ℕ → ℕ
strnlen m s zero = 0
strnlen m s (suc n) = if m s == 0 then 0 else suc (strnlen m (s + 1) n)

pub Apart-suc : (d s n : ℕ) → Apart d s (suc n) → Apart (d + 1) (s + 1) n
Apart-suc d s n (inl h) = inl (omega arith)
Apart-suc d s n (inr h) = inr (omega arith)

memcpy_loop_byte :
    (n d s : ℕ) (m : Mem) (p : ℕ)
    → Apart d s n
    → memcpy_loop d s n m p ≡ (if within d n p then m (s + (p - d)) else m p)
unfolding memcpy_loop
memcpy_loop_byte zero d s m p h = ground arith
memcpy_loop_byte (suc n) d s m p h =
    ground (arith, memcpy_loop_byte n (d + 1) (s + 1) (store m d (m s)) p, Apart-suc d s n h)

-- If the ranges do not overlap with `dst` behind `src`, memcpy returns `dst`, the `n` bytes from
-- `dst` on become the bytes that stood from `src` on, and every other byte stays.
pub memcpy_lem :
    (d s n : ℕ) (m : Mem)
    → Apart d s n
    → ((memcpy d s n m).0 ≡ d)
      × ((p : ℕ) → (memcpy d s n m).1 p ≡ (if within d n p then m (s + (p - d)) else m p))
unfolding memcpy
memcpy_lem d s n m h = (refl, λ p. memcpy_loop_byte n d s m p h)

-- Whether the ranges overlap or not, the bytes outside the destination stay.
pub memcpy-Outside :
    (n d s : ℕ) (m : Mem) (p : ℕ) → within d n p ≡ false → (memcpy d s n m).1 p ≡ m p
unfolding memcpy memcpy_loop
memcpy-Outside zero d s m p h = refl
memcpy-Outside (suc n) d s m p h =
    ground (arith, memcpy-Outside n (d + 1) (s + 1) (store m d (m s)) p)

kmemset_loop_byte :
    (n c d : ℕ) (m : Mem) (p : ℕ) → kmemset_loop d c n m p ≡ (if within d n p then c % 256 else m p)
unfolding kmemset_loop
kmemset_loop_byte zero c d m p = ground arith
kmemset_loop_byte (suc n) c d m p =
    ground (arith, kmemset_loop_byte n c (d + 1) (store m d (c % 256)) p)

-- kmemset returns its pointer, sets the `n` bytes from it on to the low byte of `c`, and leaves
-- every other byte.
pub kmemset_lem :
    (s c n : ℕ) (m : Mem)
    → ((kmemset s c n m).0 ≡ s)
      × ((p : ℕ) → (kmemset s c n m).1 p ≡ (if within s n p then c % 256 else m p))
unfolding kmemset
kmemset_lem s c n m = (refl, λ p. kmemset_loop_byte n c s m p)

strncpy_pad_byte :
    (n d : ℕ) (m : Mem) (p : ℕ) → strncpy_pad d n m p ≡ (if within d n p then 0 else m p)
unfolding strncpy_pad
strncpy_pad_byte zero d m p = ground arith
strncpy_pad_byte (suc n) d m p = ground (arith, strncpy_pad_byte n (d + 1) (store m d 0) p)

pub strnlen-le : (n s : ℕ) (m : Mem) → strnlen m s n ≤ n
unfolding strnlen
strnlen-le zero s m = omega arith
strnlen-le (suc n) s m = ground (arith, strnlen-le n (s + 1) m)

-- The count is not changed by a write outside the string.
pub strnlen-store :
    (n s : ℕ) (m : Mem) (a v : ℕ)
    → (within s n a ≡ false)
    → strnlen (store m a v) s n ≡ strnlen m s n
unfolding strnlen
strnlen-store zero s m a v h = refl
strnlen-store (suc n) s m a v h = ground (arith, strnlen-store n (s + 1) m a v)

-- Nor by the rest of the memory, or by where the string stands.
pub strnlen-agree :
    (n s s' : ℕ) (m m' : Mem)
    → ((i : ℕ) → i < n → m (s + i) ≡ m' (s' + i))
    → strnlen m s n ≡ strnlen m' s' n
unfolding strnlen
strnlen-agree zero s s' m m' h = refl
strnlen-agree (suc n) s s' m m' h =
    let first : m s ≡ m' s' = ap m (omega arith) ∙ h 0 (omega arith) ∙ ap m' (omega arith) in
    let later : (i : ℕ) → i < n → m (s + 1 + i) ≡ m' (s' + 1 + i) =
      λ i lt. ap m (omega arith) ∙ h (i + 1) (omega arith) ∙ ap m' (omega arith) in
    ground (arith, first, strnlen-agree n (s + 1) (s' + 1) m m' later)

-- What strncpy leaves at `p`.
abbrev pub copied : ℕ → ℕ → ℕ → Mem → ℕ → ℕ
copied d s n m p =
    if within d n p then (if ltb (p - d) (strnlen m s n) then m (s + (p - d)) else 0) else m p

strncpy_loop_byte :
    (n d s : ℕ) (m : Mem) (p : ℕ) → Apart d s n → strncpy_loop d s n m p ≡ copied d s n m p
unfolding strncpy_loop strnlen
strncpy_loop_byte zero d s m p h = ground arith
strncpy_loop_byte (suc n) d s m p h = elim (Bool-cases (m s == 0)) [
  | inl end ↦ rw end (ground (arith, strncpy_pad_byte n (d + 1) (store m d (m s)) p))
  | inr more ↦ rw more (
      ground (
        arith,
        strncpy_loop_byte n (d + 1) (s + 1) (store m d (m s)) p,
        strnlen-store n (s + 1) m d (m s),
        Apart-suc d s n h,
      ))
]

-- If the ranges do not overlap with `dest` behind `src`, strncpy returns `dest`, copies the string at
-- `src` up to its NUL and at most `n` bytes, fills the rest of the `n` bytes with zeros, and leaves
-- every other byte.
pub strncpy_lem :
    (d s n : ℕ) (m : Mem)
    → Apart d s n
    → ((strncpy d s n m).0 ≡ d) × ((p : ℕ) → (strncpy d s n m).1 p ≡ copied d s n m p)
unfolding strncpy
strncpy_lem d s n m h = (refl, λ p. strncpy_loop_byte n d s m p h)
