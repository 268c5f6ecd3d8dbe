-- ===== src/Libc/Concat.antt =====
-- strncat of libc/stdlib.c: the walk to the end of `dest`, then the copy with its NUL.
use korolev.Prelude.{
  ℕ, zero, suc, ◌+◌, ◌-◌, ◌<◌, ◌≡◌, false, some, inl, inr, ap, ◌∙◌, arith, ◌==◌, if◌then◌else◌,
  Bool-cases,
}
use korolev.Mem.{Mem, store, within, Apart}
use korolev.Libc.{find_end, strncat_loop, strncat}
use korolev.Libc.Copy.{strnlen, strnlen-le, strnlen-store, Apart-suc}

find_end-strnlen :
    (f d : ℕ) (m : Mem) → strnlen m d f < f → find_end f d m ≡ some (d + strnlen m d f)
unfolding find_end strnlen
find_end-strnlen zero d m h = elim h [ ]
find_end-strnlen (suc f) d m h = ground (arith, find_end-strnlen f (d + 1) m)

-- What strncat leaves at `p`, for the old end `d` of `dest` and `k` bytes copied.
abbrev pub appended : ℕ → ℕ → ℕ → Mem → ℕ → ℕ
appended d s k m p = if within d k p then m (s + (p - d)) else (if p == d + k then 0 else m p)

-- One more byte copied in front.
appended-suc :
    (d s k : ℕ) (m : Mem) (p : ℕ)
    → Apart d s (suc k)
    → appended (d + 1) (s + 1) k (store m d (m s)) p ≡ appended d s (suc k) m p
appended-suc d s k m p h = ground arith

strncat_loop_byte :
    (n d s : ℕ) (m : Mem) (p : ℕ)
    → Apart d s n
    → strncat_loop d s n m p ≡ appended d s (strnlen m s n) m p
unfolding strncat_loop strnlen
strncat_loop_byte zero d s m p h = ground arith
strncat_loop_byte (suc n) d s m p h = elim (Bool-cases (m s == 0)) [
  | inl end ↦ rw end (ground arith)
  | inr more ↦ rw more (
      strncat_loop_byte n (d + 1) (s + 1) (store m d (m s)) p (Apart-suc d s n h)
      ∙ ap (λ k. appended (d + 1) (s + 1) k (store m d (m s)) p)
          (strnlen-store n (s + 1) m d (m s) (outside h))
      ∙ appended-suc d s (strnlen m (s + 1) n) m p (shorter h))
]
  where
    outside : Apart d s (suc n) → within (s + 1) n d ≡ false
    outside h = ground arith

    shorter : Apart d s (suc n) → Apart d s (suc (strnlen m (s + 1) n))
    shorter (inl h) = inl h
    shorter (inr h) = inr (omega (arith, strnlen-le n (s + 1) m))

-- If `dest` holds a NUL within the fuel and its end does not overlap with `src` behind it, strncat
-- returns `dest`, puts the string at `src`, at most `n` bytes of it, behind the string at `dest`,
-- ends it by a NUL, and leaves every other byte.
pub strncat_lem :
    (fuel dest s n : ℕ) (m : Mem)
    → strnlen m dest fuel < fuel
    → Apart (dest + strnlen m dest fuel) s n
    → (m' : Mem) × (strncat fuel dest s n m ≡ some (dest, m'))
      × ((p : ℕ) → m' p ≡ appended (dest + strnlen m dest fuel) s (strnlen m s n) m p)
unfolding strncat
strncat_lem fuel dest s n m end h = (
  strncat_loop (dest + strnlen m dest fuel) s n m,
  rw (find_end-strnlen fuel dest m end, strncat),
  λ p. strncat_loop_byte n (dest + strnlen m dest fuel) s m p h,
)
