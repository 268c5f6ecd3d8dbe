-- ===== src/Timer/Sleep.antt =====
-- The wait of sleep.
use native.Mathlib.Decide.{dec_lt}
use korolev.Prelude.{
  ℕ, zero, suc, ◌+◌, ◌%◌, ◌^◌, ◌≤◌, ◌<◌, ◌≡◌, refl, ltb, ◌==◌, arith, Option, some, true, false,
}
use korolev.Timer.{Timer, sleep_loop, sleep}
use korolev.Timer.Ticks.{at, interrupts-at}

-- The loop from a look at tick `n` on.
record Woken (end g : ℕ) (r : Option Timer) : Type 0 where
  tick : ℕ
  returned : r ≡ some (at tick)
  late : end ≤ tick
  soon : tick < end + g

module _ (arrivals : ℕ → ℕ) (g : ℕ)
    (some_come : (k : ℕ) → (1 ≤ arrivals k) × (arrivals k ≤ g)) where
  sleep_loop-Woken :
      (f k end n : ℕ)
      → end + g < 2 ^ 32
      → 0 < f
      → end < n + f
      → n < end + g
      → Woken end g (sleep_loop arrivals f k end (at n))
  unfolding sleep_loop
  sleep_loop-Woken zero k end n small pos enough near = absurd (omega arith)
  sleep_loop-Woken (suc f) k end n small pos enough near = elim (dec_lt n end) [
    | yes early ↦
        let (one, few) = some_come k in
        let later =
          sleep_loop-Woken f (k + 1) end (n + arrivals k) small (omega arith) (omega arith)
            (omega arith) in
        let go : ltb n end ≡ true = ground arith in
        rw (go, interrupts-at (arrivals k) n (omega arith)) later
    | no done ↦
        let stop : ltb n end ≡ false = ground arith in
        rw stop (record { tick = n; returned = refl; late = omega arith; soon = omega arith })
  ]

  -- After the first interrupt since the set-up, if between 1 and `g` interrupts come between two looks
  -- at the counter, sleep returns within one more look than the ticks that it is to wait: not before
  -- these ticks have passed, and less than `g` ticks late. The counter is not to wrap meanwhile.
  pub sleep_lem :
      (fuel ticks n : ℕ)
      → 0 < n
      → n + ticks + g < 2 ^ 32
      → ticks < fuel
      → (tick : ℕ) × (sleep arrivals fuel ticks (at n) ≡ some (at tick))
        × (n + ticks ≤ tick)
        × (tick < n + ticks + g)
  unfolding sleep
  sleep_lem fuel ticks n pos small enough =
      let w =
        sleep_loop-Woken fuel 0 (n + ticks) n small (omega arith) (omega arith)
          (omega (arith, some_come 0)) in
      let awake : (n == 0) ≡ false = ground arith in
      let whole : (n + ticks) % 2 ^ 32 ≡ n + ticks = omega arith in
      (w.tick, rw (awake, whole) (w.returned), w.late, w.soon)

-- When the end of the wait wraps, sleep returns at once.
pub sleep_wrap :
    (arrivals : ℕ → ℕ) (fuel ticks n : ℕ)
    → n < 2 ^ 32
    → ticks < 2 ^ 32
    → 2 ^ 32 ≤ n + ticks
    → 0 < fuel
    → sleep arrivals fuel ticks (at n) ≡ some (at n)
unfolding sleep sleep_loop
sleep_wrap arrivals (suc f) ticks n word small wraps pos = ground arith
sleep_wrap arrivals zero ticks n word small wraps pos = absurd (omega arith)

-- Before the first interrupt sleep returns at once.
pub sleep_start :
    (arrivals : ℕ → ℕ) (fuel ticks : ℕ) (t : Timer)
    → t.ticks2 ≡ 0
    → sleep arrivals fuel ticks t ≡ some t
unfolding sleep
sleep_start arrivals fuel ticks t e = rw e refl
