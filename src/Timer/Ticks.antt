-- ===== src/Timer/Ticks.antt =====
-- The counters against the number of interrupts.
use korolev.Prelude.{ℕ, zero, suc, ◌+◌, ◌/◌, ◌%◌, ◌^◌, ◌<◌, ◌≡◌, refl, ◌∙◌, ap, arith, ◌∷◌}
use korolev.Port.{Io, outb}
use korolev.Timer.{Timer, timer_handler, interrupts, timer_setup, __ticks, time}

-- The counters after `n` interrupts since the set-up.
abbrev pub at : ℕ → Timer
at n = record { seconds = n / 100; ticks = n % 100; ticks2 = n }

timer_handler-at : (n : ℕ) → n + 1 < 2 ^ 32 → timer_handler (at n) ≡ at (n + 1)
unfolding timer_handler
timer_handler-at n h = ground arith

pub interrupts-at : (k n : ℕ) → n + k < 2 ^ 32 → interrupts k (at n) ≡ at (n + k)
unfolding interrupts
interrupts-at zero n h = ap at (omega arith)
interrupts-at (suc k) n h =
    rw (timer_handler-at n (omega arith))
      (interrupts-at k (n + 1) (omega arith) ∙ ap at (omega arith))

-- Any 2 ^ 32 - 1 interrupts after the set-up, time counts the whole hundreds of them and __ticks
-- counts them all; the set-up programs the divisor that makes them a hundred in a second.
pub timer_lem :
    (n : ℕ) (t : Timer) (io : Io)
    → n < 2 ^ 32
    → let (t', io') = timer_setup (t, io) in
      (time (interrupts n t') ≡ n / 100)
      × (__ticks (interrupts n t') ≡ n)
      × ((interrupts n t').ticks ≡ n % 100)
      × (io'.outs ≡ (0x40, 0x2E) ∷ (0x40, 0x9B) ∷ (0x43, 0x36) ∷ io.outs)
unfolding timer_setup time __ticks outb
timer_lem n t io h =
    let e : interrupts n (at 0) ≡ at n = interrupts-at n 0 (omega arith) ∙ ap at (omega arith) in
    (
      ap (λ (t : Timer). t.seconds) e,
      ap (λ (t : Timer). t.ticks2) e,
      ap (λ (t : Timer). t.ticks) e,
      refl,
    )

-- The set-up starts the counter of sleep again.
pub timer_setup-ticks2 : (t : Timer) (io : Io) → (timer_setup (t, io)).0.ticks2 ≡ 0
unfolding timer_setup
timer_setup-ticks2 t io = refl
