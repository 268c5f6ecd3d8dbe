-- ===== src/Timer/Tests.antt =====
-- The timer after its set-up.
use korolev.Prelude.{ℕ, ◌≤◌, ◌<◌, ◌≡◌, refl, some, arith}
use korolev.Timer.{Timer, timer_handler, sleep}
use korolev.Timer.Ticks.{at}
use korolev.Timer.Sleep.{sleep_lem}

abbrev unset : Timer
unset = record { seconds = 7; ticks = 99; ticks2 = 12 }

sleep_lem_example :
    (tick : ℕ) × (sleep (λ k. 3) 11 10 (at 5) ≡ some (at tick)) × (15 ≤ tick) × (tick < 18)
sleep_lem_example =
    sleep_lem (λ k. 3) 3 (λ k. (omega arith, omega arith)) 11 10 5 (omega arith) (omega arith)
      (omega arith)

hundred_in_a_second : timer_handler (at 99) ≡ at 100
unfolding timer_handler
hundred_in_a_second = refl

-- Before the first interrupt there is no wait.
no_sleep_without_timer : sleep (λ k. 3) 5 10 (at 0) ≡ some (at 0)
unfolding sleep
no_sleep_without_timer = refl
