-- ===== src/Timer.antt =====
-- dev/timer.c: the counters that the timer interrupt moves, and the wait on them. The messages and
-- the registration of the handler are left out.
pub mod Ticks
pub mod Sleep
mod Tests
use korolev.Prelude.{
  ℕ, zero, suc, ◌+◌, ◌/◌, ◌%◌, ◌^◌, Bool, true, false, Option, none, some, ltb, ◌==◌, if◌then◌else◌,
}
use korolev.Port.{Io, outb}

-- `seconds`, `ticks`, `ticks2`
pub record Timer : Type 0 where
  pub seconds : ℕ
  pub ticks : ℕ
  pub ticks2 : ℕ

pub timer_handler : Timer → Timer
timer_handler t =
    let ticks' = (t.ticks + 1) % 2 ^ 32 in
    let full = ticks' == 100 in
    record {
      seconds = if full then (t.seconds + 1) % 2 ^ 32 else t.seconds;
      ticks = if full then 0 else ticks';
      ticks2 = (t.ticks2 + 1) % 2 ^ 32;
    }

-- `n` interrupts of the timer, one after the other.
pub interrupts : ℕ → Timer → Timer
interrupts zero t = t
interrupts (suc n) t = interrupts n (timer_handler t)

abbrev pub divisor : ℕ
divisor = 11931

pub timer_setup : Timer × Io → Timer × Io
timer_setup (t, io) = (
  record { seconds = 0; ticks = 0; ticks2 = 0 },
  outb 0x40 (divisor / 2 ^ 8 % 2 ^ 8) (outb 0x40 (divisor % 2 ^ 8) (outb 0x43 0x36 io)),
)

-- `while (end > ticks2) cpu_relax();` on fuel; `arrivals` says how many interrupts come between the
-- `k`-th look at the counter and the next.
sleep_loop : (ℕ → ℕ) → ℕ → ℕ → ℕ → Timer → Option Timer
sleep_loop arrivals zero k end t = none
sleep_loop arrivals (suc f) k end t =
    let again = sleep_loop arrivals f (k + 1) end (interrupts (arrivals k) t) in
    if ltb t.ticks2 end then again else some t

pub sleep : (ℕ → ℕ) → ℕ → ℕ → Timer → Option Timer
sleep arrivals fuel ticks t =
    let slept = sleep_loop arrivals fuel 0 ((t.ticks2 + ticks) % 2 ^ 32) t in
    if t.ticks2 == 0 then some t else slept

pub __ticks : Timer → ℕ
__ticks t = t.ticks2

pub time : Timer → ℕ
time t = t.seconds
