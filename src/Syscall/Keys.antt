-- ===== src/Syscall/Keys.antt =====
-- The keyboard calls.
use korolev.Prelude.{
  ℕ, ◌+◌, ◌*◌, ◌/◌, ◌%◌, ◌^◌, ◌<◌, ◌≡◌, refl, ◌∙◌, bit_or, List, ◌∷◌, some, arith,
}
use korolev.Prelude.Bits.{bit_or_above, bit_or_comm}
use korolev.Mem.{Mem}
use korolev.Port.{Device}
use korolev.Kbd.{KbdEvent, kbd_pop}
use korolev.Kbd.Stack.{IsValid, pending, kbd_pop_lem}
use korolev.Syscall.{CallRegs, Kernel, key_flags, key_word, read_key, run_call, syscall_handler}

-- The fields fit their bits.
pub record IsEvent (k : KbdEvent) : Type 0 where
  pub keycode : k.keycode < 2 ^ 8
  pub release : k.release < 2
  pub ctrl : k.ctrl < 2
  pub alt : k.alt < 2
  pub shift : k.shift < 2
  pub special : k.special < 2

or_above : (n low high : ℕ) → low < 2 ^ n → bit_or low (high * 2 ^ n) ≡ low + high * 2 ^ n
or_above n low high h = bit_or_comm low (high * 2 ^ n) ∙ bit_or_above n high low h ∙ omega arith

key_flags-sum :
    {k : KbdEvent}
    → IsEvent k
    → key_flags k ≡ k.release + k.ctrl * 2 ^ 1 + k.alt * 2 ^ 2 + k.shift * 2 ^ 3 + k.special * 2 ^ 4
unfolding key_flags
key_flags-sum {k} v =
    let r = k.release in
    let c = r + k.ctrl * 2 ^ 1 in
    let a = c + k.alt * 2 ^ 2 in
    let s = a + k.shift * 2 ^ 3 in
    rw
      (
        or_above 1 r (k.ctrl) v.release,
        or_above 2 c (k.alt) (omega (arith, v.release, v.ctrl)),
        or_above 3 a (k.shift) (omega (arith, v.release, v.ctrl, v.alt)),
        or_above 4 s (k.special) (omega (arith, v.release, v.ctrl, v.alt, v.shift)),
      )
      refl

pub call_two :
    (dev : Device) (fuel : ℕ) (m : Mem) (regs : CallRegs) (k : Kernel)
    → regs.eax ≡ 2
    → run_call dev fuel m regs k ≡ read_key regs k
unfolding run_call
call_two dev fuel m regs k call = rw call refl

-- What the handler hands on of a call: the kernel, and not its copy of the registers.
pub handler-run_call :
    (dev : Device) (fuel : ℕ) (m : Mem) (regs : CallRegs) (k : Kernel) {copy : CallRegs}
    {k' : Kernel}
    → run_call dev fuel m regs k ≡ some (copy, k')
    → syscall_handler dev fuel m regs k ≡ some k'
unfolding syscall_handler
handler-run_call dev fuel m regs k ran = rw (syscall_handler, ran) refl

-- When an event waits, call 2 returns and takes the newest one off; the stack keeps its bounds. At its
-- end the handler's own copy of EBX, which the caller does not get, has the key code and each of the
-- five flags in bits of their own, and is never the 0xffff that stands for no key.
pub read_key_lem :
    (dev : Device) (fuel : ℕ) (m : Mem) (regs : CallRegs) (k : Kernel) {e : KbdEvent}
    {es : List KbdEvent}
    → regs.eax ≡ 2
    → IsValid (k.keyboard)
    → pending (k.keyboard) ≡ e ∷ es
    → IsEvent e
    → (copy : CallRegs) × (k' : Kernel) × (run_call dev fuel m regs k ≡ some (copy, k'))
      × (syscall_handler dev fuel m regs k ≡ some k')
      × (pending (k'.keyboard) ≡ es)
      × IsValid (k'.keyboard)
      × (copy.ebx % 2 ^ 8 ≡ e.keycode)
      × (copy.ebx / 2 ^ 8 % 2 ≡ e.release)
      × (copy.ebx / 2 ^ 9 % 2 ≡ e.ctrl)
      × (copy.ebx / 2 ^ 10 % 2 ≡ e.alt)
      × (copy.ebx / 2 ^ 11 % 2 ≡ e.shift)
      × (copy.ebx / 2 ^ 12 ≡ e.special)
      × (copy.ebx < 0xffff)
unfolding read_key key_word
read_key_lem dev fuel m regs k {e} call v p ok =
    let (avail, got, rest, valid) = kbd_pop_lem v p in
    let sum = key_flags-sum ok in
    let k' : Kernel = record k { keyboard = (kbd_pop (k.keyboard)).1 } in
    let ran : run_call dev fuel m regs k ≡ some (record regs { ebx = key_word e }, k') =
      call_two dev fuel m regs k call ∙ rw (avail, got) refl in
    (
      record regs { ebx = key_word e },
      k',
      ran,
      handler-run_call dev fuel m regs k ran,
      rest,
      valid,
      omega (arith, sum, ok.keycode, ok.release, ok.ctrl, ok.alt, ok.shift, ok.special),
      omega (arith, sum, ok.keycode, ok.release, ok.ctrl, ok.alt, ok.shift, ok.special),
      omega (arith, sum, ok.keycode, ok.release, ok.ctrl, ok.alt, ok.shift, ok.special),
      omega (arith, sum, ok.keycode, ok.release, ok.ctrl, ok.alt, ok.shift, ok.special),
      omega (arith, sum, ok.keycode, ok.release, ok.ctrl, ok.alt, ok.shift, ok.special),
      omega (arith, sum, ok.keycode, ok.release, ok.ctrl, ok.alt, ok.shift, ok.special),
      omega (arith, sum, ok.keycode, ok.release, ok.ctrl, ok.alt, ok.shift, ok.special),
    )
