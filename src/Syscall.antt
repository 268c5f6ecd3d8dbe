-- ===== src/Syscall.antt =====
-- kernel/syscall.c: the system calls, over the screen and the keyboard.
pub mod Keys
pub mod Runs
pub mod Write
mod Tests
use korolev.Prelude.{
  ℕ, zero, suc, ◌+◌, ◌*◌, ◌%◌, ◌^◌, bit_or, Bool, true, false, List, [], ◌∷◌, Option, none, some,
  ◌==◌, if◌then◌else◌,
}
use korolev.Mem.{Mem}
use korolev.Port.{Device}
use korolev.Text.{Screen, ◌>>=◌, clear, put, puts_int}
use korolev.Kbd.{KbdEvent, Keyboard, kbd_avail, kbd_pop}

-- The registers that a call reads and changes. The handler gets them by value: what it writes stands in
-- its own copy, and is lost when it returns.
pub record CallRegs : Type 0 where
  pub eax : ℕ
  pub ebx : ℕ
  pub ecx : ℕ
  pub edx : ℕ

-- The parts of the kernel that the calls use.
pub record Kernel : Type 0 where
  pub screen : Screen
  pub keyboard : Keyboard

-- The text at a pointer up to its NUL; `none` when the fuel runs out.
text_at : ℕ → Mem → ℕ → Option (List ℕ)
text_at zero m p = none
text_at (suc f) m p =
    let rest = text_at f m (p + 1) in
    if m p == 0
    then some []
    else elim rest as (λ _. Option (List ℕ)) [ none ↦ none | some cs ↦ some (m p ∷ cs) ]

-- `k.release | k.ctrl << 1 | k.alt << 2 | k.shift << 3 | k.special << 4`, which is also the second
-- byte of an event in memory.
pub key_flags : KbdEvent → ℕ
key_flags k =
    bit_or (bit_or (bit_or (bit_or (k.release) (k.ctrl * 2 ^ 1)) (k.alt * 2 ^ 2)) (k.shift * 2 ^ 3))
      (k.special * 2 ^ 4)

-- `*((WORD*)(&k))`
pub key_word : KbdEvent → ℕ
key_word k = k.keycode + 2 ^ 8 * key_flags k

-- Call 2; `none` is a read behind the array of events.
pub read_key : CallRegs → Kernel → Option (CallRegs × Kernel)
read_key regs k =
    let (event, keyboard') = kbd_pop (k.keyboard) in
    if kbd_avail (k.keyboard)
    then elim event as (λ _. Option (CallRegs × Kernel)) [
      | none ↦ none
      | some e ↦ some (record regs { ebx = key_word e }, record k { keyboard = keyboard' })
    ]
    else some (record regs { ebx = 0xffff }, k)

module _ (dev : Device) (fuel : ℕ) where
  -- `while (c--) put(*(s++));`
  write_loop : ℕ → Mem → ℕ → Screen → Option Screen
  write_loop zero m p s = some s
  write_loop (suc c) m p s = put dev fuel (m p) s >>= write_loop c m (p + 1)

  abbrev pub with_screen : CallRegs → Kernel → Option Screen → Option (CallRegs × Kernel)
  with_screen regs k none = none
  with_screen regs k (some s) = some (regs, record k { screen = s })

  -- Call 3, when an event waits. When none waits, the loop `while (!kbd_avail());` spins until an
  -- interrupt: `none`.
  pub wait_key : CallRegs → Kernel → Option (CallRegs × Kernel)
  wait_key regs k =
      let (event, keyboard') = kbd_pop (k.keyboard) in
      if kbd_avail (k.keyboard)
      then elim event as (λ _. Option (CallRegs × Kernel)) [
        | none ↦ none
        | some e ↦
            with_screen (record regs { ebx = e.keycode; ecx = key_flags e })
              (record k { keyboard = keyboard' }) (put dev fuel b'K' (k.screen))
      ]
      else none

  -- Call 0
  pub print_string : Mem → CallRegs → Kernel → Option (CallRegs × Kernel)
  print_string m regs k = elim (text_at fuel m (regs.ebx)) as (λ _. Option (CallRegs × Kernel)) [
    | none ↦ none
    | some cs ↦ with_screen regs k (puts_int dev fuel cs (k.screen))
  ]

  -- Call 260
  pub sys_write : Mem → CallRegs → Kernel → Option (CallRegs × Kernel)
  sys_write m regs k =
      with_screen (record regs { eax = regs.edx }) k (write_loop (regs.edx) m (regs.ecx) (k.screen))

  -- The `switch` of syscall_handler: its own copy of the registers at its end, and the kernel.
  pub run_call : Mem → CallRegs → Kernel → Option (CallRegs × Kernel)
  run_call m regs k =
      if regs.eax == 0
      then print_string m regs k
      else if regs.eax == 1
      then with_screen regs k (some (clear (k.screen)))
      else if regs.eax == 2
      then read_key regs k
      else if regs.eax == 3
      then wait_key regs k
      else if regs.eax == 260
      then sys_write m regs k
      else some (regs, k)

  -- The caller gets nothing of the copy.
  pub syscall_handler : Mem → CallRegs → Kernel → Option Kernel
  syscall_handler m regs k = elim (run_call m regs k) as (λ _. Option Kernel) [
    | none ↦ none
    | some (copy, k') ↦ some k'
  ]
