-- ===== src/Syscall/Runs.antt =====
-- The keyboard between its interrupt and the call that asks for a key. Every gate is an interrupt gate
-- (kernel/int.c), so an interrupt comes between calls.
use mathlib.Core.Option.{some-injective}
use korolev.Prelude.{
  ℕ, suc, ◌+◌, ◌%◌, ◌^◌, ◌≤◌, ◌≡◌, refl, sym, ap, ◌∙◌, Bool, true, false, List, [], ◌∷◌, some,
  arith, length, if◌then◌else◌, ◌==◌, Bool-cases, inl, inr, bit_and, ltb,
}
use korolev.Mem.{Mem}
use korolev.Port.{Device, Io, inb}
use korolev.Kbd.{KbdEvent, Keyboard, kbd_interrupt, kbd_scancode, kbd_reset}
use korolev.Kbd.Stack.{
  IsValid, pending, is_modifier, key_event, kbd_scancode_lem, kbd_avail_lem, waiting,
}
use korolev.Syscall.{CallRegs, Kernel, read_key, run_call, syscall_handler}
use korolev.Syscall.Keys.{IsEvent, call_two, handler-run_call, read_key_lem}

abbrev pub AllEvents : List KbdEvent → Type 0
AllEvents [] = Unit {0}
AllEvents (e ∷ es) = IsEvent e × AllEvents es

-- The stack has its bounds, and every event that waits fits its bits.
pub record IsSound (k : Keyboard) : Type 0 where
  pub valid : IsValid k
  pub events : AllEvents (pending k)

-- One more event waits, at most.
record Grown (k k' : Keyboard) : Type 0 where
  sound : IsSound k'
  few : length (pending k') ≤ length (pending k) + 1

key_event-IsEvent :
    (scancode : ℕ) (spec : Bool) (k : Keyboard) → IsEvent (key_event scancode spec k)
key_event-IsEvent scancode true k = record {
  keycode = omega arith;
  release = omega arith;
  ctrl = omega arith;
  alt = omega arith;
  shift = omega arith;
  special = omega arith;
}
key_event-IsEvent scancode false k = record {
  keycode = omega arith;
  release = omega arith;
  ctrl = omega arith;
  alt = omega arith;
  shift = omega arith;
  special = omega arith;
}

-- The three ways in which a scancode may leave the events that wait.
Pushed-Grown :
    {k k' : Keyboard} (e : KbdEvent) (b c : Bool)
    → IsSound k
    → IsEvent e
    → IsValid k'
    → pending k' ≡ (if b then pending k else if c then pending k else e ∷ pending k)
    → Grown k k'
Pushed-Grown {k} e true c sound ok valid same = record {
  sound = record { valid = valid; events = rw same (sound.events) };
  few = omega (arith, ap length same);
}
Pushed-Grown {k} e false true sound ok valid same = record {
  sound = record { valid = valid; events = rw same (sound.events) };
  few = omega (arith, ap length same);
}
Pushed-Grown {k} e false false sound ok valid same = record {
  sound = record { valid = valid; events = rw same (ok, sound.events) };
  few = omega (arith, ap length same);
}

kbd_scancode-Grown :
    (scancode : ℕ) (spec : Bool) (k : Keyboard) → IsSound k → Grown k (kbd_scancode scancode spec k)
kbd_scancode-Grown scancode spec k sound =
    let (valid, same) = kbd_scancode_lem scancode spec (sound.valid) in
    Pushed-Grown (key_event scancode spec k) (is_modifier (scancode % 128))
      (length (pending k) == 511) sound (key_event-IsEvent scancode spec k) valid same

kbd_interrupt-Grown :
    (dev : Device) (k : Keyboard) (io : Io) → IsSound k → Grown k (kbd_interrupt dev (k, io)).0
unfolding kbd_interrupt inb
kbd_interrupt-Grown dev k io sound =
    let c = dev (io.clock + 1 + 1 + 1) 0x60 % 2 ^ 8 in
    let d = dev (io.clock + 1) 0x60 % 2 ^ 8 in
    elim (Bool-cases (bit_and (dev io.clock 0x64 % 2 ^ 8) 1 == 0)) [
      | inl idle ↦ rw idle (record { sound = sound; few = omega arith })
      | inr full ↦ elim (Bool-cases (d == 0xE0)) [
        | inl two ↦ rw (full, two) (kbd_scancode-Grown c true k sound)
        | inr one ↦ rw (full, one) (kbd_scancode-Grown d false k sound)
      ]
    ]

AllEvents-nil : (es : List KbdEvent) → length es ≡ 0 → AllEvents es
AllEvents-nil [] none_left = tt
AllEvents-nil (e ∷ es) none_left = absurd (omega (arith, none_left))

kbd_reset-IsSound :
    (k : Keyboard) → IsSound k → IsSound (kbd_reset k) × (length (pending (kbd_reset k)) ≡ 0)
unfolding kbd_reset
kbd_reset-IsSound k sound =
    let valid : IsValid (record k { sp = 511 }) = record {
      size = sound.valid.size;
      top = omega arith;
    } in
    let none_left = waiting valid in
    (record { valid = valid; events = AllEvents-nil _ none_left }, none_left)

module _ (dev : Device) (fuel : ℕ) (m : Mem) where
  -- What a call 2 does to the keyboard.
  pub data Asked (k : Kernel) : Kernel → Type 0 where
    nothing : length (pending (k.keyboard)) ≡ 0 → Asked k k
    key :
        {k' : Kernel}
        → IsSound (k'.keyboard)
        → length (pending (k.keyboard)) ≡ suc (length (pending (k'.keyboard)))
        → Asked k k'

  read_key-Asked :
      (regs : CallRegs) (k : Kernel)
      → regs.eax ≡ 2
      → IsSound (k.keyboard)
      → (k' : Kernel) × (syscall_handler dev fuel m regs k ≡ some k') × Asked k k'
  unfolding read_key
  read_key-Asked regs k two sound = by_events (pending (k.keyboard)) refl
    where
      by_events :
          (es : List KbdEvent)
          → pending (k.keyboard) ≡ es
          → (k' : Kernel) × (syscall_handler dev fuel m regs k ≡ some k') × Asked k k'
      by_events [] same =
          let off = kbd_avail_lem (sound.valid) ∙ ap (λ es. ltb 0 (length es)) same in
          let ran : run_call dev fuel m regs k ≡ some (record regs { ebx = 0xffff }, k) =
            call_two dev fuel m regs k two ∙ rw off refl in
          (k, handler-run_call dev fuel m regs k ran, nothing (ap length same))
      by_events (e ∷ es) same =
          let (ok, rest) = rw same at (sound.events) in
          let (copy, k', ran, got, less, valid, _, _, _, _, _, _, _) =
            read_key_lem dev fuel m regs k two (sound.valid) same ok in
          (
            k',
            got,
            key (record { valid = valid; events = rw less rest })
                (ap length same ∙ ap (λ l. suc (length l)) (sym less)),
          )

  -- An event is there for a call to take.
  abbrev pub found : Kernel → ℕ
  found k = if length (pending (k.keyboard)) == 0 then 0 else 1

  -- Interrupts of the keyboard, calls 2 and resets of the stack, in any order: the number of interrupts,
  -- the number of calls that found an event, and the kernel before and behind.
  pub data Run : (interrupts taken : ℕ) → Kernel → Kernel → Type 0 where
    start : {k : Kernel} → Run 0 0 k k
    interrupt :
        {n taken : ℕ} {k k' : Kernel} (io : Io)
        → Run n taken k k'
        → Run (suc n) taken k (record k' { keyboard = (kbd_interrupt dev (k'.keyboard, io)).0 })
    call :
        {n taken : ℕ} {k k' k'' : Kernel} (regs : CallRegs)
        → regs.eax ≡ 2
        → syscall_handler dev fuel m regs k' ≡ some k''
        → Run n taken k k'
        → Run n (found k' + taken) k k''
    reset :
        {n taken : ℕ} {k k' : Kernel}
        → Run n taken k k'
        → Run n taken k (record k' { keyboard = kbd_reset (k'.keyboard) })

  -- An event that was found waits no more.
  Asked-counts :
      (k : Kernel) (k' : Kernel)
      → IsSound (k.keyboard)
      → Asked k k'
      → IsSound (k'.keyboard)
        × (found k + length (pending (k'.keyboard)) ≤ length (pending (k.keyboard)))
  Asked-counts k k' sound (nothing none_waits) =
      let none_found : found k ≡ 0 = ground (arith, none_waits) in
      (sound, omega (arith, none_found))
  Asked-counts k k' sound (key sound' one) =
      let one_found : found k ≡ 1 = ground (arith, one) in (sound', omega (arith, one_found, one))

  Run-counts :
      {n taken : ℕ} {k k' : Kernel}
      → IsSound (k.keyboard)
      → Run n taken k k'
      → IsSound (k'.keyboard)
        × (taken + length (pending (k'.keyboard)) ≤ length (pending (k.keyboard)) + n)
  Run-counts sound start = (sound, omega arith)
  Run-counts sound (interrupt {k' = k'} io run) =
      let (sound', counted) = Run-counts sound run in
      let grown = kbd_interrupt-Grown dev (k'.keyboard) io sound' in
      (grown.sound, omega (arith, counted, grown.few))
  Run-counts sound (call {k' = k'} {k'' = k''} regs two got run) =
      let (sound', counted) = Run-counts sound run in
      let (r, returned, asked) = read_key-Asked regs k' two sound' in
      let same = some-injective _ _ (sym returned ∙ got) in
      let (sound'', fewer) = Asked-counts k' k'' sound' (rw same at asked) in
      (sound'', omega (arith, counted, fewer))
  Run-counts sound (reset {k' = k'} run) =
      let (sound', counted) = Run-counts sound run in
      let (sound'', none_left) = kbd_reset-IsSound (k'.keyboard) sound' in
      (sound'', omega (arith, counted, none_left))

  -- From a keyboard whose stack has its bounds and whose events fit their bits, however interrupts of
  -- the keyboard, calls 2 and resets of the stack follow one another, and whatever the controller
  -- answers: both stay so; at most as many calls have found an event, less the events that wait now, as
  -- events waited at first and interrupts came; and a further call 2 returns, never reads behind the
  -- array of events, changes nothing when none waits, and else leaves one event less.
  pub run_lem :
      {n taken : ℕ} {k k' : Kernel} (regs : CallRegs)
      → IsSound (k.keyboard)
      → Run n taken k k'
      → regs.eax ≡ 2
      → IsSound (k'.keyboard)
        × (taken + length (pending (k'.keyboard)) ≤ length (pending (k.keyboard)) + n)
        × ((k'' : Kernel) × (syscall_handler dev fuel m regs k' ≡ some k'') × Asked k' k'')
  run_lem {k' = k'} regs sound run two =
      let (sound', counted) = Run-counts sound run in
      (sound', counted, read_key-Asked regs k' two sound')
