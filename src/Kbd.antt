-- ===== src/Kbd.antt =====
-- dev/kbd.c: the keyboard, its stack of 512 events that grows downwards, and the PS/2 controller
-- behind ports 0x60, 0x61 and 0x64. The messages of kbd_setup are left out.
pub mod Stack
pub mod Ps2
mod Tests
use korolev.Prelude.{
  ℕ, zero, suc, ◌+◌, ◌-◌, ◌%◌, ◌^◌, bit_and, bit_or, Bool, true, false, ◌||◌, not, List, [], ◌∷◌,
  Option, none, some, ltb, ◌==◌, if◌then◌else◌, get_or, get_elem?, set, replicate,
}
use korolev.Port.{Device, Io, inb, outb}

-- `kbd_event_t`: a byte and five fields of one bit
pub record KbdEvent : Type 0 where
  pub keycode : ℕ
  pub release : ℕ
  pub ctrl : ℕ
  pub alt : ℕ
  pub shift : ℕ
  pub special : ℕ

abbrev pub no_event : KbdEvent
no_event = record { keycode = 0; release = 0; ctrl = 0; alt = 0; shift = 0; special = 0 }

-- `kbd_stack`, the index that `kbd_stack_sp` points at, `ctrl`, `alt`, `shift`
pub record Keyboard : Type 0 where
  pub stack : List KbdEvent
  pub sp : ℕ
  pub ctrl : ℕ
  pub alt : ℕ
  pub shift : ℕ

-- `!(scancode & 0x80)`
abbrev pub pressed : ℕ → ℕ
pressed scancode = if bit_and scancode 0x80 == 0 then 1 else 0

-- A value in a field of one bit.
abbrev pub bit : ℕ → ℕ
bit v = v % 2

-- The end of kbd_interrupt: the event is written, and the pointer moves unless it is at the start.
pub kbd_push : KbdEvent → Keyboard → Keyboard
kbd_push event k = record k {
  stack = set k.stack k.sp event;
  sp = if k.sp == 0 then k.sp else k.sp - 1;
}

-- kbd_interrupt once it has its scancode. `scancode & ~0x80` of a byte is its remainder by 128.
pub kbd_scancode : ℕ → Bool → Keyboard → Keyboard
kbd_scancode scancode spec k =
    let kc = scancode % 2 ^ 7 in
    let event : KbdEvent = record {
      keycode = kc;
      release = bit (bit_and scancode 0x80);
      ctrl = bit k.ctrl;
      alt = bit k.alt;
      shift = bit k.shift;
      special = if spec then 1 else 0;
    } in
    if kc == 0x2a || kc == 0x36
    then record k { shift = pressed scancode }
    else if kc == 0x1d
    then record k { ctrl = pressed scancode }
    else if kc == 0x38
    then record k { alt = pressed scancode }
    else kbd_push event k

-- kbd_interrupt on the ports and the keyboard.
unfoldable pub kbd_interrupt : Device → Keyboard × Io → Keyboard × Io
kbd_interrupt dev (k, io) =
    let (status, io) = inb dev 0x64 io in
    let (first, io') = inb dev 0x60 io in
    let (a, io') = inb dev 0x61 io' in
    let (second, io'') = inb dev 0x60 io' in
    let (a', io'') = inb dev 0x61 io'' in
    if bit_and status 1 == 0
    then (k, io)
    else if first == 0xE0
    then (kbd_scancode second true k, outb 0x61 a' (outb 0x61 (bit_or a' 0x80) io''))
    else (kbd_scancode first false k, io')

unfoldable pub kbd_reset : Keyboard → Keyboard
kbd_reset k = record k { sp = 511 }

unfoldable pub kbd_avail : Keyboard → Bool
kbd_avail k = not (k.sp == 511)

-- `*(++kbd_stack_sp)`; `none` is a read behind the array.
unfoldable pub kbd_pop : Keyboard → Option KbdEvent × Keyboard
kbd_pop k = (get_elem? k.stack (k.sp + 1), record k { sp = k.sp + 1 })
