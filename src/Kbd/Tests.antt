-- ===== src/Kbd/Tests.antt =====
-- Keys on the keyboard.
use korolev.Prelude.{
  ◌++◌, ◌≡◌, refl, true, false, [], ◌∷◌, some, arith, replicate, ◌==◌, if◌then◌else◌,
}
use korolev.Port.{Device}
use korolev.Kbd.{KbdEvent, no_event, Keyboard, kbd_scancode, kbd_avail, kbd_pop, kbd_reset}
use korolev.Kbd.Stack.{IsValid, pending, kbd_scancode_lem, kbd_pop_lem}

abbrev key_a : KbdEvent
key_a = record { keycode = 0x1e; release = 0; ctrl = 0; alt = 0; shift = 1; special = 0 }

-- Shift is held, nothing waits.
abbrev fresh : Keyboard
fresh = record { stack = replicate 512 no_event; sp = 511; ctrl = 0; alt = 0; shift = 1 }

-- A single event waits.
abbrev waiting_a : Keyboard
waiting_a = record {
  stack = replicate 511 no_event ++ (key_a ∷ []);
  sp = 510;
  ctrl = 0;
  alt = 0;
  shift = 1;
}

fresh-IsValid : IsValid fresh
fresh-IsValid = record { size = refl; top = omega arith }

waiting_a-IsValid : IsValid waiting_a
waiting_a-IsValid = record { size = refl; top = omega arith }

-- The controller has the scancode of A in its buffer.
abbrev typing : Device
typing t port = if port == 0x64 then 1 else 0x1e

kbd_scancode_lem_example :
    IsValid (kbd_scancode 0x1e false fresh) × (pending (kbd_scancode 0x1e false fresh) ≡ key_a ∷ [])
kbd_scancode_lem_example = kbd_scancode_lem 0x1e false fresh-IsValid

release_of_shift : (kbd_scancode 0xaa false fresh).shift ≡ 0
unfolding kbd_scancode
release_of_shift = refl

reset_drops_what_waits : kbd_avail (kbd_reset waiting_a) ≡ false
unfolding kbd_avail kbd_reset
reset_drops_what_waits = refl

-- A controller that passes its tests.
abbrev sound_controller : Device
sound_controller t port = if port == 0x64 then 1 else if t == 8 then 0x55 else 0

kbd_pop_lem_example :
    (kbd_avail waiting_a ≡ true)
    × ((kbd_pop waiting_a).0 ≡ some key_a)
    × (pending (kbd_pop waiting_a).1 ≡ [])
    × IsValid (kbd_pop waiting_a).1
kbd_pop_lem_example = kbd_pop_lem waiting_a-IsValid refl
