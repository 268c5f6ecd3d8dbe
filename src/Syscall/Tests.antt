-- ===== src/Syscall/Tests.antt =====
-- Calls on a kernel with one waiting key and a free serial line.
use korolev.Prelude.{
  ◌/◌, ◌%◌, ◌^◌, ◌<◌, ◌≤◌, ◌+◌, length, ◌≡◌, refl, [], ◌∷◌, ◌++◌, some, false, inl, arith, get_or,
  replicate,
}
use korolev.Mem.{Mem}
use korolev.Port.{Device, fresh_io}
use korolev.Text.Cursor.{view}
use korolev.Text.Cursor
use korolev.Text.Terminal.{type_text}
use korolev.Kbd.{kbd_avail, kbd_pop, KbdEvent, no_event, kbd_interrupt}
use korolev.Kbd.Stack.{IsValid, pending}
use korolev.Syscall.{CallRegs, Kernel, read_key, run_call, syscall_handler}
use korolev.Syscall.Keys.{read_key_lem}
use korolev.Syscall.Runs.{IsSound, Asked, start, call, interrupt, run_lem}
use korolev.Syscall.Write.{bytes_at, sys_write_lem}

abbrev silent : Device
silent t port = 0

abbrev shifted_a : KbdEvent
shifted_a = record { keycode = 0x1e; release = 0; ctrl = 0; alt = 0; shift = 1; special = 0 }

abbrev kernel : Kernel
kernel = record {
  screen = record {
    text_x = 0;
    text_y = 0;
    strm = false;
    fg = 7;
    bg = 0;
    cells = λ p. 0;
    serial = record { status = replicate 4 0; io = fresh_io };
  };
  keyboard = record {
    stack = replicate 511 no_event ++ (shifted_a ∷ []);
    sp = 510;
    ctrl = 0;
    alt = 0;
    shift = 1;
  };
}

abbrev hello : Mem
hello p = get_or (b'h' ∷ b'e' ∷ b'y' ∷ []) p 0

abbrev read : CallRegs
read = record { eax = 2; ebx = 0; ecx = 0; edx = 0 }

abbrev write : CallRegs
write = record { eax = 260; ebx = 0; ecx = 0; edx = 3 }

read_key_lem_example :
    (copy : CallRegs) × (k' : Kernel) × (run_call silent 1 hello read kernel ≡ some (copy, k'))
    × (syscall_handler silent 1 hello read kernel ≡ some k')
    × (pending (k'.keyboard) ≡ [])
    × IsValid (k'.keyboard)
    × (copy.ebx % 2 ^ 8 ≡ 0x1e)
    × (copy.ebx / 2 ^ 8 % 2 ≡ 0)
    × (copy.ebx / 2 ^ 9 % 2 ≡ 0)
    × (copy.ebx / 2 ^ 10 % 2 ≡ 0)
    × (copy.ebx / 2 ^ 11 % 2 ≡ 1)
    × (copy.ebx / 2 ^ 12 ≡ 0)
    × (copy.ebx < 0xffff)
read_key_lem_example =
    read_key_lem silent 1 hello read kernel refl (record { size = refl; top = omega arith }) refl
      (record {
        keycode = omega arith;
        release = omega arith;
        ctrl = omega arith;
        alt = omega arith;
        shift = omega arith;
        special = omega arith;
      })

sys_write_lem_example :
    (k' : Kernel) × (syscall_handler silent 1 hello write kernel ≡ some k')
    × (view (k'.screen) ≡ type_text 0 7 (b'h' ∷ b'e' ∷ b'y' ∷ []) (view (kernel.screen)))
    × Cursor.IsValid (k'.screen)
    × (k'.keyboard ≡ kernel.keyboard)
unfolding bytes_at
sys_write_lem_example =
    sys_write_lem silent 1 hello write kernel refl
      (record { column = omega arith; line = omega arith; fg = omega arith; bg = omega arith })
      (inl refl) (omega arith, (omega arith, (omega arith, tt)))

sound : IsSound (kernel.keyboard)
sound = record {
  valid = record { size = refl; top = omega arith };
  events = (
    record {
      keycode = omega arith;
      release = omega arith;
      ctrl = omega arith;
      alt = omega arith;
      shift = omega arith;
      special = omega arith;
    },
    tt,
  );
}

-- A controller that gives a byte whenever it is asked.
abbrev typing : Device
typing t port = 0x1f

-- The key that waits was read.
abbrev popped : Kernel
popped = record kernel { keyboard = record (kernel.keyboard) { sp = 511 } }

first_call : syscall_handler typing 1 hello read kernel ≡ some popped
unfolding syscall_handler run_call read_key kbd_avail kbd_pop
first_call = refl

-- Another key comes.
abbrev typed : Kernel
typed = record popped { keyboard = (kbd_interrupt typing (popped.keyboard, fresh_io)).0 }

run_lem_example :
    IsSound (typed.keyboard)
    × (1 + length (pending (typed.keyboard)) ≤ length (pending (kernel.keyboard)) + 1)
    × ((k'' : Kernel) × (syscall_handler typing 1 hello read typed ≡ some k'')
        × Asked typing 1 hello typed k'')
run_lem_example =
    run_lem typing 1 hello read sound (interrupt fresh_io (call read refl first_call start)) refl
