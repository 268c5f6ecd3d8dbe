-- ===== src/Text/Tests.antt =====
-- The text screen on concrete texts.
use korolev.Prelude.{ℕ, ◌≡◌, refl, inr, false, List, [], ◌∷◌, some, arith}
use korolev.Mem.{Mem, store}
use korolev.Port.{Device, fresh_io}
use korolev.Text.{Screen, puts, draw, putn10_loop}
use korolev.Text.Scroll.{line_up}
use korolev.Text.Terminal.{type_text}
use korolev.Text.Cursor.{IsValid, position, view, draw_lem}
use korolev.Text.Hardware.{cursor_writes}
use korolev.Text.Output.{puts_lem}

-- Every cell holds its own number.
abbrev numbered : Mem
numbered p = p

-- The end of the last line; the first serial port is set up.
abbrev last : Screen
last = record {
  text_x = 79;
  text_y = 24;
  strm = false;
  fg = 7;
  bg = 1;
  cells = numbered;
  serial = record { status = 1 ∷ 0 ∷ 0 ∷ 0 ∷ []; io = fresh_io };
}

last-IsValid : IsValid last
last-IsValid = record {
  column = omega arith;
  line = omega arith;
  fg = omega arith;
  bg = omega arith;
}

-- A line whose transmitter is free.
abbrev free_line : Device
free_line t port = 0x20

-- `A` in the last cell: the screen moves up, and the cell is above the position's line now.
draw_lem_example :
    (view (draw b'A' last) ≡ record { pos = 1920; cells = line_up (store numbered 1999 0x1741) })
    × IsValid (draw b'A' last)
    × ((draw b'A' last).bg ≡ 1)
    × ((draw b'A' last).fg ≡ 7)
    × ((draw b'A' last).strm ≡ false)
    × ((draw b'A' last).serial.status ≡ last.serial.status)
draw_lem_example = draw_lem b'A' last-IsValid (omega arith)

puts_lem_example :
    (s' : Screen) × (puts free_line 1 (b'h' ∷ b'i' ∷ b'\n' ∷ []) last ≡ some s')
    × (view s' ≡ type_text 1 7 (b'h' ∷ b'i' ∷ b'\n' ∷ []) (view last))
    × IsValid s'
    × (s'.strm ≡ false)
    × ((outs : List (ℕ × ℕ)) × (s'.serial.io.outs ≡ cursor_writes (position s') outs))
puts_lem_example =
    puts_lem free_line 1 (b'h' ∷ b'i' ∷ b'\n' ∷ []) last last-IsValid
      (inr (λ t e. omega (arith, e), omega arith)) (omega arith, (omega arith, (omega arith, tt)))

digits_of_2026 : putn10_loop 31 2026 [] ≡ some (b'2' ∷ b'0' ∷ b'2' ∷ b'6' ∷ [])
unfolding putn10_loop
digits_of_2026 = refl
