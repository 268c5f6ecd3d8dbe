-- ===== src/Text.antt =====
-- kernel/text.c: the text screen. Its memory is the cells at TEXTMEM, numbered from 0; a cell holds
-- a 16-bit word. A text (`char*`) is the list of its characters before the NUL.
pub mod Scroll
mod Tests
pub mod Terminal
pub mod Cursor
pub mod Decimal
pub mod Hardware
pub mod Output
pub mod Positional
use korolev.Prelude.{
  ℕ, zero, suc, ◌+◌, ◌-◌, ◌*◌, ◌/◌, ◌%◌, ◌^◌, bit_or, Bool, true, false, List, [], ◌∷◌, Option,
  none, some, ltb, leb, ◌==◌, if◌then◌else◌,
}
use korolev.Mem.{Mem, store}
use korolev.Number.{sign_extend}
use korolev.Port.{Device, Io, outb}
use korolev.Serial.{Serial, serial_enabled, serial_write}

-- `text_x`, `text_y`, `strm`, `fg`, `bg`, the cells of the screen, and the serial line.
pub record Screen : Type 0 where
  pub text_x : ℕ
  pub text_y : ℕ
  pub strm : Bool
  pub fg : ℕ
  pub bg : ℕ
  pub cells : Mem
  pub serial : Serial

-- `for (a = TEXTMEM; a < TEXTMEM + 2000; a++) *a = *(a + 80);` over the rounds left
scroll_copy : ℕ → ℕ → Mem → Mem
scroll_copy zero a m = m
scroll_copy (suc n) a m = scroll_copy n (a + 1) (store m a (m (a + 80)))

-- `for (...; a++) *a = 0;` over the rounds left
pub blank : ℕ → ℕ → Mem → Mem
blank zero a m = m
blank (suc n) a m = blank n (a + 1) (store m a 0)

pub scroll : Mem → Mem
scroll m = blank 80 1920 (scroll_copy 2000 0 m)

-- A write to a port, on behalf of the screen.
abbrev pub out : ℕ → ℕ → Screen → Screen
out port val s = record s { serial = record (s.serial) { io = outb port val s.serial.io } }

pub upd_cur : Screen → Screen
upd_cur s =
    let pos = (s.text_y * 80 + s.text_x) % 2 ^ 16 in
    out 0x3D5 (pos / 2 ^ 8) (out 0x3D4 0x0E (out 0x3D5 (pos % 2 ^ 8) (out 0x3D4 0x0F s)))

-- The two tests of move_cur on the indices, one after the other.
wrap_x : Screen → Screen
wrap_x s = if leb 80 s.text_x then record s { text_x = 0; text_y = (s.text_y + 1) % 2 ^ 8 } else s

wrap_y : Screen → Screen
wrap_y s = if leb 25 s.text_y then record s { text_y = 24; cells = scroll s.cells } else s

pub move_cur : Screen → Screen
move_cur s =
    let s' = wrap_y (wrap_x (record s { text_x = (s.text_x + 1) % 2 ^ 8 })) in
    if s'.strm then s' else upd_cur s'

-- `((bg << 4 | fg) << 8) | c` for a signed `char`, stored in 16 bits.
pub cell : Screen → ℕ → ℕ
cell s c = bit_or (bit_or (s.bg * 2 ^ 4) s.fg * 2 ^ 8) (sign_extend c) % 2 ^ 16

-- What put does behind the serial line.
pub draw : ℕ → Screen → Screen
draw c s =
    if c == b'\n'
    then move_cur (record s { text_y = (s.text_y + 1) % 2 ^ 8; text_x = 255 })
    else if c == 8
    then (if s.text_x == 0
        then (if s.text_y == 0
            then record s { text_x = 0 }
            else record s { text_y = s.text_y - 1; text_x = 79 })
        else record s { text_x = s.text_x - 1 })
    else move_cur (record s { cells = store s.cells (s.text_y * 80 + s.text_x) (cell s c) })

-- The loop of clear, over 0x2000 cells.
pub clear : Screen → Screen
clear s = upd_cur (record s { cells = blank 0x2000 0 s.cells; text_x = 0; text_y = 0 })

infixl 5 ◌>>=◌
abbrev pub ◌>>=◌ : Option Screen → (Screen → Option Screen) → Option Screen
none >>= k = none
some s >>= k = k s

-- The character at an index of the map `0123456789abcdef`.
abbrev pub hex_char : ℕ → ℕ
hex_char d = if ltb d 10 then b'0' + d else b'a' + d - 10

-- The fuel bounds the waits for the serial line; `none` when it runs out.
module _ (dev : Device) (fuel : ℕ) where
  abbrev pub echo : ℕ → Screen → Option Screen
  echo c s =
      if serial_enabled 0 s.serial == 0
      then some s
      else elim (serial_write dev fuel 0 c s.serial.io) [
        | none ↦ none
        | some io' ↦ some (record s { serial = record (s.serial) { io = io' } })
      ]

  pub put : ℕ → Screen → Option Screen
  put c s = do s' ← echo c s; some (draw c s')

  -- `while (*s2) put(*s2++);`
  unfoldable pub put_all : List ℕ → Screen → Option Screen
  put_all [] s = some s
  put_all (c ∷ cs) s = do s' ← put c s; put_all cs s'

  pub puts : List ℕ → Screen → Option Screen
  puts cs s = do
    s' ← put_all cs (record s { strm = true })
    some (upd_cur (record s' { strm = false }))

  pub puts_int : List ℕ → Screen → Option Screen
  puts_int cs s = do s' ← put_all cs (record s { strm = true }); some (record s' { strm = false })

  -- `while (o--)` of putn2: `o` is the rounds left, less one; `started` is `s`.
  putn2_loop : ℕ → Bool → ℕ → Screen → Option Screen
  putn2_loop zero started n s = some s
  putn2_loop (suc o) started n s =
      if n / 2 ^ o % 2 == 1
      then put b'1' s >>= putn2_loop o true n
      else ((if started then put b'0' s else some s) >>= putn2_loop o started n)

  pub putn2 : ℕ → Screen → Option Screen
  putn2 n s = if n == 0 then put b'0' s else putn2_loop 31 false n s

  putn16_loop : ℕ → Bool → ℕ → Screen → Option Screen
  putn16_loop zero started n s = some s
  putn16_loop (suc o) started n s =
      let c = hex_char (n / 2 ^ (o * 4) % 16) in
      if c == b'0'
      then ((if started then put c s else some s) >>= putn16_loop o started n)
      else put c s >>= putn16_loop o true n

  pub putn16 : ℕ → Screen → Option Screen
  putn16 n s = if n == 0 then put b'0' s else putn16_loop 8 false n s

-- `while (i--)` of putn10: the characters from `buf + i` up to the NUL at `buf + 31`; `none` when the
-- loop runs off the start of `buf`.
putn10_loop : ℕ → ℕ → List ℕ → Option (List ℕ)
putn10_loop zero n buf = none
putn10_loop (suc i) n buf =
    let a = n % 10 in
    let n' = (n - a) / 10 in
    let buf' = (b'0' + a) ∷ buf in
    let rest = putn10_loop i n' buf' in if n' == 0 then some buf' else rest

module _ (dev : Device) (fuel : ℕ) where
  pub putn10 : ℕ → Screen → Option Screen
  putn10 n s =
      if n == 0
      then put dev fuel b'0' s
      else elim (putn10_loop 31 n []) [ none ↦ none | some cs ↦ puts dev fuel cs s ]

  pub putn : ℕ → ℕ → Screen → Option Screen
  putn n base s =
      if base == 2
      then putn2 dev fuel n s
      else if base == 16
      then putn16 dev fuel n s
      else putn10 n s
