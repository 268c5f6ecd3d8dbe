-- ===== src/Text/Cursor.antt =====
-- One character on the screen: draw, the part of put behind the serial line.
use korolev.Prelude.{
  ℕ, ◌+◌, ◌*◌, ◌/◌, ◌%◌, ◌^◌, ◌≤◌, ◌<◌, ◌≡◌, ◌≢◌, refl, ap, ◌∙◌, bit_or, Bool, true, false, arith,
  ◌==◌, if◌then◌else◌,
}
use native.Mathlib.Decide.{ℕ_discrete}
use korolev.Prelude.Bits.{bit_or_above}
use korolev.Mem.{store}
use korolev.Number.{sign_extend}
use korolev.Text.{Screen, upd_cur, wrap_x, wrap_y, move_cur, cell, draw}
use korolev.Text.Scroll.{scroll_lem}
use korolev.Text.Terminal.{Terminal, settle, type_char}

-- The indices are on the screen and the colours have four bits.
pub record IsValid (s : Screen) : Type 0 where
  pub column : s.text_x < 80
  pub line : s.text_y < 25
  pub fg : s.fg < 16
  pub bg : s.bg < 16

abbrev pub position : Screen → ℕ
position s = s.text_y * 80 + s.text_x

abbrev pub view : Screen → Terminal
view s = record { pos = position s; cells = s.cells }

-- The word of an ASCII character: background, foreground, character.
cell_lem : {s : Screen} (c : ℕ) → IsValid s → c < 128 → cell s c ≡ s.bg * 4096 + s.fg * 256 + c
unfolding cell sign_extend
cell_lem {s} c v h = ground (
  arith,
  bit_or_above 4 s.bg s.fg v.fg,
  bit_or_above 8 (bit_or (s.bg * 2 ^ 4) s.fg) c (omega arith),
)

-- What a write to the ports leaves.
record Same (s s' : Screen) : Type 0 where
  x : s'.text_x ≡ s.text_x
  y : s'.text_y ≡ s.text_y
  cells : s'.cells ≡ s.cells
  fg : s'.fg ≡ s.fg
  bg : s'.bg ≡ s.bg
  strm : s'.strm ≡ s.strm
  status : s'.serial.status ≡ s.serial.status

upd_cur-Same : (s : Screen) → Same s (upd_cur s)
unfolding upd_cur
upd_cur-Same s = record {
  x = refl;
  y = refl;
  cells = refl;
  fg = refl;
  bg = refl;
  strm = refl;
  status = refl;
}

-- What move_cur leaves, from indices that put has set.
record Moved (p : ℕ) (s s' : Screen) : Type 0 where
  shown : view s' ≡ settle p s.cells
  column : s'.text_x < 80
  line : s'.text_y < 25
  fg : s'.fg ≡ s.fg
  bg : s'.bg ≡ s.bg
  strm : s'.strm ≡ s.strm
  status : s'.serial.status ≡ s.serial.status

Same-Moved : {p : ℕ} {s s' s'' : Screen} → Moved p s s' → Same s' s'' → Moved p s s''
Same-Moved m e = ground arith

-- The two tests of move_cur, in its two uses: one step on, and the start of a line.
wraps-Moved-next :
    (s : Screen)
    → s.text_x < 80
    → s.text_y < 25
    → Moved (position s + 1) s (wrap_y (wrap_x (record s { text_x = (s.text_x + 1) % 2 ^ 8 })))
unfolding wrap_x wrap_y
wraps-Moved-next s hx hy = ground (arith, scroll_lem s.cells)

wraps-Moved-line :
    (s : Screen)
    → s.text_x ≡ 255
    → s.text_y ≤ 25
    → Moved (s.text_y * 80) s (wrap_y (wrap_x (record s { text_x = (s.text_x + 1) % 2 ^ 8 })))
unfolding wrap_x wrap_y
wraps-Moved-line s hx hy = ground (arith, scroll_lem s.cells)

shown-Moved :
    (b : Bool) (p : ℕ) (s s' : Screen) → Moved p s s' → Moved p s (if b then s' else upd_cur s')
shown-Moved true p s s' m = m
shown-Moved false p s s' m = Same-Moved m (upd_cur-Same s')

move_cur-Moved :
    (p : ℕ) (s : Screen)
    → Moved p s (wrap_y (wrap_x (record s { text_x = (s.text_x + 1) % 2 ^ 8 })))
    → Moved p s (move_cur s)
unfolding move_cur
move_cur-Moved p s m = shown-Moved _ p s _ m

-- What a character does to the screen, against the terminal.
record Drawn (c : ℕ) (s s' : Screen) : Type 0 where
  shown : view s' ≡ type_char s.bg s.fg c (view s)
  column : s'.text_x < 80
  line : s'.text_y < 25
  fg : s'.fg ≡ s.fg
  bg : s'.bg ≡ s.bg
  strm : s'.strm ≡ s.strm
  status : s'.serial.status ≡ s.serial.status

newline-Drawn :
    (s : Screen)
    → IsValid s
    → Drawn b'\n' s (move_cur (record s { text_y = (s.text_y + 1) % 2 ^ 8; text_x = 255 }))
newline-Drawn s v =
    let s0 : Screen = record s { text_y = (s.text_y + 1) % 2 ^ 8; text_x = 255 } in
    let m = move_cur-Moved (s0.text_y * 80) s0 (wraps-Moved-line s0 refl (omega arith)) in
    let e : s0.text_y * 80 ≡ (position s / 80 + 1) * 80 = omega arith in
    record {
      shown = m.shown ∙ ap (λ p. settle p s.cells) e;
      column = m.column;
      line = m.line;
      fg = m.fg;
      bg = m.bg;
      strm = m.strm;
      status = m.status;
    }

type_char-plain :
    (bg fg c : ℕ) (t : Terminal)
    → c ≢ b'\n'
    → c ≢ 8
    → settle (t.pos + 1) (store t.cells t.pos (bg * 4096 + fg * 256 + c)) ≡ type_char bg fg c t
type_char-plain bg fg c t nl bs = ground arith

plain-Drawn :
    (c : ℕ) (s : Screen)
    → IsValid s
    → c < 128
    → c ≢ b'\n'
    → c ≢ 8
    → Drawn c s (move_cur (record s { cells = store s.cells (position s) (cell s c) }))
plain-Drawn c s v h nl bs =
    let s0 : Screen = record s { cells = store s.cells (position s) (cell s c) } in
    let m = move_cur-Moved (position s + 1) s0 (wraps-Moved-next s0 v.column v.line) in
    record {
      shown =
          m.shown
          ∙ ap (λ w. settle (position s + 1) (store s.cells (position s) w)) (cell_lem c v h)
          ∙ type_char-plain s.bg s.fg c (view s) nl bs;
      column = m.column;
      line = m.line;
      fg = m.fg;
      bg = m.bg;
      strm = m.strm;
      status = m.status;
    }

back-Drawn : (s : Screen) → IsValid s → Drawn 8 s (draw 8 s)
unfolding draw
back-Drawn s v = ground arith

draw-Drawn : (s : Screen) (c : ℕ) → IsValid s → c < 128 → Drawn c s (draw c s)
unfolding draw
draw-Drawn s c v h = elim (ℕ_discrete c b'\n') [
  | yes e ↦ rw e (newline-Drawn s v)
  | no nl ↦ elim (ℕ_discrete c 8) [
    | yes e ↦ rw e (back-Drawn s v)
    | no bs ↦
        let a : (c == b'\n') ≡ false = ground arith in
        let b : (c == 8) ≡ false = ground arith in rw (a, b) (plain-Drawn c s v h nl bs)
  ]
]

-- On a valid screen a character of seven bits does to the screen what it does to the terminal, the
-- screen stays valid, and the colours, the string mode and the state of the serial ports stay.
pub draw_lem :
    {s : Screen} (c : ℕ)
    → IsValid s
    → c < 128
    → (view (draw c s) ≡ type_char s.bg s.fg c (view s))
      × IsValid (draw c s)
      × ((draw c s).bg ≡ s.bg)
      × ((draw c s).fg ≡ s.fg)
      × ((draw c s).strm ≡ s.strm)
      × ((draw c s).serial.status ≡ s.serial.status)
draw_lem {s} c v h =
    let d = draw-Drawn s c v h in
    (
      d.shown,
      record { column = d.column; line = d.line; fg = rw (d.fg) v.fg; bg = rw (d.bg) v.bg },
      d.bg,
      d.fg,
      d.strm,
      d.status,
    )
