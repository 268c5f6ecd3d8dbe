-- ===== src/Text/Hardware.antt =====
-- The video card's own cursor: what upd_cur writes, and when put calls it.
use korolev.Prelude.{
  ℕ, ◌+◌, ◌/◌, ◌%◌, ◌^◌, ◌≤◌, ◌<◌, ◌≡◌, ◌⊎◌, inl, inr, refl, ◌∙◌, ap, Bool, true, false, List, ◌∷◌,
  arith, ◌==◌, if◌then◌else◌,
}
use native.Mathlib.Decide.{ℕ_discrete}
use korolev.Mem.{store}
use korolev.Port.{outb}
use korolev.Text.{Screen, upd_cur, wrap_x, wrap_y, move_cur, cell, draw}
use korolev.Text.Cursor.{IsValid, position}

-- The writes that set the card's cursor to a position, newest first, before those in `outs`.
abbrev pub cursor_writes : ℕ → List (ℕ × ℕ) → List (ℕ × ℕ)
cursor_writes pos outs =
    (0x3D5, pos / 2 ^ 8) ∷ (0x3D4, 0x0E) ∷ (0x3D5, pos % 2 ^ 8) ∷ (0x3D4, 0x0F) ∷ outs

pub upd_cur-outs :
    (s : Screen)
    → s.text_x < 80
    → s.text_y < 25
    → (upd_cur s).serial.io.outs ≡ cursor_writes (position s) s.serial.io.outs
unfolding upd_cur outb
upd_cur-outs s hx hy = ground arith

-- What the two tests of move_cur leave, from the indices that put sets.
record Wrapped (s w : Screen) : Type 0 where
  column : w.text_x < 80
  line : w.text_y < 25
  strm : w.strm ≡ s.strm
  outs : w.serial.io.outs ≡ s.serial.io.outs

wraps-Wrapped :
    (s : Screen)
    → (s.text_x < 80) ⊎ (s.text_x ≡ 255)
    → s.text_y ≤ 25
    → Wrapped s (wrap_y (wrap_x (record s { text_x = (s.text_x + 1) % 2 ^ 8 })))
unfolding wrap_x wrap_y
wraps-Wrapped s hx hy = ground arith

shown-outs :
    (b : Bool) (s w : Screen)
    → Wrapped s w
    → b ≡ false
    → (if b then w else upd_cur w).serial.io.outs
      ≡ cursor_writes (position (if b then w else upd_cur w)) s.serial.io.outs
unfolding upd_cur
shown-outs true s w r h = cc
shown-outs false s w r h = upd_cur-outs w r.column r.line ∙ ap (cursor_writes (position w)) r.outs

move_cur-outs :
    (s : Screen)
    → s.strm ≡ false
    → (s.text_x < 80) ⊎ (s.text_x ≡ 255)
    → s.text_y ≤ 25
    → (move_cur s).serial.io.outs ≡ cursor_writes (position (move_cur s)) s.serial.io.outs
unfolding move_cur
move_cur-outs s h hx hy = let w = wraps-Wrapped s hx hy in shown-outs _ s _ w (w.strm ∙ h)

-- Outside string mode a character of put moves the card's cursor to the position after it, but for a
-- backspace, which leaves the card's cursor where it was.
pub draw-outs :
    {s : Screen} (c : ℕ)
    → IsValid s
    → s.strm ≡ false
    → (draw c s).serial.io.outs
      ≡ (if c == 8 then s.serial.io.outs else cursor_writes (position (draw c s)) s.serial.io.outs)
unfolding draw
draw-outs {s} c v h = elim (ℕ_discrete c b'\n') [
  | yes e ↦ rw e (
      move_cur-outs (record s { text_y = (s.text_y + 1) % 2 ^ 8; text_x = 255 }) h (inr refl)
        (omega (arith, v.line)))
  | no nl ↦
      let a : (c == b'\n') ≡ false = ground arith in
      elim (ℕ_discrete c 8) [
        | yes e ↦ rw e (ground arith)
        | no bs ↦
            let b : (c == 8) ≡ false = ground arith in
            rw (a, b)
              (move_cur-outs (record s { cells = store s.cells (position s) (cell s c) }) h
                (inl v.column) (omega (arith, v.line)))
      ]
]
