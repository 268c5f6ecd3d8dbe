-- ===== src/Text/Terminal.antt =====
-- What the text screen stands for: a linear tape of 25 lines of 80 cells with one position, that
-- moves up by a line when the position leaves it.
use korolev.Prelude.{ℕ, ◌+◌, ◌-◌, ◌*◌, ◌/◌, List, [], ◌∷◌, leb, ◌==◌, if◌then◌else◌}
use korolev.Mem.{Mem, store}
use korolev.Text.Scroll.{line_up}

pub record Terminal : Type 0 where
  pub pos : ℕ
  pub cells : Mem

-- The position moves on to `p`, which is at most one past the end.
abbrev pub settle : ℕ → Mem → Terminal
settle p m =
    if leb 2000 p then record { pos = 1920; cells = line_up m } else record { pos = p; cells = m }

-- One character, in colours of four bits each.
abbrev pub type_char : ℕ → ℕ → ℕ → Terminal → Terminal
type_char bg fg c t =
    if c == b'\n'
    then settle ((t.pos / 80 + 1) * 80) t.cells
    else if c == 8
    then record t { pos = t.pos - 1 }
    else settle (t.pos + 1) (store t.cells t.pos (bg * 4096 + fg * 256 + c))

unfoldable pub type_text : ℕ → ℕ → List ℕ → Terminal → Terminal
type_text bg fg [] t = t
type_text bg fg (c ∷ cs) t = type_text bg fg cs (type_char bg fg c t)
