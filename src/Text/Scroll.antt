-- ===== src/Text/Scroll.antt =====
-- scroll of kernel/text.c.
use mathlib.Core.Path.{fun_ext}
use korolev.Prelude.{ℕ, zero, suc, ◌+◌, ◌≡◌, arith, ltb, if◌then◌else◌}
use korolev.Mem.{Mem, store, within}
use korolev.Text.{scroll_copy, blank, scroll}

scroll_copy_cell :
    (n a : ℕ) (m : Mem) (p : ℕ) → scroll_copy n a m p ≡ (if within a n p then m (p + 80) else m p)
unfolding scroll_copy
scroll_copy_cell zero a m p = ground arith
scroll_copy_cell (suc n) a m p =
    ground (arith, scroll_copy_cell n (a + 1) (store m a (m (a + 80))) p)

pub blank_cell : (n a : ℕ) (m : Mem) (p : ℕ) → blank n a m p ≡ (if within a n p then 0 else m p)
unfolding blank
blank_cell zero a m p = ground arith
blank_cell (suc n) a m p = ground (arith, blank_cell n (a + 1) (store m a 0) p)

-- The screen one line up, with an empty last line; nothing changes outside the screen.
abbrev pub line_up : Mem → Mem
line_up m p = if ltb p 1920 then m (p + 80) else if ltb p 2000 then 0 else m p

-- scroll moves every line of the screen up by one, empties the last, and writes nowhere else.
pub scroll_lem : (m : Mem) → scroll m ≡ line_up m
unfolding scroll
scroll_lem m =
    fun_ext
      λ p. ground (arith, blank_cell 80 1920 (scroll_copy 2000 0 m) p, scroll_copy_cell 2000 0 m p)
