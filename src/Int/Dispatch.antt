-- ===== src/Int/Dispatch.antt =====
-- The dispatchers: who is called, and the end of the interrupt.
use korolev.Prelude.{
  ℕ, zero, suc, ◌≤◌, ◌<◌, ◌≡◌, refl, if◌then◌else◌, ltb, leb, List, [], ◌∷◌, ◌++◌, none, some,
  arith, get_elem?, set, length, length-set, get_elem?-set_self,
}
use native.Mathlib.Decide.{dec_lt}
use korolev.Port.{Io, outb}
use korolev.Int.{Regs, Handler, Handlers, int_regh, isr_handler, send_eoi, irq_handler}

-- The commands at the end of the interrupt of a vector, in order.
abbrev pub eoi_writes : ℕ → List (ℕ × ℕ)
eoi_writes vector = if leb 40 vector then (0x20, 0x20) ∷ (0xA0, 0x20) ∷ [] else (0x20, 0x20) ∷ []

module _ {ℓ} {A : Type ℓ} where
  get_elem?-behind : (xs : List A) (i : ℕ) → length xs ≤ i → get_elem? xs i ≡ none
  get_elem?-behind [] i h = refl
  get_elem?-behind (x ∷ xs) zero h = absurd (omega arith)
  get_elem?-behind (x ∷ xs) (suc i) h = get_elem?-behind xs i (omega arith)

module _ {ℓ} {S : Type ℓ} (handlers : Handlers S) (regs : Regs) (s : S) (io : Io) where
  -- After int_regh for its vector, an interrupt line runs exactly the handler registered, once, and
  -- then acknowledges the interrupt: to the second controller first for the lines from 8 on, and
  -- always to the first.
  pub irq_handler_lem :
      (handler : Handler S)
      → length handlers ≡ 256
      → regs.int_no < 256
      → (io' : Io) × (irq_handler (int_regh regs.int_no handler handlers) regs (s, io)
          ≡ some ((handler regs (s, io)).0, io'))
        × (io'.outs ≡ eoi_writes regs.int_no ++ (handler regs (s, io)).1.outs)
  unfolding irq_handler int_regh send_eoi outb
  irq_handler_lem handler size small =
      let read = get_elem?-set_self handlers regs.int_no (some handler) (omega arith) in
      let s' = handler regs (s, io) in
      (send_eoi regs.int_no s'.1, rw (read, irq_handler) refl, ground arith)

  -- After int_regh for its vector, an exception runs exactly the handler registered, and writes
  -- nothing to the ports by itself; but a vector of 256 and above is read from behind the table,
  -- because the test of the bound comes after the read.
  pub isr_handler_lem :
      (handler : Handler S)
      → length handlers ≡ 256
      → isr_handler (int_regh regs.int_no handler handlers) regs (s, io)
        ≡ (if ltb regs.int_no 256 then some (handler regs (s, io)) else none)
  unfolding isr_handler int_regh
  isr_handler_lem handler size = elim (dec_lt regs.int_no 256) [
    | yes h ↦
        let read = get_elem?-set_self handlers regs.int_no (some handler) (omega arith) in
        rw (read, isr_handler) (ground arith)
    | no h ↦
        let new : Handlers S = set handlers regs.int_no (some handler) in
        let behind =
          get_elem?-behind new regs.int_no
            (omega (arith, length-set handlers regs.int_no (some handler))) in
        rw (behind, isr_handler) (ground arith)
  ]
