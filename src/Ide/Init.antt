-- ===== src/Ide/Init.antt =====
-- How ide_init ends.
use korolev.Prelude.{ℕ, ◌%◌, ◌≡◌, ◌≢◌, ◌⊎◌, List, ◌∷◌, ◌++◌, some, get_elem?, Bool, true, false}
use korolev.Int.{irq14, irq15, Handlers}
use korolev.Timer.{Timer}
use korolev.Pci.{PciIntEntry}
use korolev.Pci.Irq.{registered}
use korolev.Ide.{IdeKernel, ide_handle_irq}

module _ {ℓ} {S : Type ℓ} (message : S → S) where
  -- The registers of the controller: whole addresses, or the old fixed ports.
  pub record IsPlaced (k : IdeKernel S) : Type 0 where
    pub base : (k.pch_base % 4 ≡ 0) ⊎ (k.pch_base ≡ 0x1F0)
    pub ctrl : (k.pch_ctrl % 4 ≡ 0) ⊎ (k.pch_ctrl ≡ 0x3F6)
    pub bm : k.pch_bm % 4 ≡ 0

  -- How the interrupts of the driver are left.
  pub data Enabled (entry : PciIntEntry S) (entries : List (PciIntEntry S)) (handlers : Handlers S)
      (k' : IdeKernel S) : Type ℓ where
    on_line :
        (before after : List (PciIntEntry S))
        → registered entries ≡ before ++ after
        → registered k'.entries ≡ before ++ (entry ∷ after)
        → k'.handlers ≡ handlers
        → Enabled entry entries handlers k'
    parallel :
        k'.entries ≡ entries
        → get_elem? k'.handlers irq14 ≡ some (some (ide_handle_irq message))
        → get_elem? k'.handlers irq15 ≡ some (some (ide_handle_irq message))
        → ((j : ℕ) → j ≢ irq14 → j ≢ irq15 → get_elem? k'.handlers j ≡ get_elem? handlers j)
        → Enabled entry entries handlers k'

  -- The ways in which the set-up ends.
  pub data Ended (stays : Bool) (entry : PciIntEntry S) (k : IdeKernel S)
      : ℕ × IdeKernel S → Type ℓ where
    compat :
        (k' : IdeKernel S)
        → stays ≡ true
        → k' ≡ record k { timer = k'.timer; io = k'.io }
        → Ended stays entry k (1, k')
    ready :
        (k' : IdeKernel S)
        → stays ≡ false
        → IsPlaced k'
        → Enabled entry k.entries k.handlers k'
        → Ended stays entry k (0, k')
