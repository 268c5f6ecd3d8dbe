-- ===== src/Pci/Irq.antt =====
-- The interrupt table against the list of the drivers that are registered.
use korolev.Prelude.{
  ℕ, suc, ◌≤◌, ◌<◌, ◌≡◌, refl, ap, if◌then◌else◌, ◌==◌, List, [], ◌∷◌, ◌++◌, Option, none, some,
  arith, length, Bool-cases, inl, inr, false,
}
use korolev.Int.{Regs}
use korolev.Pci.{PciIntEntry, call, pci_int_request, pci_int_release, pci_irq_handler}

module _ {ℓ} {S : Type ℓ} where
  -- The entries in use.
  unfoldable pub registered : List (PciIntEntry S) → List (PciIntEntry S)
  registered [] = []
  registered (e ∷ es) = if e.dev == 0 then registered es else e ∷ registered es

  -- The entries that are not of a driver.
  unfoldable pub without : ℕ → List (PciIntEntry S) → List (PciIntEntry S)
  without dev_id [] = []
  without dev_id (e ∷ es) = if e.dev == dev_id then without dev_id es else e ∷ without dev_id es

  -- The handlers of a list of entries, called in order.
  unfoldable pub call_all : List (PciIntEntry S) → Regs → S → Option S
  call_all [] regs s = some s
  call_all (e ∷ es) regs s = elim (call e regs s) [ none ↦ none | some s' ↦ call_all es regs s' ]

  then_same :
      (r : Option S) {f g : S → Option S}
      → ((s : S) → f s ≡ g s)
      → elim r as (λ _. Option S) [ none ↦ none | some s ↦ f s ]
        ≡ elim r as (λ _. Option S) [ none ↦ none | some s ↦ g s ]
  then_same none h = refl
  then_same (some s) h = h s

  -- An interrupt calls the handler of every registered driver, once each and in the order of the
  -- table.
  pub pci_irq_handler_lem :
      (table : List (PciIntEntry S)) (regs : Regs) (s : S)
      → pci_irq_handler table regs s ≡ call_all (registered table) regs s
  unfolding pci_irq_handler registered call_all
  pci_irq_handler_lem [] regs s = refl
  pci_irq_handler_lem (e ∷ es) regs s = elim (Bool-cases (e.dev == 0)) [
    | inl free ↦ rw (free, pci_irq_handler) (pci_irq_handler_lem es regs s)
    | inr used ↦
        rw (used, pci_irq_handler, call_all)
          (then_same (call e regs s) (λ s'. pci_irq_handler_lem es regs s'))
  ]

  registered-pci_int_release :
      (dev_id : ℕ) (table : List (PciIntEntry S))
      → 0 < dev_id
      → registered (pci_int_release dev_id table) ≡ without dev_id (registered table)
  unfolding registered pci_int_release without
  registered-pci_int_release dev_id [] pos = refl
  registered-pci_int_release dev_id (e ∷ es) pos =
      let rest = registered-pci_int_release dev_id es pos in
      elim (Bool-cases (e.dev == dev_id)) [
        | inl own ↦ let used : (e.dev == 0) ≡ false = ground arith in rw (own, used, own) rest
        | inr other ↦ elim (Bool-cases (e.dev == 0)) [
          | inl free ↦ rw (other, free) rest
          | inr used ↦ rw (other, used, other) (ap (λ l. e ∷ l) rest)
        ]
      ]

  length-pci_int_release :
      (dev_id : ℕ) (table : List (PciIntEntry S))
      → length (pci_int_release dev_id table) ≡ length table
  unfolding pci_int_release
  length-pci_int_release dev_id [] = refl
  length-pci_int_release dev_id (e ∷ es) = ap suc (length-pci_int_release dev_id es)

  -- pci_int_release takes all the entries of a driver out of the registered ones, and keeps the others
  -- in their order and the table at its size.
  pub pci_int_release_lem :
      (dev_id : ℕ) (table : List (PciIntEntry S))
      → 0 < dev_id
      → (registered (pci_int_release dev_id table) ≡ without dev_id (registered table))
        × (length (pci_int_release dev_id table) ≡ length table)
  pci_int_release_lem dev_id table pos =
      (registered-pci_int_release dev_id table pos, length-pci_int_release dev_id table)

  length-registered : (table : List (PciIntEntry S)) → length (registered table) ≤ length table
  unfolding registered
  length-registered [] = omega arith
  length-registered (e ∷ es) = ground (arith, length-registered es)

  -- When an entry of the table is free, pci_int_request answers 0 and puts the new entry somewhere
  -- among the registered ones, which keep their order; the table keeps its size.
  pub pci_int_request_lem :
      (new : PciIntEntry S) (table : List (PciIntEntry S))
      → 0 < new.dev
      → length (registered table) < length table
      → let (result, table') = pci_int_request new table in
        (before after : List (PciIntEntry S)) × (registered table ≡ before ++ after)
        × (registered table' ≡ before ++ (new ∷ after))
        × (result ≡ 0)
        × (length table' ≡ length table)
  unfolding pci_int_request registered
  pci_int_request_lem new [] pos room = absurd (omega arith)
  pci_int_request_lem new (e ∷ es) pos room = elim (Bool-cases (e.dev == 0)) [
    | inl free ↦
        let used : (new.dev == 0) ≡ false = ground arith in
        rw (free, used) ([], registered es, refl, refl, refl, refl)
    | inr used ↦
        let less = rw used at room in
        let (before, after, old, grown, ok, size) =
          pci_int_request_lem new es pos (omega (arith, less)) in
        rw (used, used)
          (e ∷ before, after, ap (λ l. e ∷ l) old, ap (λ l. e ∷ l) grown, ok, ap suc size)
  ]

  -- When no entry is free, pci_int_request answers 1 and leaves the table as it is.
  pub pci_int_request_full :
      (new : PciIntEntry S) (table : List (PciIntEntry S))
      → length (registered table) ≡ length table
      → pci_int_request new table ≡ (1, table)
  unfolding pci_int_request registered
  pci_int_request_full new [] full = refl
  pci_int_request_full new (e ∷ es) full = elim (Bool-cases (e.dev == 0)) [
    | inl free ↦ let most = rw free at full in absurd (omega (arith, most, length-registered es))
    | inr used ↦
        let rest = rw used at full in
        rw (used, pci_int_request_full new es (omega (arith, rest))) refl
  ]
