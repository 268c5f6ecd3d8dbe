-- ===== src/E1000/Detect.antt =====
-- e1000_detect_eeprom for a card whose registers stand in memory.
use korolev.Prelude.{
  ℕ, zero, suc, ◌+◌, ◌%◌, ◌^◌, ◌≡◌, refl, ap, ◌∙◌, Bool, true, false, not, bit_and, Option, none,
  some, ◌==◌, arith, Bool-cases, inl, inr,
}
use korolev.Prelude.Slots.{first_index}
use korolev.Port.{Device}
use korolev.E1000.{Bus, E1000Priv, reg_eeprom, e1000_writecmd, e1000_readcmd}
use korolev.E1000.Eeprom.{detect_loop, e1000_detect_eeprom}

abbrev pub found_or_not : Option ℕ → ℕ
found_or_not none = 0
found_or_not (some t) = 1

module _ (machine card : Device) where
  -- The card says at its `t`-th access that it has the memory.
  abbrev pub present : ℕ → ℕ → Bool
  present memory t = not (bit_and (card t ((memory + 0x14) % 2 ^ 32) % 2 ^ 32) 0x10 == 0)

  detect_loop-known :
      (n : ℕ) (p : E1000Priv) (b : Bus)
      → p.eeprom_exists ≡ 1
      → (detect_loop machine card n p b).0.eeprom_exists ≡ 1
  unfolding detect_loop
  detect_loop-known zero p b e = e
  detect_loop-known (suc n) p b e =
      let known : (p.eeprom_exists == 0) ≡ false = ground arith in rw known e

  detect_loop-first_index :
      (n : ℕ) (p : E1000Priv) (b : Bus)
      → p.bar_type ≡ 0
      → p.eeprom_exists ≡ 0
      → (detect_loop machine card n p b).0.eeprom_exists
        ≡ found_or_not (first_index (present (p.memory)) n (b.io.clock))
  unfolding detect_loop first_index e1000_readcmd
  detect_loop-first_index zero p b memory e = e
  detect_loop-first_index (suc n) p b memory e =
      let io = b.io in
      let b' : Bus = record b { io = record io { clock = io.clock + 1 } } in
      let open_ : (p.eeprom_exists == 0) ≡ true = ground arith in
      let direct : (p.bar_type == 0) ≡ true = ground arith in
      elim (Bool-cases
        (bit_and (card (b.io.clock) ((p.memory + 0x14) % 2 ^ 32) % 2 ^ 32) 0x10 == 0)) [
          | inl absent ↦
              rw (open_, direct, absent)
                (detect_loop-first_index n (record p { eeprom_exists = 0 }) b' memory refl)
          | inr here ↦
              rw (open_, direct, here)
                (detect_loop-known n (record p { eeprom_exists = 1 }) b' refl)
        ]

  -- For a card whose registers stand in memory and whose EEPROM is not known yet,
  -- e1000_detect_eeprom answers 1 exactly when the card sets its bit at one of the 1000 looks that
  -- follow the write to the register.
  pub e1000_detect_eeprom_lem :
      (p : E1000Priv) (b : Bus)
      → p.bar_type ≡ 0
      → p.eeprom_exists ≡ 0
      → (e1000_detect_eeprom machine card p b).0
        ≡ found_or_not (first_index (present (p.memory)) 1000 (b.io.clock + 1))
  unfolding e1000_detect_eeprom e1000_writecmd
  e1000_detect_eeprom_lem p b memory e =
      let direct : (p.bar_type == 0) ≡ true = ground arith in
      detect_loop-first_index 1000 p (e1000_writecmd p reg_eeprom 1 b) memory e
      ∙ ap (λ (t : ℕ). found_or_not (first_index (present (p.memory)) 1000 t)) (rw direct refl)
