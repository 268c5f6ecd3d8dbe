-- ===== src/E1000/Eeprom.antt =====
-- The memory of the card that holds its address: e1000_detect_eeprom, e1000_eeprom_read and
-- e1000_read_mac.
use korolev.Prelude.{
  ℕ, zero, suc, ◌+◌, ◌*◌, ◌/◌, ◌%◌, ◌^◌, not, bit_and, bit_or, List, [], ◌∷◌, Option, none, some,
  ◌==◌, if◌then◌else◌,
}
use korolev.Port.{Device}
use korolev.Ethernet.{EthDev}
use korolev.E1000.{
  Bus, E1000Priv, reg_eeprom, e1000_writecmd, e1000_readcmd, e1000_mmio_read8, e1000_mmio_read32,
}

module _ (machine card : Device) where
  -- The loop, over the rounds left.
  unfoldable pub detect_loop : ℕ → E1000Priv → Bus → E1000Priv × Bus
  detect_loop zero p b = (p, b)
  detect_loop (suc n) p b =
      let (val, b') = e1000_readcmd machine card p reg_eeprom b in
      let next =
        detect_loop n (record p { eeprom_exists = if bit_and val 0x10 == 0 then 0 else 1 }) b' in
      if p.eeprom_exists == 0 then next else (p, b)

  unfoldable pub e1000_detect_eeprom : E1000Priv → Bus → ℕ × E1000Priv × Bus
  e1000_detect_eeprom p b =
      let (p', b') = detect_loop 1000 p (e1000_writecmd p reg_eeprom 1 b) in
      (p'.eeprom_exists, p', b')

  -- `while (!((tmp = e1000_readcmd(dev, REG_EEPROM)) & mask));` on fuel.
  unfoldable pub await_word : (fuel mask : ℕ) → E1000Priv → Bus → Option (ℕ × Bus)
  await_word zero mask p b = none
  await_word (suc fuel) mask p b =
      let (tmp, b') = e1000_readcmd machine card p reg_eeprom b in
      let again = await_word fuel mask p b' in
      if bit_and tmp mask == 0 then again else some (tmp, b')

  unfoldable pub e1000_eeprom_read : (fuel addr : ℕ) → E1000Priv → Bus → Option (ℕ × Bus)
  e1000_eeprom_read fuel addr p b =
      let old =
        await_word fuel (2 ^ 4) p (e1000_writecmd p reg_eeprom (bit_or 1 (addr * 2 ^ 8)) b) in
      let new =
        await_word fuel (2 ^ 1) p (e1000_writecmd p reg_eeprom (bit_or 1 (addr * 2 ^ 2)) b) in
      elim (if p.eeprom_exists == 0 then new else old) as (λ _. Option (ℕ × Bus)) [
        | none ↦ none
        | some (tmp, b') ↦ some (tmp / 2 ^ 16 % 2 ^ 16, b')
      ]

  infixl 5 ◌>>=◌
  ◌>>=◌ : Option (ℕ × Bus) → (ℕ → Bus → Option (List ℕ × Bus)) → Option (List ℕ × Bus)
  none >>= f = none
  some (v, b) >>= f = f v b

  -- The words from `addr` on, over the words left, by their bytes.
  unfoldable pub eeprom_bytes : (fuel n addr : ℕ) → E1000Priv → Bus → Option (List ℕ × Bus)
  unfolding ◌>>=◌
  eeprom_bytes fuel zero addr p b = some ([], b)
  eeprom_bytes fuel (suc n) addr p b = e1000_eeprom_read fuel addr p b >>= λ tmp b'.
      elim (eeprom_bytes fuel n (addr + 1) p b') as (λ _. Option (List ℕ × Bus)) [
        | none ↦ none
        | some (rest, b'') ↦ some (tmp % 2 ^ 8 ∷ tmp / 2 ^ 8 % 2 ^ 8 ∷ rest, b'')
      ]

  -- `dev->addr[i] = membase_mac_8[i]`, over the rounds left.
  unfoldable pub memory_bytes : (n i : ℕ) → E1000Priv → Bus → List ℕ × Bus
  memory_bytes zero i p b = ([], b)
  memory_bytes (suc n) i p b =
      let (v, b') = e1000_mmio_read8 card ((p.memory + 0x5400) % 2 ^ 32 + i) b in
      let (rest, b'') = memory_bytes n (i + 1) p b' in (v ∷ rest, b'')

  -- The result, and the device with its address; `none` when the fuel runs out.
  unfoldable pub e1000_read_mac : ℕ → E1000Priv → EthDev → Bus → Option (ℕ × EthDev × Bus)
  e1000_read_mac fuel p dev b =
      let by_eeprom = elim (eeprom_bytes fuel 3 0 p b) as (λ _. Option (ℕ × EthDev × Bus)) [
        | none ↦ none
        | some (bytes, b') ↦ some (1, record dev { addr = bytes }, b')
      ] in
      let (first, b1) = e1000_mmio_read32 card ((p.memory + 0x5400) % 2 ^ 32) b in
      let (bytes, b2) = memory_bytes 6 0 p b1 in
      if not (p.eeprom_exists == 0)
      then by_eeprom
      else if not (first == 0)
      then some (1, record dev { addr = bytes }, b2)
      else some (0, dev, b1)
