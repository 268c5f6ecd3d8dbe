-- ===== src/Ide/Native.antt =====
-- The mode of a channel: which byte of the configuration space decides it, and how its wait ends.
use native.Mathlib.Decide.{ℕ_discrete}
use korolev.Prelude.{
  ℕ, ◌+◌, ◌^◌, ◌≤◌, ◌<◌, ◌≡◌, refl, bit_and, bit_or, Option, some, ◌==◌, if◌then◌else◌, arith, Bool,
  ◌&&◌, Bool-cases, inl, inr,
}
use korolev.Port.{Device, Io}
use korolev.Timer.{Timer, sleep}
use korolev.Timer.Ticks.{at}
use korolev.Timer.Sleep.{sleep_lem, sleep_start}
use korolev.Pci.{conf_data, pci_cfg_readb, pci_cfg_writeb}
use korolev.Pci.Config.{dword, pci_cfg_read_lem}
use korolev.Ide.{cfg_pif, channel_mask, ide_channel_setnative}

-- Neither the byte that is read as the programming interface has the bit of the channel, nor has the
-- byte that is read after its lowest bit was set.
abbrev pub stays_compat : Device → (bus device function channel : ℕ) → Io → Bool
stays_compat machine bus device function channel io =
    let (pif, io1) = pci_cfg_readb machine bus device function cfg_pif io in
    let io2 = pci_cfg_writeb bus device function cfg_pif (bit_or pif 1) io1 in
    let pif' = (pci_cfg_readb machine bus device function cfg_pif io2).0 in
    let bit : ℕ = if channel == 2 then 4 else 1 in bit_and pif bit == 0 && bit_and pif' bit == 0

module _ (machine : Device) (arrivals : ℕ → ℕ → ℕ) (fuel g : ℕ)
    (some_come : (channel k : ℕ) → (1 ≤ arrivals channel k) × (arrivals channel k ≤ g))
    (enough : 1 < fuel) where
  -- A sleep of one tick from `n` ticks on; before the first interrupt it does not wait.
  wakes :
      (channel n : ℕ)
      → n + 1 + g < 2 ^ 32
      → (tick : ℕ) × (sleep (arrivals channel) fuel 1 (at n) ≡ some (at tick)) × (tick ≤ n + 1 + g)
  wakes channel n small = elim (ℕ_discrete n 0) [
    | yes e ↦ (n, sleep_start (arrivals channel) fuel 1 (at n) e, omega arith)
    | no ne ↦
        let (tick, woken, late, soon) =
          sleep_lem (arrivals channel) g (some_come channel) fuel 1 n (omega arith) small enough in
        (tick, woken, omega arith)
  ]

  -- The channel's answer, however long the wait.
  pub record Answered (compat : Bool) (n : ℕ) (r : Option (ℕ × (Timer × Io))) : Type 0 where
    pub failed : ℕ
    pub stays : failed ≡ (if compat then 1 else 0)
    pub tick : ℕ
    pub io : Io
    pub returned : r ≡ some (failed, (at tick, io))
    pub soon : tick ≤ n + 1 + g

  pub setnative-Answered :
      (bus device function channel n : ℕ) (io : Io)
      → n + 1 + g < 2 ^ 32
      → Answered
          (stays_compat machine bus device function channel io)
          n
          (ide_channel_setnative machine arrivals fuel bus device function channel (at n) io)
  unfolding ide_channel_setnative
  setnative-Answered bus device function channel n io small =
      let pif = pci_cfg_readb machine bus device function cfg_pif io in
      let io2 = pci_cfg_writeb bus device function cfg_pif (bit_or (pif.0) 1) (pif.1) in
      let pif' = pci_cfg_readb machine bus device function cfg_pif io2 in
      let (tick, woken, soon) = wakes channel n small in
      elim (Bool-cases (bit_and (pif.0) (channel_mask channel) == 0)) [
        | inl compat ↦
            rw (compat, woken)
              (record {
                failed = if bit_and (pif'.0) (channel_mask channel) == 0 then 1 else 0;
                stays = refl;
                tick = tick;
                io = pif'.1;
                returned = refl;
                soon = soon;
              })
        | inr native ↦ rw native (record {
          failed = 0;
          stays = refl;
          tick = n;
          io = pif.1;
          returned = refl;
          soon = omega arith;
        })
      ]

  -- When the configuration space answers with the same double word at both looks, and between 1 and `g`
  -- interrupts of the timer come between two looks of the sleep, ide_channel_setnative returns, and
  -- its answer depends on the revision of the controller and not on its programming interface: 0 when
  -- the bit of the channel is set in the revision, 1 otherwise.
  pub ide_channel_setnative_lem :
      (bus device function channel rev pif sub class n : ℕ) (io : Io)
      → rev < 2 ^ 8
      → pif < 2 ^ 8
      → sub < 2 ^ 8
      → class < 2 ^ 8
      → ((t : ℕ) → machine t conf_data ≡ dword rev pif sub class)
      → n + 1 + g < 2 ^ 32
      → (tick : ℕ) × (io' : Io) × (ide_channel_setnative machine arrivals fuel bus device function
            channel
            (at n)
            io
          ≡ some (if bit_and rev (channel_mask channel) == 0 then 1 else 0, (at tick, io')))
  unfolding ide_channel_setnative
  ide_channel_setnative_lem bus device function channel rev pif sub class n io hr hp hs hc answers
        small =
      let look : (io : Io) → (pci_cfg_readb machine bus device function cfg_pif io).0 ≡ rev = λ io.
        (pci_cfg_read_lem machine bus device function cfg_pif rev pif sub class io hr hp hs hc
          (answers (io.clock + 1))).0 in
      let first = pci_cfg_readb machine bus device function cfg_pif io in
      let written = pci_cfg_writeb bus device function cfg_pif (bit_or (first.0) 1) (first.1) in
      let (tick, woken, soon) = wakes channel n small in
      elim (Bool-cases (bit_and rev (channel_mask channel) == 0)) [
        | inl compat ↦
            rw (ide_channel_setnative, look io, compat, woken, look written, compat) (tick, _, refl)
        | inr native ↦ rw (ide_channel_setnative, look io, native) (n, _, refl)
      ]
