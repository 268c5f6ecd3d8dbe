-- ===== src/E1000/Receive.antt =====
-- Taking the frames that have come in.
use korolev.Prelude.{
  ℕ, zero, suc, ◌+◌, ◌%◌, ◌^◌, ◌<◌, ◌≡◌, refl, ap, ◌∙◌, Bool, true, false, not, List, ◌∷◌, Option,
  some, ◌==◌, arith, Bool-cases, inl, inr, get_or, set, length, length-set,
}
use korolev.Prelude.Slots.{passing, passing-set, passing-le}
use korolev.E1000.{Bus, E1000Priv, RxDesc, e1000_writecmd}
use korolev.E1000.Registers.{log, log-writecmd}
use korolev.E1000.Rings.{no_rx_desc, receive_loop, e1000_receive}

-- The card has put a frame into the descriptor.
abbrev pub is_full : RxDesc → Bool
is_full d = not (d.status % 2 == 0)

-- Writes of `m` indices in turn, from `cur` on round the ring, to the tail register, before the log.
abbrev pub tails : (m cur : ℕ) → List (ℕ × ℕ) → List (ℕ × ℕ)
tails zero cur l = l
tails (suc m) cur l = tails m ((cur + 1) % 32) ((0x2818, cur) ∷ l)

-- `m` frames were taken, from the index on round the ring: each is one full descriptor less and one
-- write to the tail register, and the index ends at a descriptor that is not full.
pub data Taken (p : E1000Priv) (b : Bus) : Option (E1000Priv × Bus) → Type 0 where
  taken :
      (m : ℕ) (p' : E1000Priv) (b' : Bus)
      → p'.rx_cur ≡ (p.rx_cur + m) % 32
      → is_full (get_or (p'.rx_descs) (p'.rx_cur) no_rx_desc) ≡ false
      → passing is_full (p'.rx_descs) + m ≡ passing is_full (p.rx_descs)
      → length (p'.rx_descs) ≡ 32
      → log p b' ≡ tails m (p.rx_cur) (log p b)
      → Taken p b (some (p', b'))

module _ (dma : ℕ → List RxDesc → List RxDesc)
    (quiet : (k : ℕ) (descs : List RxDesc) → dma k descs ≡ descs) where
  Taken-next :
      (p : E1000Priv) (b : Bus) (desc : RxDesc) {r : Option (E1000Priv × Bus)}
      → p.memory < 2 ^ 32
      → length (p.rx_descs) ≡ 32
      → p.rx_cur < 32
      → is_full (get_or (p.rx_descs) (p.rx_cur) no_rx_desc) ≡ true
      → desc.status ≡ 0
      → Taken
          (record p { rx_descs = set (p.rx_descs) (p.rx_cur) desc; rx_cur = (p.rx_cur + 1) % 32 })
          (e1000_writecmd p 0x2818 (p.rx_cur) b)
          r
      → Taken p b r
  Taken-next p b desc inside size cur full empty (taken m p' b' at ended count long written) =
      let off : is_full desc ≡ false = ground arith in
      let less =
        passing-set is_full (p.rx_descs) (p.rx_cur) desc no_rx_desc (omega arith) full off in
      let wrap : p.rx_cur % 2 ^ 32 ≡ p.rx_cur = omega arith in
      taken (suc m) p' b' (at ∙ omega arith) ended (omega (arith, less)) long (
        written
        ∙ ap (tails m ((p.rx_cur + 1) % 32)) (
            log-writecmd p inside 0x2818 (p.rx_cur) b (omega arith)
            ∙ ap (λ (v : ℕ). (0x2818, v) ∷ log p b) wrap))

  receive_loop-Taken :
      (fuel k : ℕ) (p : E1000Priv) (b : Bus)
      → p.memory < 2 ^ 32
      → length (p.rx_descs) ≡ 32
      → p.rx_cur < 32
      → passing is_full (p.rx_descs) < fuel
      → Taken p b (receive_loop dma fuel k p b)
  unfolding receive_loop
  receive_loop-Taken zero k p b inside size cur enough = absurd (omega arith)
  receive_loop-Taken (suc fuel) k p b inside size cur enough =
      let old = get_or (p.rx_descs) (p.rx_cur) no_rx_desc in
      let desc : RxDesc = record old { status = 0 } in
      let p' : E1000Priv = record p {
        rx_descs = set (p.rx_descs) (p.rx_cur) desc;
        rx_cur = (p.rx_cur + 1) % 32;
      } in
      rw (quiet k (p.rx_descs)) (elim (Bool-cases (old.status % 2 == 0)) [
        | inl idle ↦ rw idle (taken 0 p b (omega arith) (rw idle refl) (omega arith) size refl)
        | inr busy ↦
            let full : is_full old ≡ true = rw busy refl in
            let less =
              passing-set is_full (p.rx_descs) (p.rx_cur) desc no_rx_desc (omega arith) full refl in
            rw busy (
              Taken-next p b desc inside size cur full refl (
                receive_loop-Taken fuel (k + 1) p' _ inside
                  (length-set (p.rx_descs) (p.rx_cur) desc ∙ size) (omega arith)
                  (omega (arith, less))))
      ])

  -- While the card adds no frame, with a ring of 32 descriptors and an index inside it, e1000_receive
  -- ends within 33 looks: from its index on round the ring it takes the frames up to the first
  -- descriptor that is not full, with one write to the tail register for each.
  pub e1000_receive_lem :
      (p : E1000Priv) (b : Bus)
      → p.memory < 2 ^ 32
      → length (p.rx_descs) ≡ 32
      → p.rx_cur < 32
      → Taken p b (e1000_receive dma 33 p b)
  unfolding e1000_receive
  e1000_receive_lem p b inside size cur =
      receive_loop-Taken 33 0 p b inside size cur (omega (arith, passing-le is_full (p.rx_descs)))
