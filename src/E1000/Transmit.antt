-- ===== src/E1000/Transmit.antt =====
-- Sending a frame.
use korolev.Prelude.{
  ℕ, zero, suc, ◌+◌, ◌%◌, ◌^◌, ◌<◌, ◌≡◌, refl, ap, sym, ◌∙◌, Bool, true, false, not, ◌∷◌, Option,
  none, some, ◌==◌, if◌then◌else◌, arith, Bool-cases, inl, inr, get_or, length, length-set,
  get_or-set, get_or-set_self,
}
use korolev.Prelude.Slots.{first_index}
use korolev.E1000.{Bus, E1000Priv, TxDesc}
use korolev.E1000.Registers.{log, log-writecmd}
use korolev.E1000.Rings.{no_tx_desc, sent_loop, e1000_write}

-- The card has reported on the frame at the `k`-th look.
abbrev pub reported : (ℕ → ℕ) → ℕ → Bool
reported answer k = not (answer k % 2 ^ 8 == 0)

abbrev pub is_some : Option ℕ → Bool
is_some none = false
is_some (some k) = true

sent_loop-first_index :
    (answer : ℕ → ℕ) (n k : ℕ)
    → (sent_loop answer n k).1 ≡ is_some (first_index (reported answer) n k)
unfolding sent_loop first_index
sent_loop-first_index answer zero k = refl
sent_loop-first_index answer (suc n) k = elim (Bool-cases (answer k % 2 ^ 8 == 0)) [
  | inl silent ↦ rw silent (sent_loop-first_index answer n (k + 1))
  | inr heard ↦ rw heard refl
]

-- With a ring of eight descriptors and an index inside it, e1000_write puts the frame into the
-- descriptor at the index, leaves the others, moves the index to the next one, round the ring, and
-- writes it to the tail register. It returns the length of the frame when the card reports on it at one
-- of the first 100 looks, and 0 otherwise.
pub e1000_write_lem :
    (answer : ℕ → ℕ) (buf len : ℕ) (p : E1000Priv) (b : Bus)
    → p.memory < 2 ^ 32
    → length (p.tx_descs) ≡ 8
    → p.tx_cur < 8
    → let (r, p', b') = e1000_write answer buf len p b in
      (r ≡ (if is_some (first_index (reported answer) 100 0) then len else 0))
      × (p'.tx_cur ≡ (p.tx_cur + 1) % 8)
      × (length (p'.tx_descs) ≡ 8)
      × ((get_or (p'.tx_descs) (p.tx_cur) no_tx_desc).addr ≡ buf)
      × ((get_or (p'.tx_descs) (p.tx_cur) no_tx_desc).length ≡ (len + 18) % 2 ^ 16)
      × ((i : ℕ)
          → get_or (p'.tx_descs) i no_tx_desc ≡ (
              if i == p.tx_cur
              then get_or (p'.tx_descs) (p.tx_cur) no_tx_desc
              else get_or (p.tx_descs) i no_tx_desc))
      × (log p b' ≡ (0x3818, (p.tx_cur + 1) % 8) ∷ log p b)
unfolding e1000_write
e1000_write_lem answer buf len p b inside size cur =
    let loop = sent_loop answer 100 0 in
    let desc : TxDesc = record {
      addr = buf;
      length = (14 + len + 4) % 2 ^ 16;
      cmd = 0x1b;
      status = loop.0;
    } in
    let here = get_or-set_self (p.tx_descs) (p.tx_cur) desc no_tx_desc (omega arith) in
    let wrap : (p.tx_cur + 1) % 8 % 2 ^ 32 ≡ (p.tx_cur + 1) % 8 = omega arith in
    (
      ap (λ (t : Bool). if t then len else 0) (sent_loop-first_index answer 100 0),
      refl,
      length-set (p.tx_descs) (p.tx_cur) desc ∙ size,
      ap (λ (d : TxDesc). d.addr) here,
      ap (λ (d : TxDesc). d.length) here ∙ omega arith,
      λ i.
          get_or-set (p.tx_descs) (p.tx_cur) i desc no_tx_desc (omega arith)
          ∙ ap (λ (d : TxDesc). if i == p.tx_cur then d else get_or (p.tx_descs) i no_tx_desc)
              (sym here),
      log-writecmd p inside 0x3818 ((p.tx_cur + 1) % 8) b (omega arith)
          ∙ ap (λ (v : ℕ). (0x3818, v) ∷ log p b) wrap,
    )
