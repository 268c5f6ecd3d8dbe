-- ===== src/E1000/Rings.antt =====
-- The rings of descriptors: e1000_rxinit, e1000_txinit, e1000_write and e1000_receive.
use korolev.Prelude.{
  ℕ, zero, suc, ◌+◌, ◌-◌, ◌*◌, ◌%◌, ◌^◌, Bool, true, false, List, [], ◌∷◌, Option, none, some, ◌==◌,
  if◌then◌else◌, get_or, set, replicate,
}
use korolev.Alloc.{Pages, malloc}
use korolev.E1000.{Bus, E1000Priv, RxDesc, TxDesc, reg_rctrl, reg_tctrl, e1000_writecmd}

abbrev pub e1000_num_rx_desc : ℕ
e1000_num_rx_desc = 32

abbrev pub e1000_num_tx_desc : ℕ
e1000_num_tx_desc = 8

abbrev pub reg_rxdesclo : ℕ
reg_rxdesclo = 0x2800

abbrev pub reg_rxdeschi : ℕ
reg_rxdeschi = 0x2804

abbrev pub reg_rxdesclen : ℕ
reg_rxdesclen = 0x2808

abbrev pub reg_rxdeschead : ℕ
reg_rxdeschead = 0x2810

abbrev pub reg_rxdesctail : ℕ
reg_rxdesctail = 0x2818

abbrev pub reg_txdesclo : ℕ
reg_txdesclo = 0x3800

abbrev pub reg_txdeschi : ℕ
reg_txdeschi = 0x3804

abbrev pub reg_txdesclen : ℕ
reg_txdesclen = 0x3808

abbrev pub reg_txdeschead : ℕ
reg_txdeschead = 0x3810

abbrev pub reg_txdesctail : ℕ
reg_txdesctail = 0x3818

abbrev pub reg_tipg : ℕ
reg_tipg = 0x0410

abbrev pub no_rx_desc : RxDesc
no_rx_desc = record { addr = 0; status = 0 }

abbrev pub no_tx_desc : TxDesc
no_tx_desc = record { addr = 0; length = 0; cmd = 0; status = 0 }

-- Register writes in order.
unfoldable pub write_all : E1000Priv → List (ℕ × ℕ) → Bus → Bus
write_all p [] b = b
write_all p ((addr, val) ∷ ws) b = write_all p ws (e1000_writecmd p addr val b)

-- The descriptors of the receive ring, over the rounds left; each gets a buffer of its own.
unfoldable pub rx_loop : ℕ → Pages → List RxDesc × Pages
rx_loop zero h = ([], h)
rx_loop (suc n) h =
    let (buffer, h') = malloc h (8192 + 16) in
    let (rest, h'') = rx_loop n h' in (record { addr = buffer; status = 0 } ∷ rest, h'')

-- The value of the last write is RCTL_EN, RCTL_SBP, RCTL_UPE, RCTL_MPE, RCTL_SECRC, RCTL_BSIZE_8192
-- and RCTL_BSEX.
unfoldable pub e1000_rxinit : E1000Priv → Pages → Bus → E1000Priv × Pages × Bus
e1000_rxinit p h b =
    let (ptr, h') = malloc h (16 * e1000_num_rx_desc + 16) in
    let (descs, h'') = rx_loop e1000_num_rx_desc h' in
    let p' : E1000Priv = record p { rx_descs = descs; rx_cur = 0 } in
    (
      p',
      h'',
      write_all p
          ((reg_txdesclo, ptr)
            ∷ (reg_txdeschi, 0)
            ∷ (reg_rxdesclo, ptr)
            ∷ (reg_rxdeschi, 0)
            ∷ (reg_rxdesclen, e1000_num_rx_desc * 16)
            ∷ (reg_rxdeschead, 0)
            ∷ (reg_rxdesctail, e1000_num_rx_desc - 1)
            ∷ (reg_rctrl, 2 ^ 1 + 2 ^ 2 + 2 ^ 3 + 2 ^ 4 + 2 ^ 26 + 2 ^ 17 + 2 ^ 25)
            ∷ [])
          b,
    )

-- TSTA_DD is 1. The value of the first write to TCTRL is TCTL_EN, TCTL_PSP, 15 << 4, 64 << 12 and
-- TCTL_RTLC. The length of a descriptor keeps what the memory held, here 0.
unfoldable pub e1000_txinit : E1000Priv → Pages → Bus → E1000Priv × Pages × Bus
e1000_txinit p h b =
    let (ptr, h') = malloc h (16 * e1000_num_tx_desc + 16) in
    let desc : TxDesc = record { addr = 0; length = 0; cmd = 0; status = 1 } in
    let p' : E1000Priv = record p { tx_descs = replicate e1000_num_tx_desc desc; tx_cur = 0 } in
    (
      p',
      h',
      write_all p
          ((reg_txdeschi, 0)
            ∷ (reg_txdesclo, ptr)
            ∷ (reg_txdesclen, e1000_num_tx_desc * 16)
            ∷ (reg_txdeschead, 0)
            ∷ (reg_txdesctail, 0)
            ∷ (reg_tctrl, 2 ^ 1 + 2 ^ 3 + 15 * 2 ^ 4 + 64 * 2 ^ 12 + 2 ^ 24)
            ∷ (reg_tctrl, 0b0110000000000111111000011111010)
            ∷ (reg_tipg, 0x60200a)
            ∷ [])
          b,
    )

-- `while (!(status & 0xff)) { sleep(1); timeout--; if (!timeout) goto timeout; }`, over the value of
-- `timeout`; `answer k` is the status that the card has left at the `k`-th look. The status at the last
-- look, and whether the frame was sent.
unfoldable pub sent_loop : (ℕ → ℕ) → (timeout k : ℕ) → ℕ × Bool
sent_loop answer zero k = (0, false)
sent_loop answer (suc timeout) k =
    let again = sent_loop answer timeout (k + 1) in
    if answer k % 2 ^ 8 == 0 then again else (answer k % 2 ^ 8, true)

-- The length of an ethernet header is 14; the command is CMD_EOP, CMD_IFCS, CMD_RS and CMD_RPS.
unfoldable pub e1000_write : (ℕ → ℕ) → (buf len : ℕ) → E1000Priv → Bus → ℕ × E1000Priv × Bus
e1000_write answer buf len p b =
    let (seen, sent) = sent_loop answer 100 0 in
    let old_cur = p.tx_cur in
    let next = (old_cur + 1) % e1000_num_tx_desc in
    let desc : TxDesc = record {
      addr = buf;
      length = (14 + len + 4) % 2 ^ 16;
      cmd = 0x1b;
      status = seen;
    } in
    (
      if sent then len else 0,
      record p { tx_descs = set (p.tx_descs) old_cur desc; tx_cur = next },
      e1000_writecmd p reg_txdesctail next b,
    )

-- `while (status & 1)` on fuel; `dma k` is what the card does to the descriptors before the `k`-th look.
unfoldable pub receive_loop :
    (ℕ → List RxDesc → List RxDesc) → (fuel k : ℕ) → E1000Priv → Bus → Option (E1000Priv × Bus)
receive_loop dma zero k p b = none
receive_loop dma (suc fuel) k p b =
    let descs = dma k (p.rx_descs) in
    let desc = get_or descs (p.rx_cur) no_rx_desc in
    let old_cur = p.rx_cur in
    let again =
      receive_loop dma fuel (k + 1)
        (record p {
          rx_descs = set descs old_cur (record desc { status = 0 });
          rx_cur = (old_cur + 1) % e1000_num_rx_desc;
        })
        (e1000_writecmd p reg_rxdesctail old_cur b) in
    if desc.status % 2 == 0 then some (record p { rx_descs = descs }, b) else again

unfoldable pub e1000_receive :
    (ℕ → List RxDesc → List RxDesc) → ℕ → E1000Priv → Bus → Option (E1000Priv × Bus)
e1000_receive dma fuel p b = receive_loop dma fuel 0 p b
