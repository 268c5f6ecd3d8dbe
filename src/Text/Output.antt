-- ===== src/Text/Output.antt =====
-- Texts on the screen: put, puts and puts_int, with the serial line in front of each character.
use korolev.Prelude.{
  ℕ, ◌+◌, ◌<◌, ◌≡◌, ◌≢◌, refl, ap, ◌∙◌, ◌⊎◌, inl, inr, true, false, List, [], ◌∷◌, some, arith,
  ◌==◌, get_or, Bool-cases,
}
use korolev.Port.{Device, Io}
use korolev.Serial.{serial_enabled}
use korolev.Serial.Line.{free_bit, FreeAfter, serial_write_lem}
use korolev.Text.{Screen, upd_cur, draw, echo, put, put_all, puts}
use korolev.Text.Cursor.{IsValid, view, position, draw_lem}
use korolev.Text.Hardware.{cursor_writes, upd_cur-outs}
use korolev.Text.Terminal.{type_text}

abbrev pub AllAscii : List ℕ → Type 0
AllAscii [] = Unit
AllAscii (c ∷ cs) = (c < 128) × AllAscii cs

module _ (dev : Device) (fuel : ℕ) where
  -- The first serial port is not set up, or its transmitter is free whenever it is asked.
  abbrev pub Ready : Screen → Type 0
  Ready s = (get_or s.serial.status 0 0 ≡ 0) ⊎ (((t : ℕ) → free_bit dev 0 t ≢ 0) × (0 < fuel))

  echo_lem :
      (c : ℕ) (s : Screen)
      → Ready s
      → c < 128
      → (io' : Io) × (echo dev fuel c s
          ≡ some (record s { serial = record (s.serial) { io = io' } }))
  unfolding serial_enabled
  echo_lem c s (inl off) h = (s.serial.io, ground arith)
  echo_lem c s (inr (free, pos)) h = elim (Bool-cases (get_or s.serial.status 0 0 == 0)) [
    | inl off ↦ (s.serial.io, rw off refl)
    | inr on ↦
        let now : FreeAfter dev 0 s.serial.io.clock 0 = record {
          busy = λ i lt. absurd (omega arith);
          ready = free (s.serial.io.clock + 0);
        } in
        let (io', sent, outs, lo, hi) =
          serial_write_lem dev 0 0 fuel c s.serial.io now pos (omega arith) in
        (io', rw (on, sent) refl)
  ]

  -- What a text leaves on the screen.
  pub record Typed (cs : List ℕ) (s s' : Screen) : Type 0 where
    pub shown : view s' ≡ type_text s.bg s.fg cs (view s)
    pub valid : IsValid s'
    pub fg : s'.fg ≡ s.fg
    pub bg : s'.bg ≡ s.bg
    pub strm : s'.strm ≡ s.strm
    pub status : s'.serial.status ≡ s.serial.status

  put_lem :
      (c : ℕ) (s : Screen)
      → IsValid s
      → Ready s
      → c < 128
      → (s' : Screen) × (put dev fuel c s ≡ some s') × Typed (c ∷ []) s s'
  unfolding put type_text
  put_lem c s v r h =
      let (io', sent) = echo_lem c s r h in
      let s1 : Screen = record s { serial = record (s.serial) { io = io' } } in
      let v1 : IsValid s1 = record { column = v.column; line = v.line; fg = v.fg; bg = v.bg } in
      let (shown, valid, bg, fg, strm, status) = draw_lem {s = s1} c v1 h in
      (
        draw c s1,
        rw (sent, put) refl,
        record { shown = shown; valid = valid; fg = fg; bg = bg; strm = strm; status = status },
      )

  Ready-Typed : {cs : List ℕ} {s s' : Screen} → Typed cs s s' → Ready s → Ready s'
  Ready-Typed t (inl off) = inl (rw (t.status) off)
  Ready-Typed t (inr free) = inr free

  pub put_all-Typed :
      (cs : List ℕ) (s : Screen)
      → IsValid s
      → Ready s
      → AllAscii cs
      → (s' : Screen) × (put_all dev fuel cs s ≡ some s') × Typed cs s s'
  unfolding put_all type_text
  put_all-Typed [] s v r h = (
    s,
    refl,
    record { shown = refl; valid = v; fg = refl; bg = refl; strm = refl; status = refl },
  )
  put_all-Typed (c ∷ cs) s v r h =
      let (s1, done, t1) = put_lem c s v r h.0 in
      let (s', rest, t) = put_all-Typed cs s1 t1.valid (Ready-Typed t1 r) h.1 in
      (
        s',
        rw (done) rest,
        record {
          shown = t.shown ∙ rw (t1.fg, t1.bg) (ap (type_text s.bg s.fg cs) t1.shown);
          valid = t.valid;
          fg = t.fg ∙ t1.fg;
          bg = t.bg ∙ t1.bg;
          strm = t.strm ∙ t1.strm;
          status = t.status ∙ t1.status;
        },
      )

  -- On a valid screen whose serial port is off or always free, puts returns. It leaves the text of
  -- seven-bit characters on the screen as on the terminal, the screen valid, the string mode off,
  -- and the video card's cursor where the next character goes.
  pub puts_lem :
      (cs : List ℕ) (s : Screen)
      → IsValid s
      → Ready s
      → AllAscii cs
      → (s' : Screen) × (puts dev fuel cs s ≡ some s')
        × (view s' ≡ type_text s.bg s.fg cs (view s))
        × IsValid s'
        × (s'.strm ≡ false)
        × ((outs : List (ℕ × ℕ)) × (s'.serial.io.outs ≡ cursor_writes (position s') outs))
  unfolding puts upd_cur
  puts_lem cs s v r h =
      let s1 : Screen = record s { strm = true } in
      let v1 : IsValid s1 = record { column = v.column; line = v.line; fg = v.fg; bg = v.bg } in
      let (s2, done, t) = put_all-Typed cs s1 v1 r h in
      let v2 = t.valid in
      (
        upd_cur (record s2 { strm = false }),
        rw (done, puts) refl,
        t.shown,
        record { column = v2.column; line = v2.line; fg = v2.fg; bg = v2.bg },
        refl,
        (s2.serial.io.outs, upd_cur-outs (record s2 { strm = false }) v2.column v2.line),
      )
