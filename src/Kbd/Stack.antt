-- ===== src/Kbd/Stack.antt =====
-- The keyboard's stack against a bounded stack of events, the newest on top.
use korolev.Prelude.{
  ℕ, suc, ◌+◌, ◌-◌, ◌%◌, ◌≤◌, ◌≡◌, ap, ◌∙◌, bit_and, Bool, true, false, ◌||◌, List, ◌∷◌, some,
  arith, ◌==◌, if◌then◌else◌, length, drop, drop-set_self, drop-suc-set, length-set, drop-get_elem?,
  length-drop,
}
use native.Mathlib.Decide.{ℕ_discrete}
use korolev.Prelude.Bits.{bit_and_digit}
use korolev.Prelude.{inl, inr, ltb, Bool-cases, ◌^◌, ◌%◌, ◌==◌, if◌then◌else◌, bit_and}
use korolev.Port.{Device, Io, inb}
use korolev.Kbd.{kbd_interrupt, KbdEvent, Keyboard, bit, kbd_push, kbd_scancode, kbd_avail, kbd_pop}

pub record IsValid (k : Keyboard) : Type 0 where
  pub size : length k.stack ≡ 512
  pub top : k.sp ≤ 511

-- The events that wait, the newest first.
abbrev pub pending : Keyboard → List KbdEvent
pending k = drop (suc k.sp) k.stack

abbrev pub is_modifier : ℕ → Bool
is_modifier kc = kc == 0x2a || kc == 0x36 || kc == 0x1d || kc == 0x38

-- The event of a key that is no modifier: a press, whatever the scancode's highest bit says.
abbrev pub key_event : ℕ → Bool → Keyboard → KbdEvent
key_event scancode spec k = record {
  keycode = scancode % 128;
  release = 0;
  ctrl = bit k.ctrl;
  alt = bit k.alt;
  shift = bit k.shift;
  special = if spec then 1 else 0;
}

release-zero : (scancode : ℕ) → bit (bit_and scancode 0x80) ≡ 0
release-zero scancode = omega (arith, bit_and_digit scancode 0x80)

kbd_push_lem :
    {k : Keyboard} (event : KbdEvent)
    → IsValid k
    → IsValid (kbd_push event k)
      × (pending (kbd_push event k)
          ≡ (if length (pending k) == 511 then pending k else event ∷ pending k))
unfolding kbd_push
kbd_push_lem {k} event v = elim (ℕ_discrete k.sp 0) [
  | yes e ↦
      let full : (length (pending k) == 511) ≡ true =
        ground (arith, length-drop (suc k.sp) k.stack) in
      let z : (k.sp == 0) ≡ true = ground arith in
      (
        record { size = length-set k.stack k.sp event ∙ v.size; top = ground arith },
        rw (full, z) (drop-suc-set k.stack k.sp event),
      )
  | no ne ↦
      let room : (length (pending k) == 511) ≡ false =
        ground (arith, length-drop (suc k.sp) k.stack) in
      let z : (k.sp == 0) ≡ false = ground arith in
      let e : suc (k.sp - 1) ≡ k.sp = omega arith in
      (
        record { size = length-set k.stack k.sp event ∙ v.size; top = ground arith },
        rw (room, z, e) (drop-set_self k.stack k.sp event (omega arith)),
      )
]

-- A scancode keeps the stack's bounds. That of a modifier key leaves the events that wait as they
-- are. That of another key puts its event on top, as a press also when the key is released; but when
-- 511 events wait, the event is lost.
pub kbd_scancode_lem :
    {k : Keyboard} (scancode : ℕ) (spec : Bool)
    → IsValid k
    → IsValid (kbd_scancode scancode spec k)
      × (pending (kbd_scancode scancode spec k) ≡ (
          if is_modifier (scancode % 128)
          then pending k
          else if length (pending k) == 511
          then pending k
          else key_event scancode spec k ∷ pending k))
unfolding kbd_scancode
kbd_scancode_lem {k} scancode spec v =
    ground (arith, release-zero scancode, kbd_push_lem (key_event scancode spec k) v)

pub waiting : {k : Keyboard} → IsValid k → length (pending k) ≡ 511 - k.sp
waiting {k} v = omega (arith, length-drop (suc k.sp) k.stack, v.size)

-- kbd_avail says whether an event waits.
pub kbd_avail_lem : {k : Keyboard} → IsValid k → kbd_avail k ≡ ltb 0 (length (pending k))
unfolding kbd_avail
kbd_avail_lem v = ground (arith, waiting v)

-- When an event waits, kbd_avail says so, and kbd_pop takes the newest event off and keeps the
-- stack's bounds.
pub kbd_pop_lem :
    {k : Keyboard} {e : KbdEvent} {es : List KbdEvent}
    → IsValid k
    → pending k ≡ e ∷ es
    → (kbd_avail k ≡ true)
      × ((kbd_pop k).0 ≡ some e)
      × (pending (kbd_pop k).1 ≡ es)
      × IsValid (kbd_pop k).1
unfolding kbd_pop
kbd_pop_lem {k} v h =
    let next : k.sp + 1 ≡ suc k.sp = omega arith in
    let (at, rest) = drop-get_elem? k.stack (suc k.sp) h in
    let n = ap length h in
    (
      kbd_avail_lem v ∙ ground (arith, n),
      rw next at,
      rw next rest,
      record { size = v.size; top = omega (arith, waiting v, n) },
    )

kbd_scancode-length :
    {k : Keyboard} (scancode : ℕ) (spec : Bool)
    → IsValid k
    → let n = length (pending (kbd_scancode scancode spec k)) in
      (length (pending k) ≤ n) × (n ≤ length (pending k) + 1)
kbd_scancode-length {k} scancode spec v =
    let e = ap length (kbd_scancode_lem scancode spec v).1 in (ground (arith, e), ground (arith, e))

-- Whatever the controller answers, an interrupt keeps the stack's bounds, takes no waiting event
-- away and adds at most one; and without a byte in the controller's buffer it leaves the keyboard
-- as it is.
pub kbd_interrupt_lem :
    (dev : Device) {k : Keyboard} (io : Io)
    → IsValid k
    → let k' = (kbd_interrupt dev (k, io)).0 in
      IsValid k'
      × (length (pending k) ≤ length (pending k'))
      × (length (pending k')
          ≤ length (pending k) + (if bit_and (dev io.clock 0x64 % 2 ^ 8) 1 == 0 then 0 else 1))
unfolding kbd_interrupt inb
kbd_interrupt_lem dev {k} io v = elim (Bool-cases (bit_and (dev io.clock 0x64 % 2 ^ 8) 1 == 0)) [
  | inl idle ↦ rw idle (v, omega arith, omega arith)
  | inr full ↦ elim (Bool-cases (dev (io.clock + 1) 0x60 % 2 ^ 8 == 0xE0)) [
    | inl two ↦
        let c = dev (io.clock + 1 + 1 + 1) 0x60 % 2 ^ 8 in
        let (lo, hi) = kbd_scancode-length c true v in
        rw (full, two) ((kbd_scancode_lem c true v).0, lo, hi)
    | inr one ↦
        let c = dev (io.clock + 1) 0x60 % 2 ^ 8 in
        let (lo, hi) = kbd_scancode-length c false v in
        rw (full, one) ((kbd_scancode_lem c false v).0, lo, hi)
  ]
]
