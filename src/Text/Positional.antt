-- ===== src/Text/Positional.antt =====
-- putn2 and putn16 of kernel/text.c: the digits from the highest place down.
use native.Mathlib.Nat.{
  pow-suc, one-le-pow, mod-lt, mod-eq_of_lt, div-add-mod, mul-add-mod_self_left,
}
use native.Mathlib.Decide.{ℕ_discrete}
use korolev.Prelude.{
  ℕ, zero, suc, ◌+◌, ◌*◌, ◌/◌, ◌%◌, ◌^◌, ◌<◌, ◌≡◌, refl, ap, ◌∙◌, inl, inr, Bool, true, false,
  Option, none, some, List, [], ◌∷◌, arith, ◌==◌, if◌then◌else◌, Bool-cases,
}
use korolev.Number.Itoa.{number, digit_value}
use korolev.Port.{Device}
use korolev.Text.{Screen, ◌>>=◌, put, put_all, putn2_loop, putn2, hex_char, putn16_loop, putn16}

in_range : (r c h w : ℕ) → r < h → c < w → r * w + c < h * w
in_range r c h w p q = grind arith

-- The digit at place `d`, and what stands below it.
mod_split : (b d n : ℕ) → 0 < b → 0 < d → n % (b * d) ≡ n / d % b * d + n % d
mod_split b d n hb hd =
    ap (λ (t : ℕ). t % (b * d)) whole
    ∙ mul-add-mod_self_left (b * d) (n / d / b) low
    ∙ mod-eq_of_lt small
  where
    low : ℕ
    low = n / d % b * d + n % d

    whole : n ≡ b * d * (n / d / b) + low
    whole = omega (arith, div-add-mod n d, ap (λ (t : ℕ). t * d) (div-add-mod (n / d) b))

    small : low < b * d
    small = in_range (n / d % b) (n % d) b d (mod-lt (n / d) hb) (mod-lt n hd)

-- A loop that prints the digits of `n` from place `o - 1` down to place 0: zeros are left out until
-- another digit was printed.
module _ (base : ℕ) (place : ℕ → ℕ) (char : ℕ → ℕ) where
  digits : ℕ → Bool → ℕ → List ℕ
  digits zero started n = []
  digits (suc o) started n =
      let d = n / place o % base in
      if d == 0
      then (if started then char d ∷ digits o started n else digits o started n)
      else char d ∷ digits o true n

  record IsSystem : Type 0 where
    positive : 0 < base
    unit : place 0 ≡ 1
    next : (o : ℕ) → place (suc o) ≡ base * place o
    above : (o : ℕ) → 0 < place o
    char_value : (d : ℕ) → d < base → digit_value (char d) ≡ d

  module _ (sys : IsSystem) where
    one_digit :
        (o n acc : ℕ)
        → (acc * base + n / place o % base) * place o + n % place o
          ≡ acc * place (suc o) + n % place (suc o)
    one_digit o n acc =
        rw (sys.next o, mod_split base (place o) n sys.positive (sys.above o)) (omega arith)

    -- One digit printed in front of those that follow.
    printed :
        (o n acc : ℕ) (ds : List ℕ)
        → ((k : ℕ) → number base k ds ≡ k * place o + n % place o)
        → number base acc (char (n / place o % base) ∷ ds) ≡ acc * place (suc o) + n % place (suc o)
    unfolding number
    printed o n acc ds h =
        rw (sys.char_value (n / place o % base) (mod-lt (n / place o) sys.positive))
          (h (acc * base + n / place o % base) ∙ one_digit o n acc)

    -- No digit printed, since it is a zero in front.
    left_out :
        (o n : ℕ) (ds : List ℕ)
        → (n / place o % base == 0) ≡ true
        → number base 0 ds ≡ 0 * place o + n % place o
        → number base 0 ds ≡ 0 * place (suc o) + n % place (suc o)
    left_out o n ds z h =
        let e : n / place o % base ≡ 0 = ground arith in
        h ∙ ap (λ (d : ℕ). d * place o + n % place o) (omega arith) ∙ one_digit o n 0

    digits-started : (o n acc : ℕ) → number base acc (digits o true n) ≡ acc * place o + n % place o
    unfolding digits number
    digits-started zero n acc = rw (sys.unit) (omega arith)
    digits-started (suc o) n acc = elim (Bool-cases (n / place o % base == 0)) [
      | inl z ↦ rw z (printed o n acc (digits o true n) (digits-started o n))
      | inr nz ↦ rw nz (printed o n acc (digits o true n) (digits-started o n))
    ]

    digits-value : (o n : ℕ) → number base 0 (digits o false n) ≡ 0 * place o + n % place o
    unfolding digits number
    digits-value zero n = rw (sys.unit) (omega arith)
    digits-value (suc o) n = elim (Bool-cases (n / place o % base == 0)) [
      | inl z ↦ rw z (left_out o n (digits o false n) z (digits-value o n))
      | inr nz ↦ rw nz (printed o n 0 (digits o true n) (digits-started o n))
    ]

shift_left : (o : ℕ) → 2 ^ (suc o * 4) ≡ 16 * 2 ^ (o * 4)
shift_left o = omega (
  arith,
  pow-suc 2 (suc (suc (suc (o * 4)))),
  pow-suc 2 (suc (suc (o * 4))),
  pow-suc 2 (suc (o * 4)),
  pow-suc 2 (o * 4),
  ap (λ (t : ℕ). 2 ^ t) (four o),
)
  where
    four : (o : ℕ) → suc o * 4 ≡ suc (suc (suc (suc (o * 4))))
    four o = omega arith

hex : IsSystem 16 (λ o. 2 ^ (o * 4)) hex_char
hex = record {
  positive = omega arith;
  unit = refl;
  next = shift_left;
  above = λ o. one-le-pow (o * 4) 2 (omega arith);
  char_value = λ d h. ground arith;
}

bits : IsSystem 2 (λ o. 2 ^ o) (λ d. b'0' + d)
bits = record {
  positive = omega arith;
  unit = refl;
  next = λ o. omega (arith, pow-suc 2 o);
  above = λ o. one-le-pow o 2 (omega arith);
  char_value = λ d h. ground arith;
}

module _ (dev : Device) (fuel : ℕ) where
  -- Two ways to go on that agree on every screen.
  bind_cong :
      (o : Option Screen) {f g : Screen → Option Screen}
      → ((s : Screen) → f s ≡ g s)
      → (o >>= f) ≡ (o >>= g)
  bind_cong none h = refl
  bind_cong (some s) h = h s

  hex_char-zero : (d : ℕ) → d < 16 → (hex_char d == b'0') ≡ (d == 0)
  hex_char-zero d h = ground arith

  putn16_loop-digits :
      (o : ℕ) (started : Bool) (n : ℕ) (s : Screen)
      → putn16_loop dev fuel o started n s
        ≡ put_all dev fuel (digits 16 (λ o. 2 ^ (o * 4)) hex_char o started n) s
  unfolding putn16_loop put_all digits
  putn16_loop-digits zero started n s = refl
  putn16_loop-digits (suc o) true n s =
      let d = n / 2 ^ (o * 4) % 16 in
      let same = hex_char-zero d (omega arith) in
      elim (Bool-cases (d == 0)) [
        | inl z ↦
            rw (same, z) (bind_cong (put dev fuel (hex_char d) s) (putn16_loop-digits o true n))
        | inr nz ↦
            rw (same, nz) (bind_cong (put dev fuel (hex_char d) s) (putn16_loop-digits o true n))
      ]
  putn16_loop-digits (suc o) false n s =
      let d = n / 2 ^ (o * 4) % 16 in
      let same = hex_char-zero d (omega arith) in
      elim (Bool-cases (d == 0)) [
        | inl z ↦ rw (same, z) (putn16_loop-digits o false n s)
        | inr nz ↦
            rw (same, nz) (bind_cong (put dev fuel (hex_char d) s) (putn16_loop-digits o true n))
      ]

  putn2_loop-digits :
      (o : ℕ) (started : Bool) (n : ℕ) (s : Screen)
      → putn2_loop dev fuel o started n s
        ≡ put_all dev fuel (digits 2 (λ o. 2 ^ o) (λ d. b'0' + d) o started n) s
  unfolding putn2_loop put_all digits
  putn2_loop-digits zero started n s = refl
  putn2_loop-digits (suc o) true n s = elim (ℕ_discrete (n / 2 ^ o % 2) 0) [
    | yes z ↦ rw z (bind_cong (put dev fuel b'0' s) (putn2_loop-digits o true n))
    | no nz ↦
        let e : n / 2 ^ o % 2 ≡ 1 = omega arith in
        rw e (bind_cong (put dev fuel b'1' s) (putn2_loop-digits o true n))
  ]
  putn2_loop-digits (suc o) false n s = elim (ℕ_discrete (n / 2 ^ o % 2) 0) [
    | yes z ↦ rw z (putn2_loop-digits o false n s)
    | no nz ↦
        let e : n / 2 ^ o % 2 ≡ 1 = omega arith in
        rw e (bind_cong (put dev fuel b'1' s) (putn2_loop-digits o true n))
  ]

  -- putn16 prints every number by put, character by character, in hexadecimal.
  pub putn16_lem :
      (n : ℕ)
      → n < 2 ^ 32
      → (ds : List ℕ) × ((s : Screen)
          → putn16 dev fuel n s ≡ (if n == 0 then put dev fuel b'0' s else put_all dev fuel ds s))
        × (number 16 0 ds ≡ n)
  unfolding putn16
  putn16_lem n h =
      let ds = digits 16 (λ o. 2 ^ (o * 4)) hex_char 8 false n in
      (
        ds,
        λ s. rw (putn16_loop-digits 8 false n s) refl,
        digits-value 16 (λ o. 2 ^ (o * 4)) hex_char hex 8 n ∙ omega arith,
      )

  -- putn2 prints 0 as a zero, and any other number by put, character by character, as the binary
  -- digits of its low 31 bits.
  pub putn2_lem :
      (n : ℕ)
      → (ds : List ℕ) × ((s : Screen)
          → putn2 dev fuel n s ≡ (if n == 0 then put dev fuel b'0' s else put_all dev fuel ds s))
        × (number 2 0 ds ≡ n % 2 ^ 31)
  unfolding putn2
  putn2_lem n =
      let ds = digits 2 (λ o. 2 ^ o) (λ d. b'0' + d) 31 false n in
      (
        ds,
        λ s. rw (putn2_loop-digits 31 false n s) refl,
        digits-value 2 (λ o. 2 ^ o) (λ d. b'0' + d) bits 31 n ∙ omega arith,
      )
