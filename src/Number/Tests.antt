-- ===== src/Number/Tests.antt =====
-- itoa and atoi on concrete numbers.
use korolev.Prelude.{◌≡◌, refl, some, [], ◌∷◌, ◌==◌, if◌then◌else◌}
use korolev.Mem.{Mem}
use korolev.Number.{digit_char, itoa_digits}

abbrev blank_memory : Mem
blank_memory p = 0

abbrev forty_two : Mem
forty_two p = if p == 0 then b'4' else if p == 1 then b'2' else 0

itoa_digits-hex : itoa_digits 33 0xbeef 16 [] ≡ some (b'b' ∷ b'e' ∷ b'e' ∷ b'f' ∷ [])
unfolding itoa_digits digit_char
itoa_digits-hex = refl

-- The text of -120.
itoa_digits-decimal : itoa_digits 33 120 10 [] ≡ some (b'1' ∷ b'2' ∷ b'0' ∷ [])
unfolding itoa_digits digit_char
itoa_digits-decimal = refl
