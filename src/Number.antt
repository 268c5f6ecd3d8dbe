-- ===== src/Number.antt =====
-- itoa and atoi of libc/stdlib.c. An `int` is its bit pattern, below 2 ^ 32.
pub mod Itoa
pub mod Atoi
mod Tests
use korolev.Prelude.{
  ℕ, zero, suc, ◌+◌, ◌-◌, ◌*◌, ◌/◌, ◌%◌, ◌^◌, Bool, true, false, ◌&&◌, not, Option, none, some,
  List, [], ◌∷◌, ltb, leb, ◌==◌, if◌then◌else◌,
}
use korolev.Mem.{Mem, store}

abbrev pub is_empty : List ℕ → Bool
is_empty [] = true
is_empty (c ∷ cs) = false

-- The character that itoa writes for a digit below 36.
pub digit_char : ℕ → ℕ
digit_char i = if ltb i 10 then i + b'0' else i + b'a' - 10

-- `while (v || tp == tmp)`: the array `tmp` up to `tp`, its newest character first. The fuel bounds
-- the rounds.
itoa_digits : ℕ → ℕ → ℕ → List ℕ → Option (List ℕ)
itoa_digits zero v base tmp = none
itoa_digits (suc f) v base tmp =
    let rest = itoa_digits f (v / base) base (digit_char (v % base) ∷ tmp) in
    if v == 0 && not (is_empty tmp) then some tmp else rest

-- `while (tp > tmp) *s++ = *--tp; *s = '\0';`
pub put_string : ℕ → List ℕ → Mem → Mem
put_string s [] m = store m s 0
put_string s (c ∷ cs) m = put_string (s + 1) cs (store m s c)

-- What follows `int sign = ...`. `v = -n` is the two's complement (for the least `int` too, where C
-- leaves it open). The 33 rounds are one for each of the 32 digits that a word can have, and the
-- last test.
itoa_signed : Bool → ℕ → ℕ → ℕ → Mem → Option (ℕ × Mem)
itoa_signed sign n s base m =
    let v = if sign then (2 ^ 32 - n) % 2 ^ 32 else n in
    elim (itoa_digits 33 v base []) [
      | none ↦ none
      | some tmp ↦
          some (s, if sign then put_string (s + 1) tmp (store m s b'-') else put_string s tmp m)
    ]

pub itoa : ℕ → ℕ → ℕ → Mem → Option (ℕ × Mem)
itoa n s base m = itoa_signed (base == 10 && leb (2 ^ 31) n) n s base m

-- `(int)*s` for a signed `char`.
unfoldable pub sign_extend : ℕ → ℕ
sign_extend c = if ltb c 128 then c else c + 2 ^ 32 - 256

-- `while (*s) { n *= 10; n += (int)(*s - 48); }`: `s` does not move.
atoi_loop : ℕ → Mem → ℕ → ℕ → Option ℕ
atoi_loop zero m s n = none
atoi_loop (suc f) m s n =
    let rest = atoi_loop f m s ((n * 10 + sign_extend (m s) + 2 ^ 32 - 48) % 2 ^ 32) in
    if m s == 0 then some n else rest

unfoldable pub atoi : ℕ → Mem → ℕ → Option ℕ
unfolding atoi_loop sign_extend
atoi fuel m s = if m s == 0 then some 0 else atoi_loop fuel m s 0
