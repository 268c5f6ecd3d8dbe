-- ===== src/Number/Itoa.antt =====
-- itoa of libc/stdlib.c: the text that it writes stands for its argument.
use korolev.Prelude.{
  ℕ, suc, ◌+◌, ◌-◌, ◌*◌, ◌^◌, ◌≤◌, ◌≡◌, refl, Bool, ◌&&◌, ◌||◌, get_or, some, List, [], ◌∷◌, ◌++◌,
  ltb, leb, ◌==◌, if◌then◌else◌, length,
}
use korolev.Mem.{Mem}
use korolev.Number.{itoa_digits}

-- The digit that a character stands for.
abbrev pub digit_value : ℕ → ℕ
digit_value c = if ltb c b'a' then c - b'0' else c + 10 - b'a'

-- The number that a text of digits stands for, behind digits that stand for `acc`.
unfoldable pub number : ℕ → ℕ → List ℕ → ℕ
number base acc [] = acc
number base acc (c ∷ cs) = number base (acc * base + digit_value c) cs

pub number-append :
    (base acc : ℕ) (cs ds : List ℕ)
    → number base acc (cs ++ ds) ≡ number base (number base acc cs) ds
unfolding number
number-append base acc [] ds = refl
number-append base acc (c ∷ cs) ds = number-append base (acc * base + digit_value c) cs ds

-- The digits that the loop puts in front of those in `tmp`.
record Digits (k v base : ℕ) (tmp : List ℕ) : Type 0 where
  ds : List ℕ
  written : itoa_digits (suc k) v base tmp ≡ some (ds ++ tmp)
  value : number base 0 ds ≡ v
  few : length ds ≤ k

-- The memory with the characters of a text from `s` on, a NUL behind them, and every other byte as it
-- was.
abbrev pub text_in : ℕ → List ℕ → Mem → Mem
text_in s cs m p = if ltb p s || ltb (s + length cs) p then m p else get_or cs (p - s) 0

-- The text of an `int`: a minus sign in base ten, and its magnitude.
abbrev pub is_negative : ℕ → ℕ → Bool
is_negative n base = base == 10 && leb (2 ^ 31) n

abbrev pub magnitude : Bool → ℕ → ℕ
magnitude sign n = if sign then 2 ^ 32 - n else n
