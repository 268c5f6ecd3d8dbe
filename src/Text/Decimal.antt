-- ===== src/Text/Decimal.antt =====
-- putn10 of kernel/text.c: the decimal digits in a buffer of 33 bytes.
use mathlib.Core.List.{append_assoc, append-nil}
use native.Mathlib.Nat.{pow-suc}
use korolev.Prelude.{
  true, false, ℕ, zero, suc, ◌+◌, ◌-◌, ◌*◌, ◌/◌, ◌%◌, ◌^◌, ◌<◌, ◌≡◌, ◌≢◌, refl, sym, ap, ◌∙◌, inl,
  inr, some, List, [], ◌∷◌, ◌++◌, arith, ◌==◌, if◌then◌else◌, Bool-cases,
}
use native.Mathlib.Decide.{ℕ_discrete}
use korolev.Number.Itoa.{number, number-append}
use korolev.Port.{Device}
use korolev.Text.{Screen, put, puts, putn10_loop, putn10}

-- The first character of a text, a zero digit for the empty text.
abbrev pub leading : List ℕ → ℕ
leading [] = b'0'
leading (c ∷ cs) = c

-- The digits that the loop puts in front of those in `buf`, in at most `k` rounds.
record Decimal (k n : ℕ) (buf : List ℕ) : Type 0 where
  ds : List ℕ
  written : putn10_loop k n buf ≡ some (ds ++ buf)
  value : number 10 0 ds ≡ n
  lead : 0 < n → leading ds ≢ b'0'

leading-append : (ds : List ℕ) (c : ℕ) → leading ds ≢ b'0' → leading (ds ++ (c ∷ [])) ≡ leading ds
leading-append [] c h = absurd (h refl)
leading-append (d ∷ ds) c h = refl

Decimal-last : (k n : ℕ) (buf : List ℕ) → ((n - n % 10) / 10 == 0) ≡ true → Decimal (suc k) n buf
unfolding putn10_loop number
Decimal-last k n buf done = record {
  ds = (b'0' + n % 10) ∷ [];
  written = rw done refl;
  value = ground arith;
  lead = λ pos. ground arith;
}

value_of_tenth :
    (n : ℕ) (ds : List ℕ)
    → number 10 0 ds ≡ (n - n % 10) / 10
    → number 10 0 (ds ++ ((b'0' + n % 10) ∷ [])) ≡ n
unfolding number
value_of_tenth n ds e = rw (number-append, e) (ground arith)

Decimal-next :
    (k n : ℕ) (buf : List ℕ)
    → ((n - n % 10) / 10 == 0) ≡ false
    → Decimal k ((n - n % 10) / 10) ((b'0' + n % 10) ∷ buf)
    → Decimal (suc k) n buf
unfolding putn10_loop
Decimal-next k n buf more r =
    let c = b'0' + n % 10 in
    let front = r.lead (ground arith) in
    record {
      ds = r.ds ++ (c ∷ []);
      written = rw more (r.written ∙ ap some (sym (append_assoc r.ds (c ∷ []) buf)));
      value = value_of_tenth n r.ds r.value;
      lead = λ pos. rw (leading-append r.ds c front) front;
    }

Decimal-loop : (k n : ℕ) (buf : List ℕ) → n < 8 * 2 ^ k → Decimal (suc k) n buf
Decimal-loop zero n buf h = Decimal-last zero n buf (ground arith)
Decimal-loop (suc k) n buf h = elim (Bool-cases ((n - n % 10) / 10 == 0)) [
  | inl done ↦ Decimal-last (suc k) n buf done
  | inr more ↦
      Decimal-next (suc k) n buf more
        (Decimal-loop k ((n - n % 10) / 10) ((b'0' + n % 10) ∷ buf) (omega (arith, pow-suc 2 k)))
]

-- putn10 prints every number by puts, in decimal and without leading zeros (0 by put, as a zero).
pub putn10_lem :
    (dev : Device) (fuel n : ℕ)
    → n < 2 ^ 32
    → (ds : List ℕ) × ((s : Screen)
        → putn10 dev fuel n s ≡ (if n == 0 then put dev fuel b'0' s else puts dev fuel ds s))
      × (number 10 0 ds ≡ n)
      × ((leading ds == b'0') ≡ (n == 0))
unfolding putn10
putn10_lem dev fuel n h =
    let r = Decimal-loop 30 n [] (omega arith) in
    elim (ℕ_discrete n 0) [
      | yes z ↦ ([], λ s. rw z refl, unfold number in sym z, rw z refl)
      | no nz ↦ (
        r.ds,
        λ s. rw (r.written, append-nil) refl,
        r.value,
        ground (arith, r.lead (omega arith)),
      )
    ]
