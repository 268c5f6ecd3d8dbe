-- ===== src/Prelude/Slots.antt =====
-- Tables of slots: the first slot that passes a test.
use Prim.Native.Nat.{ℕ, zero, suc, ◌+◌, ◌≤◌, ◌<◌}
use mathlib.Core.Path.{◌≡◌, refl}
use mathlib.Core.Logic.{inl, inr, ◌≢◌}
use mathlib.Core.Bool.{Bool, true, false}
use mathlib.Core.List.{List, [], ◌∷◌}
use mathlib.Core.Option.{Option, none, some}
use native.Mathlib.Omega.{arith}
use native.Mathlib.Decide.{ℕ_discrete}
use korolev.Prelude.Tests.{if◌then◌else◌, Bool-cases}
use korolev.Prelude.Lists.{length, get_or, set}

module _ {ℓ} {A : Type ℓ} (test : A → Bool) where
  -- `for (i = 0; i < n; i++)` over a table, up to the first entry that passes.
  unfoldable pub first_slot : List A → Option ℕ
  first_slot [] = none
  first_slot (x ∷ xs) =
      let rest = elim (first_slot xs) as (λ _. Option ℕ) [ none ↦ none | some i ↦ some (suc i) ] in
      if test x then some 0 else rest

  -- The number of entries that pass.
  unfoldable pub passing : List A → ℕ
  passing [] = 0
  passing (x ∷ xs) = (if test x then 1 else 0) + passing xs

  -- The slot found is in the table and passes, and there is one exactly when some entry passes.
  pub data Found (xs : List A) : Option ℕ → Type ℓ where
    nowhere : passing xs ≡ 0 → Found xs none
    at_slot :
        (i : ℕ)
        → i < length xs
        → ((d : A) → test (get_or xs i d) ≡ true)
        → 0 < passing xs
        → Found xs (some i)

  Found-later :
      {x : A} {xs : List A} {r : Option ℕ}
      → test x ≡ false
      → Found xs r
      → Found (x ∷ xs) (elim r as (λ _. Option ℕ) [ none ↦ none | some i ↦ some (suc i) ])
  unfolding passing
  Found-later fails (nowhere z) = nowhere (rw fails (omega arith))
  Found-later fails (at_slot i h t p) = at_slot (suc i) (omega arith) t (rw fails (omega arith))

  pub first_slot-Found : (xs : List A) → Found xs (first_slot xs)
  unfolding first_slot passing
  first_slot-Found [] = nowhere refl
  first_slot-Found (x ∷ xs) = elim (Bool-cases (test x)) [
    | inl passes ↦ rw passes (at_slot 0 (omega arith) (λ d. passes) (rw passes (omega arith)))
    | inr fails ↦ rw fails (Found-later fails (first_slot-Found xs))
  ]

-- An entry that passed and does so no more is one less.
pub passing-set {ℓ} :
    {A : Type ℓ} (test : A → Bool) (xs : List A) (i : ℕ) (v d : A)
    → i < length xs
    → test (get_or xs i d) ≡ true
    → test v ≡ false
    → passing test (set xs i v) + 1 ≡ passing test xs
unfolding passing
passing-set test [] i v d h on off = absurd (omega arith)
passing-set test (x ∷ xs) zero v d h on off = rw (on, off) (omega arith)
passing-set test (x ∷ xs) (suc i) v d h on off =
    omega (arith, passing-set test xs i v d (omega arith) on off)

pub passing-le {ℓ} : {A : Type ℓ} (test : A → Bool) (xs : List A) → passing test xs ≤ length xs
unfolding passing
passing-le test [] = omega arith
passing-le test (x ∷ xs) = ground (arith, passing-le test xs)

-- The first of the `n` numbers from `i` on that passes.
unfoldable pub first_index : (ℕ → Bool) → (n i : ℕ) → Option ℕ
first_index test zero i = none
first_index test (suc n) i =
    let rest = first_index test n (i + 1) in if test i then some i else rest

-- When nothing passes `f`, and `g` differs from it in letting `j` pass, `g` finds `j`.
pub first_index-only :
    (f g : ℕ → Bool) (j n i : ℕ)
    → ((k : ℕ) → k ≢ j → g k ≡ f k)
    → g j ≡ true
    → i ≤ j
    → j < i + n
    → first_index f n i ≡ none
    → first_index g n i ≡ some j
unfolding first_index
first_index-only f g j zero i same here lo hi miss = absurd (omega arith)
first_index-only f g j (suc n) i same here lo hi miss = elim (ℕ_discrete i j) [
  | yes e ↦ rw (e, here) refl
  | no ne ↦ ground (arith, same i ne, first_index-only f g j n (i + 1) same here)
]

pub first_index-some :
    (f : ℕ → Bool) (n i : ℕ) {j : ℕ}
    → first_index f n i ≡ some j
    → (i ≤ j) × (j < i + n) × (f j ≡ true)
unfolding first_index
first_index-some f zero i e = absurd (cc)
first_index-some f (suc n) i {j} e = elim (Bool-cases (f i)) [
  | inl passes ↦
      let here : i ≡ j = ground arith in
      let passes' = rw here at passes in (omega arith, omega arith, passes')
  | inr fails ↦ ground (arith, first_index-some f n (i + 1) {j = j})
]

-- A number that passes is found when none before it does.
pub first_index-least :
    (f : ℕ → Bool) (j n i : ℕ)
    → i ≤ j
    → j < i + n
    → ((k : ℕ) → i ≤ k → k < j → f k ≡ false)
    → f j ≡ true
    → first_index f n i ≡ some j
unfolding first_index
first_index-least f j zero i lo hi before here = absurd (omega arith)
first_index-least f j (suc n) i lo hi before here = elim (ℕ_discrete i j) [
  | yes e ↦ rw (e, here) refl
  | no ne ↦
      let fails = before i (omega arith) (omega arith) in
      let next =
        first_index-least f j n (i + 1) (omega arith) (omega arith)
          (λ k lo' hi'. before k (omega arith) hi') here in
      rw fails next
]
