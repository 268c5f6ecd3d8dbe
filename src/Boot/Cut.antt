-- ===== src/Boot/Cut.antt =====
-- One command of the command line: the loop of cmdline_process cuts it at its colons.
use korolev.Prelude.{
  Bool, ℕ, zero, suc, ◌+◌, ◌≤◌, ◌<◌, ◌≡◌, ◌≢◌, refl, ap, ◌∙◌, ◌⊎◌, inl, inr, Option, some, ◌==◌,
  if◌then◌else◌, arith, Bool-cases, true, false,
}
use mathlib.Core.Path.{subst}
use korolev.Mem.{Mem, store}
use korolev.Boot.{Texts, colon_loop}

-- The bytes that stand outside the `n` from `a` on.
abbrev pub Outside : (a n p : ℕ) → Type 0
Outside a n p = (p < a) ⊎ (a + n ≤ p)

-- Where the argument of a command of `n` characters starts: behind its last colon, or `d` when it has none.
-- The first character stands at `cc`.
pub data IsArgument (char : ℕ → ℕ) (n cc d arg : ℕ) : Type 0 where
  no_colon : ((i : ℕ) → i < n → char i ≢ b':') → arg ≡ d → IsArgument char n cc d arg
  behind :
      (i : ℕ)
      → i < n
      → char i ≡ b':'
      → ((j : ℕ) → i < j → j < n → char j ≢ b':')
      → arg ≡ cc + i + 1
      → IsArgument char n cc d arg

-- A command, of which every colon became a NUL.
abbrev pub no_colons : ℕ → ℕ
no_colons c = if c == b':' then 0 else c

-- The loop ended: with the argument, and the command that is left.
pub record Cut (char : ℕ → ℕ) (cc n d : ℕ) (m : Mem) (r : Option (ℕ × Mem)) : Type 0 where
  pub arg : ℕ
  pub mem : Mem
  pub returned : r ≡ some (arg, mem)
  pub is_argument : IsArgument char n cc d arg
  pub text : (i : ℕ) → i < n → mem (cc + i) ≡ no_colons (char i)
  pub bytes : (p : ℕ) → Outside cc n p → mem p ≡ m p

IsArgument-suc :
    (char : ℕ → ℕ) (n cc d arg : ℕ)
    → IsArgument (λ i. char (suc i)) n (cc + 1) (if char 0 == b':' then cc + 1 else d) arg
    → IsArgument char (suc n) cc d arg
IsArgument-suc char n cc d arg (no_colon none_there e) = elim (Bool-cases (char 0 == b':')) [
  | inl colon ↦
      behind 0 (omega arith) (ground (arith, colon)) (λ j lo hi. later j lo hi)
        (e ∙ ground (arith, colon))
  | inr other ↦ no_colon (λ i lt. all (ground (arith, other)) i lt) (e ∙ ground (arith, other))
]
  where
    later : (j : ℕ) → 0 < j → j < suc n → char j ≢ b':'
    later zero lo hi = absurd (omega arith)
    later (suc j) lo hi = none_there j (omega arith)

    all : char 0 ≢ b':' → (i : ℕ) → i < suc n → char i ≢ b':'
    all first zero lt = first
    all first (suc i) lt = none_there i (omega arith)
IsArgument-suc char n cc d arg (behind i lt colon last_one e) =
    behind (suc i) (omega arith) colon later (e ∙ omega arith)
  where
    later : (j : ℕ) → suc i < j → j < suc n → char j ≢ b':'
    later zero lo hi = absurd (omega arith)
    later (suc j) lo hi = last_one j (omega arith) (omega arith)

IsArgument-first :
    (char : ℕ → ℕ) (n cc d arg c : ℕ)
    → c ≡ char 0
    → IsArgument (λ i. char (suc i)) n (cc + 1) (if c == b':' then cc + 1 else d) arg
    → IsArgument char (suc n) cc d arg
IsArgument-first char n cc d arg c e a = IsArgument-suc char n cc d arg (
    subst
      (λ (x : ℕ). IsArgument (λ i. char (suc i)) n (cc + 1) (if x == b':' then cc + 1 else d) arg) e
      a)

set-Kept :
    (test : Bool) (cc n : ℕ) (m : Mem) (p : ℕ)
    → 1 ≤ n
    → Outside cc n p
    → ◌≡◌ {A = ℕ} ((if test then store m cc 0 else m) p) (m p)
set-Kept true cc n m p pos (inl h) = ground arith
set-Kept true cc n m p pos (inr h) = ground arith
set-Kept false cc n m p pos out = refl

Outside-suc : (cc n p : ℕ) → Outside cc (suc n) p → Outside (cc + 1) n p
Outside-suc cc n p (inl h) = inl (omega arith)
Outside-suc cc n p (inr h) = inr (omega arith)

module _ (texts : Texts) where
  pub colon_loop-Cut :
      (char : ℕ → ℕ) (fuel cc arg n : ℕ) (m : Mem)
      → suc n ≤ fuel
      → ((i : ℕ) → i < suc n → m (cc + i) ≡ char i)
      → ((i : ℕ) → i < n → char (suc i) ≢ 0)
      → m (cc + suc n) ≡ 0
      → Cut char cc (suc n) arg m (colon_loop texts fuel cc arg m)
  unfolding colon_loop
  colon_loop-Cut char zero cc arg n m enough here more end = absurd (omega arith)
  colon_loop-Cut char (suc fuel) cc arg zero m enough here more end =
      let at : cc + 0 ≡ cc = omega arith in
      let c : m cc ≡ char 0 = ap m (omega arith) ∙ here 0 (omega arith) in
      let m' : Mem = if m cc == b':' then store m cc 0 else m in
      let e : m (cc + 1) ≡ 0 = end in
      let stop : (m' (cc + 1) == 0) ≡ true = ground (arith, e) in
      rw (colon_loop, stop)
        (record {
          arg = if m cc == b':' then cc + 1 else arg;
          mem = m';
          returned = refl;
          is_argument =
              IsArgument-suc char 0 cc arg _ (no_colon (λ i lt. absurd (omega arith)) (rw c refl));
          text = λ i lt. only i lt;
          bytes = λ p out. set-Kept (m cc == b':') cc 1 m p (omega arith) out;
        })
    where
      only :
          (i : ℕ) → i < 1 → (if m cc == b':' then store m cc 0 else m) (cc + i) ≡ no_colons (char i)
      only zero lt = let c = here 0 (omega arith) in ground (arith, c)
      only (suc i) lt = absurd (omega arith)
  colon_loop-Cut char (suc fuel) cc arg (suc n) m enough here more end =
      let c : m cc ≡ char 0 = ap m (omega arith) ∙ here 0 (omega arith) in
      let m' : Mem = if m cc == b':' then store m cc 0 else m in
      let kept : (p : ℕ) → Outside cc 1 p → m' p ≡ m p =
        λ p out. set-Kept (m cc == b':') cc 1 m p (omega arith) out in
      let second : m' (cc + 1) ≡ char 1 =
        kept (cc + 1) (inr (omega arith)) ∙ here 1 (omega arith) in
      let some_left = more 0 (omega arith) in
      let go : (m' (cc + 1) == 0) ≡ false = grind (arith, second, some_left) in
      let here' : (i : ℕ) → i < suc n → m' (cc + 1 + i) ≡ char (suc i) = λ i lt.
        ap m' (omega arith) ∙ kept (cc + suc i) (inr (omega arith)) ∙ here (suc i) (omega arith) in
      let end' : m' (cc + 1 + suc n) ≡ 0 =
        ap m' (omega arith) ∙ kept (cc + suc (suc n)) (inr (omega arith)) ∙ end in
      let r =
        colon_loop-Cut (λ i. char (suc i)) fuel (cc + 1) (if m cc == b':' then cc + 1 else arg) n m'
          (omega arith) here' (λ i lt. more (suc i) (omega arith)) end' in
      let text : (i : ℕ) → i < suc (suc n) → r.mem (cc + i) ≡ no_colons (char i) =
        λ i lt. each (r.mem) (r.text) (r.bytes) i lt in
      rw (colon_loop, go)
        (record {
          arg = r.arg;
          mem = r.mem;
          returned = r.returned;
          is_argument = IsArgument-first char (suc n) cc arg (r.arg) (m cc) c (r.is_argument);
          text = text;
          bytes = λ p out.
              r.bytes p (Outside-suc cc (suc n) p out)
              ∙ set-Kept (m cc == b':') cc (suc (suc n)) m p (omega arith) out;
        })
    where
      each :
          (mem : Mem)
          → ((i : ℕ) → i < suc n → mem (cc + 1 + i) ≡ no_colons (char (suc i)))
          → ((p : ℕ)
              → Outside (cc + 1) (suc n) p
              → mem p ≡ (if m cc == b':' then store m cc 0 else m) p)
          → (i : ℕ) → i < suc (suc n)
          → mem (cc + i) ≡ no_colons (char i)
      each mem texts_there bytes zero lt =
          let c = here 0 (omega arith) in bytes (cc + 0) (inl (omega arith)) ∙ ground (arith, c)
      each mem texts_there bytes (suc i) lt = ap mem (omega arith) ∙ texts_there i (omega arith)
