-- ===== src/Net/Prefix.antt =====
-- The prefix length that is printed of an address.
use korolev.Prelude.{
  ℕ, zero, suc, ◌+◌, ◌*◌, ◌-◌, ◌/◌, ◌%◌, ◌≤◌, ◌<◌, ◌≡◌, refl, Bool, true, false, ◌&&◌, arith, ◌==◌,
  if◌then◌else◌, ==_iff,
}
use native.Mathlib.Decide.{ℕ_discrete}
use korolev.Net.{mask_loop, prefix_mask, bits_loop, prefix_loop}

-- What is printed for a prefix: the bits of its last byte are counted from the wrong end.
abbrev pub printed : ℕ → ℕ
printed prefix = if prefix % 8 == 0 then prefix else prefix / 8 * 8 + (8 - prefix % 8)

abbrev as_printed : ℕ → Bool
as_printed prefix = prefix_loop (prefix_mask prefix) 0 == printed prefix

-- The test holds below `n`.
all_below : ℕ → (ℕ → Bool) → Bool
all_below zero test = true
all_below (suc n) test = test n && all_below n test

both : (a : Bool) {b : Bool} → a && b ≡ true → (a ≡ true) × (b ≡ true)
both true h = (refl, h)
both false h = absurd (cc)

all_below-lem : (n : ℕ) (test : ℕ → Bool) (i : ℕ) → all_below n test ≡ true → i < n → test i ≡ true
unfolding all_below
all_below-lem zero test i h lt = absurd (omega arith)
all_below-lem (suc n) test i h lt = elim (ℕ_discrete i n) [
  | yes e ↦ rw e (both (test n) h).0
  | no ne ↦ all_below-lem n test i (both (test n) h).1 (omega arith)
]

every_prefix : all_below 129 as_printed ≡ true
unfolding all_below mask_loop prefix_mask bits_loop prefix_loop
every_prefix = refl

-- Of every prefix up to 128, network_print_ipv6 counts in the mask that netdev_add_ip6_address made:
-- the prefix, when it is a multiple of 8; otherwise the whole bytes of it, and 8 less the remaining
-- bits, since the mask has the low bits of its last byte set in place of the high ones.
pub prefix_lem : (prefix : ℕ) → prefix ≤ 128 → prefix_loop (prefix_mask prefix) 0 ≡ printed prefix
prefix_lem prefix h =
    (==_iff (prefix_loop (prefix_mask prefix) 0) (printed prefix)).0
      (all_below-lem 129 as_printed prefix every_prefix (omega arith))
