-- ===== src/Boot/Words.antt =====
-- The command line of kernel/multiboot.c: its words are run as commands.
use korolev.Prelude.{
  ℕ, List, [], ◌∷◌, zero, suc, ◌+◌, ◌-◌, ◌≤◌, ◌<◌, ◌≡◌, ◌≢◌, refl, ap, sym, ◌∙◌, inl, inr, Option,
  some, ◌==◌, if◌then◌else◌, arith, true, false,
}
use mathlib.Core.Path.{subst}
use native.Mathlib.Decide.{ℕ_discrete}
use korolev.Mem.{Mem, store, within}
use korolev.Libc.{memcpy}
use korolev.Libc.Copy.{memcpy_lem}
use korolev.Boot.{
  Boot, Texts, _cmdline_serial, _cmdline_network, cmdline_cmds, colon_loop, command_loop,
  cmdline_process, run_command, split_loop,
}
use korolev.Boot.Cut.{Outside, IsArgument, no_colons, colon_loop-Cut}

-- The memory `m` is as it was before, but for the `n` characters of a command at `buf` with their colons
-- made NULs, and the NUL behind them.
pub record IsCommand (char : ℕ → ℕ) (buf n : ℕ) (before m : Mem) (arg : ℕ) : Type 0 where
  pub is_argument : IsArgument char n buf 0 arg
  pub text : (i : ℕ) → i < n → m (buf + i) ≡ no_colons (char i)
  pub end : m (buf + n) ≡ 0
  pub bytes : (p : ℕ) → Outside buf (n + 1) p → m p ≡ before p

-- The words of a text in the memory: `k` characters from `cc` on, behind the start of the first word at
-- `sc`; and where each word starts and ends. No word is empty.
pub data Words (m : Mem) : (sc k cc : ℕ) → List (ℕ × ℕ) → Type 0 where
  last : {sc cc : ℕ} → m cc ≢ b' ' → m (cc + 1) ≡ 0 → Words m sc 1 cc ((sc, cc + 1) ∷ [])
  letter :
      {sc k cc : ℕ} {words : List (ℕ × ℕ)}
      → m cc ≢ b' '
      → m (cc + 1) ≢ 0
      → Words m sc k (cc + 1) words
      → Words m sc (suc k) cc words
  space :
      {sc k cc : ℕ} {words : List (ℕ × ℕ)}
      → sc < cc
      → m cc ≡ b' '
      → m (cc + 1) ≢ 0
      → Words m (cc + 1) k (cc + 1) words
      → Words m sc (suc k) cc ((sc, cc) ∷ words)

module _ (texts : Texts) where
  -- For each of the words in their order: it stood in the buffer, cut at its colons, when the search for
  -- its command ran, with the argument behind its last colon.
  pub data Ran (buf : ℕ) : List (ℕ × ℕ) → Boot → Boot → Type 0 where
    all_run : {b : Boot} → Ran buf [] b b
    command :
        {sc cc : ℕ} {words : List (ℕ × ℕ)} {b b' : Boot} (m : Mem) (arg : ℕ)
        → IsCommand (λ i. b.mem (sc + i)) buf (cc - sc) (b.mem) m arg
        → Ran buf words (command_loop texts (cmdline_cmds texts) buf arg (record b { mem = m })) b'
        → Ran buf ((sc, cc) ∷ words) b b'

  record RunOnce (buf sc cc : ℕ) (b : Boot) (r : Option Boot) : Type 0 where
    arg : ℕ
    mem : Mem
    is_command : IsCommand (λ i. b.mem (sc + i)) buf (cc - sc) (b.mem) mem arg
    returned : r ≡ some (command_loop texts (cmdline_cmds texts) buf arg (record b { mem = mem }))

  -- The loop over the command line ended behind these words, and changed nothing but the buffer.
  record Split (buf : ℕ) (words : List (ℕ × ℕ)) (b : Boot) (r : Option Boot) : Type 0 where
    after : Boot
    returned : r ≡ some after
    run : Ran buf words b after
    bytes : (p : ℕ) → Outside buf 256 p → after.mem p ≡ b.mem p

  command_loop-mem :
      (cmd arg : ℕ) (b : Boot) → (command_loop texts (cmdline_cmds texts) cmd arg b).mem ≡ b.mem
  unfolding command_loop _cmdline_serial _cmdline_network
  command_loop-mem cmd arg b = ground arith

  once-bytes :
      (buf sc cc : ℕ) (b : Boot) (arg : ℕ) (m : Mem)
      → cc - sc < 256
      → IsCommand (λ i. b.mem (sc + i)) buf (cc - sc) (b.mem) m arg
      → (p : ℕ) → Outside buf 256 p
      → (command_loop texts (cmdline_cmds texts) buf arg (record b { mem = m })).mem p ≡ b.mem p
  once-bytes buf sc cc b arg m short c p (inl h) =
      ap (λ (x : Mem). x p) (command_loop-mem buf arg (record b { mem = m })) ∙ c.bytes p (inl h)
  once-bytes buf sc cc b arg m short c p (inr h) =
      ap (λ (x : Mem). x p) (command_loop-mem buf arg (record b { mem = m }))
      ∙ c.bytes p (inr (omega arith))

  run_command-cut :
      (fuel buf sc cc n : ℕ) (b : Boot) {arg : ℕ} {m : Mem}
      → cc - sc ≡ suc n
      → colon_loop texts fuel buf 0 (store (memcpy buf sc (suc n) (b.mem)).1 (buf + suc n) 0)
        ≡ some (arg, m)
      → run_command texts fuel buf sc cc b
        ≡ some (command_loop texts (cmdline_cmds texts) buf arg (record b { mem = m }))
  unfolding run_command cmdline_process
  run_command-cut fuel buf sc cc n b size e = rw (size, cmdline_process, e) refl

  -- The buffer takes a command of at most 255 bytes with its NUL.
  run_command-RunOnce :
      (fuel buf sc cc n : ℕ) (b : Boot)
      → cc - sc ≡ suc n
      → suc n < 256
      → suc n ≤ fuel
      → buf + 256 ≤ sc
      → ((i : ℕ) → i < n → b.mem (sc + suc i) ≢ 0)
      → RunOnce buf sc cc b (run_command texts fuel buf sc cc b)
  run_command-RunOnce fuel buf sc cc n b size short enough above more =
      let copied = (memcpy buf sc (suc n) (b.mem)).1 in
      let copy = (memcpy_lem buf sc (suc n) (b.mem) (inl (omega arith))).1 in
      let m : Mem = store copied (buf + suc n) 0 in
      let here : (i : ℕ) → i < suc n → m (buf + i) ≡ b.mem (sc + i) = λ i lt.
        let at : buf + i - buf ≡ i = omega arith in
        let c = copy (buf + i) in ground (arith, c) ∙ ap (λ (x : ℕ). b.mem (sc + x)) at in
      let ending : m (buf + suc n) ≡ 0 = ground arith in
      let cut = colon_loop-Cut texts (λ i. b.mem (sc + i)) fuel buf 0 n m enough here more ending in
      let c : IsCommand (λ i. b.mem (sc + i)) buf (suc n) (b.mem) (cut.mem) (cut.arg) = record {
        is_argument = cut.is_argument;
        text = cut.text;
        end = cut.bytes (buf + suc n) (inr (omega arith)) ∙ ending;
        bytes = λ p out. cut.bytes p (inside p out) ∙ kept copied copy p out;
      } in
      record {
        arg = cut.arg;
        mem = cut.mem;
        is_command =
            subst (λ (k : ℕ). IsCommand (λ i. b.mem (sc + i)) buf k (b.mem) (cut.mem) (cut.arg))
              (sym size) c;
        returned = run_command-cut fuel buf sc cc n b size (cut.returned);
      }
    where
      inside : (p : ℕ) → Outside buf (suc n + 1) p → Outside buf (suc n) p
      inside p (inl h) = inl h
      inside p (inr h) = inr (omega arith)

      kept :
          (copied : Mem)
          → ((p : ℕ)
              → copied p ≡ (if within buf (suc n) p then b.mem (sc + (p - buf)) else b.mem p))
          → (p : ℕ) → Outside buf (suc n + 1) p
          → store copied (buf + suc n) 0 p ≡ b.mem p
      kept copied copy p (inl h) = let c = copy p in ground (arith, c)
      kept copied copy p (inr h) = let c = copy p in ground (arith, c)

  split_loop-Split :
      (fuel buf sc cc k : ℕ) (m : Mem) (b : Boot) {words : List (ℕ × ℕ)}
      → Words m sc k cc words
      → sc ≤ cc
      → cc + k < sc + 256
      → buf + 256 ≤ sc
      → 256 + k ≤ fuel
      → ((p : ℕ) → buf + 256 ≤ p → b.mem p ≡ m p)
      → ((i : ℕ) → sc < i → i ≤ cc → m i ≢ 0)
      → Split buf words b (split_loop texts fuel buf sc cc b)
  unfolding split_loop
  split_loop-Split zero buf sc cc k m b words e short above enough same seen = absurd (omega arith)
  split_loop-Split (suc fuel) buf sc cc _ m b (last no_space end) e short above enough same seen =
      let c = same cc (omega arith) in
      let d = same (cc + 1) (omega arith) in
      let letter_here : (b.mem cc == b' ') ≡ false = grind (arith, c, no_space) in
      let stop : (b.mem (cc + 1) == 0) ≡ true = grind (arith, d, end) in
      let ran =
        run_command-RunOnce fuel buf sc (cc + 1) (cc - sc) b (omega arith) (omega arith)
          (omega arith) above
          (λ i lt z.
            seen (sc + suc i) (omega arith) (omega arith)
              (sym (same (sc + suc i) (omega arith)) ∙ z)) in
      rw (split_loop, letter_here, stop, letter_here)
        (record {
          after =
              command_loop texts (cmdline_cmds texts) buf (ran.arg) (record b { mem = ran.mem });
          returned = ran.returned;
          run = command (ran.mem) (ran.arg) (ran.is_command) all_run;
          bytes = once-bytes buf sc (cc + 1) b (ran.arg) (ran.mem) (omega arith) (ran.is_command);
        })
  split_loop-Split (suc fuel) buf sc cc _ m b (letter {k = k} no_space more rest) e short above
        enough same seen =
      let c = same cc (omega arith) in
      let d = same (cc + 1) (omega arith) in
      let letter_here : (b.mem cc == b' ') ≡ false = grind (arith, c, no_space) in
      let go : (b.mem (cc + 1) == 0) ≡ false = grind (arith, d, more) in
      rw (split_loop, letter_here, go, letter_here)
        (split_loop-Split fuel buf sc (cc + 1) k m b rest (omega arith) (omega arith) above
          (omega arith) same
          (λ i lo hi. elim (ℕ_discrete i (cc + 1)) [
            | yes here ↦ λ z. more (ap m (sym here) ∙ z)
            | no before ↦ seen i lo (omega arith)
          ]))
  split_loop-Split (suc fuel) buf sc cc _ m b (space {k = k} some_left here more rest) e short above
        enough same seen =
      let c = same cc (omega arith) in
      let space_here : (b.mem cc == b' ') ≡ true = grind (arith, c, here) in
      let ran =
        run_command-RunOnce fuel buf sc cc (cc - sc - 1) b (omega arith) (omega arith) (omega arith)
          above
          (λ i lt z.
            seen (sc + suc i) (omega arith) (omega arith)
              (sym (same (sc + suc i) (omega arith)) ∙ z)) in
      let b' = command_loop texts (cmdline_cmds texts) buf (ran.arg) (record b { mem = ran.mem }) in
      let kept = once-bytes buf sc cc b (ran.arg) (ran.mem) (omega arith) (ran.is_command) in
      let same' : (p : ℕ) → buf + 256 ≤ p → b'.mem p ≡ m p = λ p h. kept p (inr h) ∙ same p h in
      let d = same' (cc + 1) (omega arith) in
      let go : (b'.mem (cc + 1) == 0) ≡ false = grind (arith, d, more) in
      let next =
        split_loop-Split fuel buf (cc + 1) (cc + 1) k m b' rest (omega arith) (omega arith)
          (omega arith) (omega arith) same' (λ i lo hi. absurd (omega arith)) in
      rw (split_loop, space_here, ran.returned, go, space_here)
        (record {
          after = next.after;
          returned = next.returned;
          run = command (ran.mem) (ran.arg) (ran.is_command) (next.run);
          bytes = λ p out. next.bytes p out ∙ kept p out;
        })

  -- For a command line of at most 255 characters that stands behind the buffer, that ends in a NUL and
  -- has no empty word, the loop ends with fuel for 256 rounds more than it has characters. For each of
  -- its words, in their order, the search for a command ran once, with the word in the buffer, a NUL
  -- behind it and one in place of each colon, and with the place behind the last colon for its argument,
  -- or NULL without a colon. No byte outside the buffer has changed.
  pub split_loop_lem :
      (fuel buf start k : ℕ) (b : Boot) {words : List (ℕ × ℕ)}
      → Words (b.mem) start k start words
      → k < 256
      → buf + 256 ≤ start
      → 256 + k ≤ fuel
      → (b' : Boot) × (split_loop texts fuel buf start start b ≡ some b')
        × Ran buf words b b'
        × ((p : ℕ) → Outside buf 256 p → b'.mem p ≡ b.mem p)
  split_loop_lem fuel buf start k b words short above enough =
      let r =
        split_loop-Split fuel buf start start k (b.mem) b words (omega arith) (omega arith) above
          enough (λ p h. refl) (λ i lo hi. absurd (omega arith)) in
      (r.after, r.returned, r.run, r.bytes)
