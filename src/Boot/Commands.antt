-- ===== src/Boot/Commands.antt =====
-- Which command of the command line runs.
use korolev.Prelude.{
  ℕ, ◌+◌, ◌<◌, ◌≡◌, ◌≢◌, refl, ap, sym, ◌∙◌, true, false, List, [], ◌∷◌, ◌==◌, arith, get_or,
  length,
}
use korolev.Mem.{Mem}
use korolev.Libc.{strncmp, byte_sub}
use korolev.Libc.Copy.{strnlen}
use korolev.Libc.Compare.{FirstDifference, strncmp_lem}
use korolev.Boot.{Boot, Texts, _cmdline_serial, cmdline_cmds, command_loop}

-- The bytes `cs` stand from `a` on.
abbrev pub HasText : Mem → ℕ → List ℕ → Type 0
HasText m a cs = (i : ℕ) → i < length cs → m (a + i) ≡ get_or cs i 0

-- `serial` and `network`, each with its NUL.
abbrev pub serial_text : List ℕ
serial_text = b's' ∷ b'e' ∷ b'r' ∷ b'i' ∷ b'a' ∷ b'l' ∷ 0 ∷ []

abbrev pub network_text : List ℕ
network_text = b'n' ∷ b'e' ∷ b't' ∷ b'w' ∷ b'o' ∷ b'r' ∷ b'k' ∷ 0 ∷ []

module _ (m : Mem) (bytes : (i : ℕ) → m i < 256) where
  -- Behind equal texts, a difference at the start of a block of four bytes counts.
  network-differs :
      (a b : ℕ)
      → HasText m a network_text
      → HasText m b network_text
      → m (a + 8) ≢ 0
      → m (b + 8) ≡ 0
      → strncmp m a b 128 ≢ 0
  unfolding byte_sub strnlen
  network-differs a b ta tb more end =
      let d : FirstDifference m a b 8 = record {
        agree = λ i lt. ta i lt ∙ sym (tb i lt);
        differ = λ e. more (e ∙ end);
      } in
      let answer = strncmp_lem m a b bytes 128 {p = 8} d (omega arith) in
      λ z. more (omega (arith, answer, z, end, bytes (a + 8)))

  -- Inside the block of the NUL it does not.
  serial-equal :
      (a b : ℕ)
      → HasText m a serial_text
      → HasText m b serial_text
      → m (a + 7) ≢ m (b + 7)
      → strncmp m a b 128 ≡ 0
  unfolding strnlen
  serial-equal a b ta tb more =
      let d : FirstDifference m a b 7 = record {
        agree = λ i lt. ta i lt ∙ sym (tb i lt);
        differ = more;
      } in
      let fourth = ta 4 (omega arith) in
      let five : a + 4 + 1 ≡ a + 5 = omega arith in
      let six : a + 4 + 1 + 1 ≡ a + 6 = omega arith in
      let fifth = ap m five ∙ ta 5 (omega arith) in
      let sixth = ap m six ∙ ta 6 (omega arith) in
      strncmp_lem m a b bytes 128 {p = 7} d (omega arith) ∙ ground (arith, fourth, fifth, sixth)

  -- Texts that begin differently are told apart.
  first-differs : (a b : ℕ) → m (a + 0) ≢ m (b + 0) → strncmp m a b 128 ≢ 0
  unfolding byte_sub strnlen
  first-differs a b ne =
      let d : FirstDifference m a b 0 = record {
        agree = λ i lt. absurd (omega arith);
        differ = ne;
      } in
      let answer = strncmp_lem m a b bytes 128 {p = 0} d (omega arith) in
      λ z. ne (omega (arith, answer, z, bytes (a + 0), bytes (b + 0)))

module _ (texts : Texts) where
  -- The names of the commands stand where the program has them, the second with a zero behind its NUL.
  pub record HasNames (m : Mem) : Type 0 where
    pub bytes : (i : ℕ) → m i < 256
    pub serial : HasText m (texts.serial_name) serial_text
    pub network : HasText m (texts.network_name) network_text
    pub serial_end : m (texts.serial_name + 7) ≡ 0
    pub network_end : m (texts.network_name + 8) ≡ 0

  -- Behind the cut at its colon, the command serial with an argument runs _cmdline_serial on it, but
  -- the command network with an argument runs nothing.
  pub command_loop_lem :
      (cmd other arg : ℕ) (b : Boot)
      → HasNames (b.mem)
      → HasText (b.mem) cmd serial_text
      → b.mem (cmd + 7) ≢ 0
      → HasText (b.mem) other network_text
      → b.mem (other + 8) ≢ 0
      → (command_loop texts (cmdline_cmds texts) cmd arg b ≡ _cmdline_serial texts arg b)
        × (command_loop texts (cmdline_cmds texts) other arg b ≡ b)
  unfolding command_loop
  command_loop_lem cmd other arg b names serial more network further =
      let m = b.mem in
      let known =
        serial-equal m (names.bytes) cmd (texts.serial_name) serial (names.serial)
          (λ e. more (e ∙ names.serial_end)) in
      let s_first = names.serial 0 (omega arith) in
      let n_first = network 0 (omega arith) in
      let not_serial =
        first-differs m (names.bytes) other (texts.serial_name)
          (λ e. omega (arith, e, s_first, n_first)) in
      let not_network =
        network-differs m (names.bytes) other (texts.network_name) network (names.network) further
          (names.network_end) in
      let yes_serial : (strncmp m cmd (texts.serial_name) 128 == 0) ≡ true =
        ground (arith, known) in
      let no_serial : (strncmp m other (texts.serial_name) 128 == 0) ≡ false =
        ground (arith, not_serial) in
      let no_network : (strncmp m other (texts.network_name) 128 == 0) ≡ false =
        ground (arith, not_network) in
      (rw yes_serial refl, rw (no_serial, no_network) refl)
