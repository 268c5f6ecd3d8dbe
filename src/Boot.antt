-- ===== src/Boot.antt =====
-- kernel/cmdline.c, and the part of kernel/multiboot.c that cuts the kernel's command line into its
-- commands and runs them. Memory is one: the command line that the boot loader left, the buffer on the
-- stack, and the texts of the program.
pub mod Commands
pub mod Cut
pub mod Words
mod Tests
use korolev.Prelude.{
  ℕ, zero, suc, ◌+◌, ◌-◌, ◌*◌, ◌/◌, ◌%◌, ◌^◌, Bool, not, List, [], ◌∷◌, Option, none, some, ◌==◌,
  if◌then◌else◌,
}
use korolev.Mem.{Mem, store}
use korolev.Libc.{memcpy, kmemset, strncmp}
use korolev.Kfs2.{long_at}
use korolev.Serial.{Serial, serial_setup, serial_setup_port}
use korolev.Net.Setup.{network_disable}
use korolev.Alloc.{MmapEntry, Pages, mmgmt_init}

-- The memory, and what the commands change.
pub record Boot : Type 0 where
  pub mem : Mem
  pub serial : Serial
  pub network__disable : ℕ

-- Where the texts of the program stand: the names of the two commands, `true` and `false`.
pub record Texts : Type 0 where
  pub serial_name : ℕ
  pub network_name : ℕ
  pub true_text : ℕ
  pub false_text : ℕ

module _ (texts : Texts) where
  pub _cmdline_serial : ℕ → Boot → Boot
  _cmdline_serial arg b =
      if not (strncmp (b.mem) arg (texts.true_text) 128 == 0)
      then b
      else record b { serial = serial_setup_port 0 (serial_setup (b.serial)) }

  pub _cmdline_network : ℕ → Boot → Boot
  _cmdline_network arg b =
      if not (strncmp (b.mem) arg (texts.false_text) 128 == 0)
      then b
      else record b { network__disable = network_disable }

  -- A `cmdline_cmd`: the address of its text, and its function.
  abbrev pub CmdlineCmd : Type 0
  CmdlineCmd = ℕ × (ℕ → Boot → Boot)

  -- `cmdline_cmds` up to the entry with an empty text.
  abbrev pub cmdline_cmds : List CmdlineCmd
  cmdline_cmds = (texts.serial_name, _cmdline_serial) ∷ (texts.network_name, _cmdline_network) ∷ []

  -- `while (c->cmd[0] != '\0')`
  pub command_loop : List CmdlineCmd → (cmd arg : ℕ) → Boot → Boot
  command_loop [] cmd arg b = b
  command_loop ((name, func) ∷ cmds) cmd arg b =
      let next = command_loop cmds cmd arg b in
      if strncmp (b.mem) cmd name 128 == 0 then func arg b else next

  -- `do { ... } while (*cc);` of cmdline_process on fuel: `arg`, and the memory; NULL is 0.
  pub colon_loop : (fuel cc arg : ℕ) → Mem → Option (ℕ × Mem)
  colon_loop zero cc arg m = none
  colon_loop (suc fuel) cc arg m =
      let is_colon = m cc == b':' in
      let m' = if is_colon then store m cc 0 else m in
      let arg' = if is_colon then cc + 1 else arg in
      let next = colon_loop fuel (cc + 1) arg' m' in
      if m' (cc + 1) == 0 then some (arg', m') else next

  pub cmdline_process : (fuel cmd : ℕ) → Boot → Option Boot
  cmdline_process fuel cmd b = elim (colon_loop fuel cmd 0 (b.mem)) as (λ _. Option Boot) [
    | none ↦ none
    | some (arg, m) ↦ some (command_loop cmdline_cmds cmd arg (record b { mem = m }))
  ]

  -- `memcpy(buf, sc, cc - sc); buf[cc - sc] = '\0'; cmdline_process(buf);`
  pub run_command : (fuel buf sc cc : ℕ) → Boot → Option Boot
  run_command fuel buf sc cc b =
      let m = store (memcpy buf sc (cc - sc) (b.mem)).1 (buf + (cc - sc)) 0 in
      cmdline_process fuel buf (record b { mem = m })

  -- `do { ... } while (*cc);` of multiboot_process, and the last command behind it, on fuel.
  pub split_loop : (fuel buf sc cc : ℕ) → Boot → Option Boot
  split_loop zero buf sc cc b = none
  split_loop (suc fuel) buf sc cc b =
      let is_space = b.mem cc == b' ' in
      elim (if is_space then run_command fuel buf sc cc b else some b) as (λ _. Option Boot) [
        | none ↦ none
        | some b' ↦
            let sc' = if is_space then cc + 1 else sc in
            let next = split_loop fuel buf sc' (cc + 1) b' in
            if b'.mem (cc + 1) == 0 then run_command fuel buf sc' (cc + 1) b' else next
      ]
