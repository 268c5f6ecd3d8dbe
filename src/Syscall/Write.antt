-- ===== src/Syscall/Write.antt =====
-- Call 260: writing to the screen.
use korolev.Prelude.{ℕ, zero, suc, ◌+◌, ◌≡◌, refl, ap, ◌∙◌, List, [], ◌∷◌, some}
use mathlib.Core.Path.{fun_ext}
use korolev.Mem.{Mem}
use korolev.Port.{Device}
use korolev.Text.{Screen, ◌>>=◌, put, put_all}
use korolev.Text.Cursor.{IsValid, view}
use korolev.Text.Terminal.{type_text}
use korolev.Text.Output.{Ready, AllAscii, put_all-Typed}
use korolev.Syscall.{CallRegs, Kernel, write_loop, sys_write, run_call, syscall_handler}
use korolev.Syscall.Keys.{handler-run_call}

-- The `n` bytes from `p` on.
unfoldable pub bytes_at : ℕ → Mem → ℕ → List ℕ
bytes_at zero m p = []
bytes_at (suc n) m p = m p ∷ bytes_at n m (p + 1)

module _ (dev : Device) (fuel : ℕ) (m : Mem) where
  write_loop-put_all :
      (n p : ℕ) (s : Screen) → write_loop dev fuel n m p s ≡ put_all dev fuel (bytes_at n m p) s
  unfolding write_loop bytes_at put_all
  write_loop-put_all zero p s = refl
  write_loop-put_all (suc n) p s =
      ap (λ f. put dev fuel (m p) s >>= f) (fun_ext λ s'. write_loop-put_all n (p + 1) s')

  call_write :
      (regs : CallRegs) (k : Kernel)
      → regs.eax ≡ 260
      → run_call dev fuel m regs k ≡ sys_write dev fuel m regs k
  unfolding run_call
  call_write regs k call = rw call refl

  -- On a valid screen whose serial port is off or always free, call 260 returns: it puts the EDX bytes
  -- at ECX, of seven bits each and NUL among them, on the screen as on the terminal, and leaves
  -- the keyboard as it is.
  pub sys_write_lem :
      (regs : CallRegs) (k : Kernel)
      → regs.eax ≡ 260
      → IsValid (k.screen)
      → Ready dev fuel (k.screen)
      → AllAscii (bytes_at (regs.edx) m (regs.ecx))
      → (k' : Kernel) × (syscall_handler dev fuel m regs k ≡ some k')
        × (view (k'.screen)
            ≡ type_text k.screen.bg k.screen.fg
                (bytes_at (regs.edx) m (regs.ecx))
                (view (k.screen)))
        × IsValid (k'.screen)
        × (k'.keyboard ≡ k.keyboard)
  unfolding sys_write
  sys_write_lem regs k call v r ascii =
      let (s', done, t) =
        put_all-Typed dev fuel (bytes_at (regs.edx) m (regs.ecx)) (k.screen) v r ascii in
      let whole = write_loop-put_all (regs.edx) (regs.ecx) (k.screen) ∙ done in
      let ran : run_call dev fuel m regs k
          ≡ some (record regs { eax = regs.edx }, record k { screen = s' }) =
        call_write regs k call ∙ rw whole refl in
      (record k { screen = s' }, handler-run_call dev fuel m regs k ran, t.shown, t.valid, refl)
