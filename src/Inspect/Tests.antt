-- ===== src/Inspect/Tests.antt =====
-- The image of one file, `x`, of three bytes.
use korolev.Prelude.{
  ℕ, ◌<◌, ◌≡◌, ◌==◌, refl, List, [], ◌∷◌, some, true, arith, if◌then◌else◌, ltb, length, get_elem?,
}
use korolev.Mem.{Mem}
use korolev.Libc.Copy.{strnlen}
use korolev.Fuse.{Image}
use korolev.Format.{Argument, format}
use korolev.Format.Layout.{written, IsFormatted, format_lem}
use korolev.Inspect.{Entry, inspect}
use korolev.Inspect.Listing.{inspect-format}

abbrev name : Mem
name p = if p == 0 then b'x' else 0

abbrev arguments : List Argument
arguments =
    record {
      text = name;
      file = some (record { size = 3; byte = λ p. 9; executable = true; uid = 0; gid = 0 });
    }
    ∷ []

abbrev stacks : ℕ → Mem
stacks i p = 0

formatted :
    (img : Image) × (format stacks 1 arguments ≡ some img)
    × IsFormatted (written stacks 1 0 arguments) 255 img
formatted = format_lem stacks 1 arguments (omega arith) (omega arith)

inspect-format_example :
    let report = inspect (formatted.0) (λ p. 77) in
    (report.correct ≡ true)
    × (report.cluster_n ≡ 256)
    × (length (report.entries) ≡ 256)
    × (e : Entry) × (get_elem? (report.entries) 0 ≡ some e)
    × (e.size ≡ 3)
    × ((i : ℕ) → i < 256 → e.filename i ≡ (if ltb i (strnlen name 0 256) then name i else 0))
unfolding written
inspect-format_example =
    inspect-format stacks 1 arguments 0 (λ p. 77) (omega arith) (omega arith) (formatted.1) refl
