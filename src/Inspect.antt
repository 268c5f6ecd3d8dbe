-- ===== src/Inspect.antt =====
-- tools/fsinspect.c: the tool that lists the files of an image with KSSFS. What it prints is a report.
pub mod Listing
mod Tests
use korolev.Prelude.{ℕ, zero, suc, ◌+◌, ◌*◌, Bool, ◌&&◌, List, [], ◌∷◌, ltb, ◌==◌, if◌then◌else◌}
use korolev.Mem.{Mem}
use korolev.Kfs2.{long_at}
use korolev.Kssfs.{word_at, kssfs_signature}
use korolev.Fuse.{Image}

-- What is printed of a cluster: a text, from its first character on, and a size.
pub record Entry : Type 0 where
  pub filename : Mem
  pub size : ℕ

pub record Report : Type 0 where
  pub signature : ℕ
  pub correct : Bool
  pub cluster_n : ℕ
  pub entries : List Entry

-- `fread(buf, 512, n / 512, f)` at `pos`: the buffer. What the file does not reach stays.
pub read_block : Image → (pos n : ℕ) → Mem → Mem
read_block img pos n buf p =
    if ltb p n && ltb (pos + p) (img.size) then img.byte (pos + p) else buf p

-- `for (i = 0; i < cluster_n; i++)`, over the rounds left.
pub inspect_loop : (n pos : ℕ) → Image → Mem → List Entry
unfolding read_block
inspect_loop zero pos img buf = []
inspect_loop (suc n) pos img buf =
    let buf' = read_block img pos (512 * 16) buf in
    record { filename = λ p. buf' (6 + p); size = word_at buf' 4 }
    ∷ inspect_loop n (pos + 512 * 16) img buf'

-- main behind the opening of the file; `buf` is what stands on the stack.
pub inspect : Image → Mem → Report
unfolding read_block
inspect img buf =
    let buf' = read_block img 0 512 buf in
    record {
      signature = long_at buf' 0;
      correct = long_at buf' 0 == kssfs_signature;
      cluster_n = long_at buf' 4;
      entries = inspect_loop (long_at buf' 4) 512 img buf';
    }
