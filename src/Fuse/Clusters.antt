-- ===== src/Fuse/Clusters.antt =====
-- Reading and writing the clusters of an image, and the search through them.
use korolev.Prelude.{
  ℕ, zero, suc, ◌+◌, ◌-◌, ◌*◌, ◌^◌, ◌≤◌, ◌<◌, ◌≡◌, ◌≢◌, refl, ap, sym, ◌∙◌, Bool, false, Option,
  none, some, ltb, if◌then◌else◌, arith, Bool-cases, inl, inr,
}
use mathlib.Core.Path.{fun_ext, subst}
use native.Mathlib.Decide.{dec_lt}
use korolev.Prelude.Slots.{first_index}
use korolev.Mem.{Mem, within}
use korolev.Fuse.{Image, Tool, place, kssfs_read_cluster, kssfs_write_cluster, search_loop}

-- The image reaches to the end of its last cluster, and a place in it is a LONG.
pub record IsWhole (t : Tool) : Type 0 where
  pub whole : 512 + 8192 * t.cluster_n ≤ t.image.size
  pub small : 512 + 8192 * t.cluster_n ≤ 2 ^ 32

-- The memory with the cluster `i` in the buffer.
abbrev pub loaded : Image → ℕ → Mem → Mem
loaded img i m p = if ltb p 8192 then img.byte (512 + i * 8192 + p) else m p

-- The image with the buffer in the cluster `i`.
abbrev pub with_cluster : Image → ℕ → Mem → Image
with_cluster img i m = record img {
  byte = λ q. if within (512 + i * 8192) 8192 q then m (q - (512 + i * 8192)) else img.byte q;
}

-- The memory behind the buffer.
abbrev pub outside : Mem → Mem
outside m p = m (8192 + p)

pub loaded-outside :
    (img : Image) (i : ℕ) (m m' : Mem) → outside m ≡ outside m' → loaded img i m ≡ loaded img i m'
loaded-outside img i m m' e = fun_ext (λ p. elim (dec_lt p 8192) [
  | yes low ↦ ground arith
  | no high ↦
      let q : 8192 + (p - 8192) ≡ p = omega arith in
      let at_p = ap (λ (f : Mem). f (p - 8192)) e in
      let at_m = ap m q in let at_m' = ap m' q in ground arith
])

pub outside-loaded : (img : Image) (i : ℕ) (m : Mem) → outside (loaded img i m) ≡ outside m
outside-loaded img i m = fun_ext (λ p. ground arith)

-- What is read back from the cluster written, and from another one.
pub loaded-with_cluster_self :
    (img : Image) (i : ℕ) (m m' : Mem)
    → loaded (with_cluster img i m) i m' ≡ (λ p. if ltb p 8192 then m p else m' p)
loaded-with_cluster_self img i m m' = fun_ext (λ p. elim (dec_lt p 8192) [
  | yes low ↦
      let e : 512 + i * 8192 + p - (512 + i * 8192) ≡ p = omega arith in
      let at_p = ap m e in ground arith
  | no high ↦ ground arith
])

pub loaded-with_cluster_ne :
    (img : Image) (i j : ℕ) (m m' : Mem)
    → i ≢ j
    → loaded (with_cluster img i m) j m' ≡ loaded img j m'
loaded-with_cluster_ne img i j m m' ne = fun_ext (λ p. elim (dec_lt p 8192) [
  | yes low ↦
      let off : within (512 + i * 8192) 8192 (512 + j * 8192 + p) ≡ false = grind arith in
      rw off refl
  | no high ↦ ground arith
])

module _ {t : Tool} (w : IsWhole t) (i : ℕ) (inside : i < t.cluster_n) where
  place_lem : place i ≡ 512 + i * 8192
  place_lem = omega (arith, w.small)

  pub read_cluster-loaded : kssfs_read_cluster i t ≡ record t { mem = loaded (t.image) i (t.mem) }
  unfolding kssfs_read_cluster
  read_cluster-loaded =
      ap (λ (m : Mem). record t { mem = m }) (fun_ext (λ p. rw place_lem (ground (arith, w.whole))))

  pub write_cluster-with_cluster :
      (m : Mem)
      → kssfs_write_cluster i (record t { mem = m })
        ≡ record t { image = with_cluster (t.image) i m; mem = m }
  unfolding kssfs_write_cluster
  write_cluster-with_cluster m =
      let fits : ltb (t.image.size) (512 + i * 8192 + 512 * 16) ≡ false = ground (arith, w.whole) in
      rw (place_lem, fits)
        (ap (λ (f : ℕ → ℕ). record t { image = record { size = t.image.size; byte = f }; mem = m })
          (fun_ext (λ q. ground arith)))

-- The clusters of an image that pass a test.
abbrev pub passing : (Mem → Bool) → Tool → ℕ → Bool
passing test t j = test (loaded (t.image) j (t.mem))

-- What a search through clusters does: it changes the memory alone, and finds the first cluster that
-- passes, which is then in the buffer.
pub data Searched (test : Mem → Bool) (t : Tool) (n i : ℕ) : Option ℕ × Tool → Type 0 where
  missed :
      (m : Mem)
      → outside m ≡ outside (t.mem)
      → first_index (passing test t) n i ≡ none
      → Searched test t n i (none, record t { mem = m })
  hit :
      (j : ℕ)
      → j < i + n
      → first_index (passing test t) n i ≡ some j
      → Searched test t n i (some j, record t { mem = loaded (t.image) j (t.mem) })

pub passing-outside :
    (test : Mem → Bool) (t : Tool) (m : Mem)
    → outside m ≡ outside (t.mem)
    → passing test (record t { mem = m }) ≡ passing test t
passing-outside test t m e = fun_ext (λ j. ap test (loaded-outside (t.image) j m (t.mem) e))

module _ (test : Mem → Bool) where
  Searched-next :
      (t : Tool) (n i : ℕ) {r : Option ℕ × Tool}
      → passing test t i ≡ false
      → Searched test (record t { mem = loaded (t.image) i (t.mem) }) n (i + 1) r
      → Searched test t (suc n) i r
  unfolding first_index
  Searched-next t n i fails (missed m out first) =
      let same =
        passing-outside test t (loaded (t.image) i (t.mem)) (outside-loaded (t.image) i (t.mem)) in
      missed m (out ∙ outside-loaded (t.image) i (t.mem))
        (rw fails (ap (λ f. first_index f n (i + 1)) (sym same) ∙ first))
  Searched-next t n i fails (hit j inside first) =
      let out = outside-loaded (t.image) i (t.mem) in
      let same = passing-outside test t (loaded (t.image) i (t.mem)) out in
      let mem = loaded-outside (t.image) j (loaded (t.image) i (t.mem)) (t.mem) out in
      subst (λ (m : Mem). Searched test t (suc n) i (some j, record t { mem = m })) (sym mem)
        (hit j (omega arith) (rw fails (ap (λ f. first_index f n (i + 1)) (sym same) ∙ first)))

  pub search_loop-Searched :
      (n i : ℕ) (t : Tool)
      → IsWhole t
      → i + n ≤ t.cluster_n
      → Searched test t n i (search_loop test n i t)
  unfolding search_loop first_index
  search_loop-Searched zero i t w h = missed (t.mem) refl refl
  search_loop-Searched (suc n) i t w h =
      let t' : Tool = record t { mem = loaded (t.image) i (t.mem) } in
      let w' : IsWhole t' = record { whole = w.whole; small = w.small } in
      let next = search_loop-Searched n (i + 1) t' w' (omega arith) in
      rw (read_cluster-loaded w i (omega arith)) (elim (Bool-cases (passing test t i)) [
        | inl passes ↦ rw passes (hit i (omega arith) (rw passes refl))
        | inr fails ↦ rw fails (Searched-next t n i fails next)
      ])
