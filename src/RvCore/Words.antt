-- ===== src/RvCore/Words.antt =====
-- Words of memories, and reads that do not write.
use mathlib.Core.Path.{fun_ext}
use koika.Prelude.{
  ℕ, zero, suc, ◌/◌, ◌^◌, ◌<◌, ◌≡◌, refl, ap, sym, ◌∙◌, arith, some, List, [], ◌∷◌, ◌==◌, inl, inr,
  cases_eq, if◌then◌else◌, lt→ltb, All, map,
}
use koika.Memory.{MemReq, MemResp, merge, load, access}
use koika.Memory.Bytes.{byte, source, merge_lem}
use koika.Memory.Queue.{serve}
use koika.Memory.Queue.Progress.{InRange}

-- A request that reads: of a word in the memory, with no byte to be written.
pub record IsFetch (req : MemReq) : Type 0 where
  pub reads : req.byte_en ≡ 0
  pub in_range : InRange req
  pub data_fits : req.«data» < 2 ^ 32

abbrev pub Words : (ℕ → ℕ) → Type 0
Words mem = (i : ℕ) → mem i < 2 ^ 32

bytes_same : (v w : ℕ) → v < 2 ^ 32 → w < 2 ^ 32 → ((k : ℕ) → k < 4 → byte k v ≡ byte k w) → v ≡ w
bytes_same v w p q h =
    let b0 = h 0 (omega arith) in
    let b1 = h 1 (omega arith) in
    let b2 = h 2 (omega arith) in let b3 = h 3 (omega arith) in omega arith

merge-reads :
    (word current : ℕ) → word < 2 ^ 32 → current < 2 ^ 32 → merge 0 word current ≡ some current
merge-reads word current p q =
    let (w, e, small, bytes) = merge_lem 0 word current (omega arith) p q in
    e ∙ ap some (bytes_same w current small q (λ k h. bytes k h ∙ unwritten k h))
  where
    unwritten : (k : ℕ) → k < 4 → byte k (source 0 word current k) ≡ byte k current
    unwritten zero h = refl
    unwritten (suc zero) h = refl
    unwritten (suc (suc zero)) h = refl
    unwritten (suc (suc (suc zero))) h = refl
    unwritten (suc (suc (suc (suc k)))) h = absurd (omega arith)

same_write : (mem : ℕ → ℕ) (i j : ℕ) → (if j == i then mem i else mem j) ≡ mem j
same_write mem i j = elim (cases_eq j i) [
  | inl (same, test) ↦ rw test (ap mem (sym same))
  | inr other ↦ rw other refl
]

-- The response to a read.
abbrev pub fetched : (ℕ → ℕ) → MemReq → MemResp
fetched mem req = record { byte_en = 0; addr = req.addr; «data» = mem (req.addr / 2 ^ 2) }

access-fetched :
    (mem : ℕ → ℕ) (req : MemReq)
    → Words mem
    → IsFetch req
    → access mem req ≡ some (fetched mem req, mem)
unfolding access load
access-fetched mem req words f =
    rw
      (
        lt→ltb _ _ f.in_range,
        f.reads,
        merge-reads req.«data» (mem (req.addr / 2 ^ 2)) f.data_fits (words _),
      )
      (ap (λ (m : ℕ → ℕ). some (fetched mem req, m)) (fun_ext (same_write mem (req.addr / 2 ^ 2))))

pub serve-fetched :
    (mem : ℕ → ℕ) (reqs : List MemReq)
    → Words mem
    → All IsFetch reqs
    → serve mem reqs ≡ some (map (fetched mem) reqs, mem)
unfolding serve
serve-fetched mem [] words h = refl
serve-fetched mem (req ∷ reqs) words h =
    rw (access-fetched mem req words h.0, serve-fetched mem reqs words h.1) refl
