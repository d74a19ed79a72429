-- ===== src/RvCore/Fetch.antt =====
-- A memory that is only read.
use koika.Prelude.{
  ℕ, ◌≡◌, ap, sym, ◌∙◌, some, List, [], ◌∷◌, ◌++◌, All, All-append, some_inj, inl, inr, Bool-cases,
  map, none,
}
use mathlib.Core.Path.{subst}
use koika.Memory.{MemReq, MemInput, MemOutput, Bram, to_bool}
use koika.Memory.Queue.{run_memory, accepted, accepted_by, answered, waiting}
use koika.Memory.Queue.Progress.{InRange, run_memory-in_order}
use koika.RvCore.Words.{IsFetch, Words, fetched, serve-fetched}

-- The request of a call reads, whether it is valid or not.
abbrev pub Fetches : MemInput → Type 0
Fetches input = IsFetch input.put_request

All-prefix : (xs ys : List MemReq) → All IsFetch (xs ++ ys) → All IsFetch xs
All-prefix [] ys h = tt
All-prefix (x ∷ xs) ys h = (h.0, All-prefix xs ys h.1)

accepted_by-Fetches :
    (req : MemInput) (out : MemOutput) → Fetches req → All IsFetch (accepted_by req out)
accepted_by-Fetches req out h = elim (Bool-cases (to_bool out.put_ready)) [
  | inl taken ↦ rw taken (h, tt)
  | inr refused ↦ rw refused tt
]

accepted-Fetches :
    (reqs : List MemInput) (outs : List MemOutput)
    → All Fetches reqs
    → All IsFetch (accepted reqs outs)
accepted-Fetches [] outs h = tt
accepted-Fetches (req ∷ reqs) [] h = tt
accepted-Fetches (req ∷ reqs) (out ∷ outs) h =
    All-append IsFetch (accepted_by req out) (accepted reqs outs) (accepted_by-Fetches req out h.0)
      (accepted-Fetches reqs outs h.1)

in_range : (reqs : List MemInput) → All Fetches reqs → All (λ r. InRange r.put_request) reqs
in_range [] h = tt
in_range (req ∷ reqs) h = (h.0.in_range, in_range reqs h.1)

-- What calls of `getput` give on a memory with no request waiting, when the answers are those of its
-- words: the accepted requests are the answered ones, in order, and then the one that waits, if any.
abbrev pub Reads : (ℕ → ℕ) → List MemInput → Type 0
Reads mem reqs =
    (outs : List MemOutput) × (b : Bram) × (done : List MemReq) × (run_memory
        (record { mem = mem; last = none }) reqs
      ≡ some (outs, b))
    × (accepted reqs outs ≡ done ++ waiting b.last)
    × (answered outs ≡ map (fetched mem) done)
    × (b.mem ≡ mem)

pub run_memory-Reads :
    (mem : ℕ → ℕ) (reqs : List MemInput) → Words mem → All Fetches reqs → Reads mem reqs
run_memory-Reads mem reqs words h =
    let (outs, b, done, ran, order, served) = run_memory-in_order mem reqs (in_range reqs h) in
    let fetches =
      All-prefix done (waiting b.last) (subst (All IsFetch) order (accepted-Fetches reqs outs h)) in
    let same = some_inj (sym served ∙ serve-fetched mem done words fetches) in
    (outs, b, done, ran, order, ap (λ x. x.0) same, ap (λ x. x.1) same)
