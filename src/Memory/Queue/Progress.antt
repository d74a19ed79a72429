-- ===== src/Memory/Queue/Progress.antt =====
-- Calls of `getput` return while the requested addresses lie in the array.
use mathlib.Core.Path.{subst}
use koika.Prelude.{All-append}
use koika.Prelude.{
  ℕ, ◌/◌, ◌^◌, ◌<◌, ◌≡◌, refl, arith, Bool, true, false, Option, none, some, List, [], ◌∷◌, ◌++◌,
  All, Returns, Returns->>=, inl, inr, Bool-cases, lt→ltb,
}
use koika.Bits.Width.{promoted-bounds}
use koika.Bits.Slice.Laws.{index-Returns}
use koika.Memory.{
  MemReq, MemInput, MemOutput, Bram, dmem_size, to_bool, access, get_pending, get, getput, load,
  lane, merge,
}
use koika.Memory.Queue.{
  run_memory, serve, accepted, accepted_by, answered, waiting, getput-Serves, run_memory-Serves,
}

-- The address of a request lies in the array.
abbrev pub InRange : MemReq → Type 0
InRange req = req.addr / 2 ^ 2 < dmem_size

lane-Returns : (dEn word current k bytes : ℕ) → k < 4 → Returns (lane dEn word current k bytes)
unfolding lane
lane-Returns dEn word current k bytes h =
    Returns->>= _ _ (index-Returns 3 dEn k (omega (arith, promoted-bounds 4))) (λ en e. (_, refl))

merge-Returns : (dEn word current : ℕ) → Returns (merge dEn word current)
unfolding merge
merge-Returns dEn word current =
    Returns->>= _ _ (lane-Returns dEn word current 0 _ (omega arith)) (λ b0 e0.
      Returns->>= _ _ (lane-Returns dEn word current 1 _ (omega arith)) (λ b1 e1.
        Returns->>= _ _ (lane-Returns dEn word current 2 _ (omega arith)) (λ b2 e2.
          Returns->>= _ _ (lane-Returns dEn word current 3 _ (omega arith)) (λ b3 e3. (_, refl)))))

load-Returns : (mem : ℕ → ℕ) (i : ℕ) → i < dmem_size → Returns (load mem i)
unfolding load
load-Returns mem i h = rw (lt→ltb i dmem_size h) (mem i, refl)

access-Returns : (mem : ℕ → ℕ) (req : MemReq) → InRange req → Returns (access mem req)
unfolding access
access-Returns mem req h =
    Returns->>= _ _ (load-Returns mem _ h)
      (λ current e. Returns->>= _ _ (merge-Returns _ _ _) (λ word e'. (_, refl)))

get-Returns :
    (mem : ℕ → ℕ) (last : Option MemReq) (enable : Bool)
    → All InRange (waiting last)
    → Returns (get (record { mem = mem; last = last }) enable)
unfolding get get_pending
get-Returns mem last false h = (_, refl)
get-Returns mem none true h = (_, refl)
get-Returns mem (some req) true h = Returns->>= _ _ (access-Returns mem req h.0) (λ a e. (_, refl))

getput-Returns : (b : Bram) (req : MemInput) → All InRange (waiting b.last) → Returns (getput b req)
unfolding getput
getput-Returns b req h = Returns->>= _ _ (get-Returns b.mem b.last _ h) (λ a e. (_, refl))

All-suffix : (xs ys : List MemReq) → All InRange (xs ++ ys) → All InRange ys
All-suffix [] ys h = h
All-suffix (x ∷ xs) ys h = All-suffix xs ys h.1

accepted_by-InRange :
    (req : MemInput) (out : MemOutput) → InRange req.put_request → All InRange (accepted_by req out)
accepted_by-InRange req out h = elim (Bool-cases (to_bool out.put_ready)) [
  | inl taken ↦ rw taken (h, tt)
  | inr refused ↦ rw refused tt
]

-- What waits after a call was waiting before, or came in.
getput-InRange :
    (b : Bram) (req : MemInput) (x : MemOutput × Bram)
    → All InRange (waiting b.last)
    → InRange req.put_request
    → getput b req ≡ some x
    → All InRange (waiting x.1.last)
getput-InRange b req x h k e =
    let (done, order, served) = getput-Serves b req x e in
    All-suffix done _ (
      subst (All InRange) order
        (All-append InRange (waiting b.last) _ h (accepted_by-InRange req x.0 k)))

abbrev Requested : MemInput → Type 0
Requested req = InRange req.put_request

run_memory-Returns :
    (reqs : List MemInput) (b : Bram)
    → All InRange (waiting b.last)
    → All Requested reqs
    → Returns (run_memory b reqs)
unfolding run_memory
run_memory-Returns [] b h k = (_, refl)
run_memory-Returns (req ∷ reqs) b h k = Returns->>= _ _ (getput-Returns b req h) (λ a e.
    Returns->>= _ _ (run_memory-Returns reqs a.1 (getput-InRange b req a h k.0 e) k.1)
      (λ y e'. (_, refl)))

-- From a memory with no request waiting, while the requested addresses lie in the array: any number
-- of calls of `getput` returns; the accepted requests are those that have been answered, in order, and
-- then the one that waits, if any; and the valid responses and the final words are what the answered
-- requests give when they are served one after the other.
pub run_memory-in_order :
    (mem : ℕ → ℕ) (reqs : List MemInput)
    → All Requested reqs
    → (outs : List MemOutput) × (b : Bram) × (done : List MemReq) × (run_memory
          (record { mem = mem; last = none })
          reqs
        ≡ some (outs, b))
      × (accepted reqs outs ≡ done ++ waiting b.last)
      × (serve mem done ≡ some (answered outs, b.mem))
run_memory-in_order mem reqs h =
    let (x, e) = run_memory-Returns reqs (record { mem = mem; last = none }) tt h in
    let (done, order, served) = run_memory-Serves reqs (record { mem = mem; last = none }) x e in
    (x.0, x.1, done, e, order, served)
