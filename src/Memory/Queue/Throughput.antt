-- ===== src/Memory/Queue/Throughput.antt =====
-- Calls of `getput` that ask and take an answer each time.
use mathlib.Core.Path.{subst}
use koika.Prelude.{
  ◌≡◌, refl, sym, ap, ◌∙◌, true, Option, none, some, List, [], ◌∷◌, ◌++◌, All, map, >>=-eq-some,
  some_inj, ℕ,
}
use koika.Memory.{
  MemReq, MemResp, MemInput, MemOutput, Bram, to_bool, access, get_pending, get, put, getput,
}
use koika.Memory.Queue.{run_memory, serve, accepted, accepted_by, answered, waiting}
use koika.Memory.Queue.Progress.{InRange, run_memory-in_order}

-- A call with a valid request inside the memory, that takes an answer.
pub record Busy (req : MemInput) : Type 0 where
  pub takes : to_bool req.get_ready ≡ true
  pub asks : to_bool req.put_valid ≡ true
  pub in_range : InRange req.put_request

-- After an answer has been taken, no request waits.
get-last :
    (b : Bram) (last : Option MemReq) (x : Option MemResp × Bram)
    → b.last ≡ last
    → get_pending b last ≡ some x
    → x.1.last ≡ none
unfolding get_pending
get-last b none x e h = subst (λ (y : Option MemResp × Bram). y.1.last ≡ none) (some_inj h) e
get-last b (some req) x e h =
    let (a, served, last) = >>=-eq-some (access b.mem req) _ h in
    subst (λ (y : Option MemResp × Bram). y.1.last ≡ none) (some_inj last) refl

put-none :
    (b : Bram) (req : MemReq)
    → b.last ≡ none
    → put b (some req) ≡ (true, record b { last = some req })
unfolding put
put-none b req e = rw e refl

-- A busy call is accepted, and its request waits.
getput-Busy :
    (b : Bram) (req : MemInput) (x : MemOutput × Bram)
    → Busy req
    → getput b req ≡ some x
    → (accepted_by req x.0 ≡ req.put_request ∷ []) × (x.1.last ≡ some req.put_request)
unfolding getput get
getput-Busy b req x busy e =
    let (a, got, last) = >>=-eq-some (get b (to_bool req.get_ready)) _ e in
    let taken : get_pending b b.last ≡ some a = rw busy.takes at got in
    let queued = put-none a.1 req.put_request (get-last b b.last a refl taken) in
    subst
      (λ (y : MemOutput × Bram).
        (accepted_by req y.0 ≡ req.put_request ∷ []) × (y.1.last ≡ some req.put_request))
      (some_inj (rw (busy.asks, queued) at last)) (refl, refl)

abbrev pub asked : List MemInput → List MemReq
asked reqs = map (λ (r : MemInput). r.put_request) reqs

accepted-Busy :
    (reqs : List MemInput) (b : Bram) (x : List MemOutput × Bram)
    → All Busy reqs
    → run_memory b reqs ≡ some x
    → accepted reqs x.0 ≡ asked reqs
unfolding run_memory
accepted-Busy [] b x h e = refl
accepted-Busy (req ∷ reqs) b x h e =
    let (a, first, more) = >>=-eq-some (getput b req) _ e in
    let (y, others, last) = >>=-eq-some (run_memory a.1 reqs) _ more in
    let (now, waits) = getput-Busy b req a h.0 first in
    subst (λ (z : List MemOutput × Bram). accepted (req ∷ reqs) z.0 ≡ asked (req ∷ reqs))
      (some_inj last)
      (ap (λ t. t ++ accepted reqs y.0) now
        ∙ ap (λ t. req.put_request ∷ t) (accepted-Busy reqs a.1 y h.1 others))

-- The request of the last call waits.
last-Busy :
    (reqs : List MemInput) (r : MemInput) (b : Bram) (x : List MemOutput × Bram)
    → All Busy (reqs ++ (r ∷ []))
    → run_memory b (reqs ++ (r ∷ [])) ≡ some x
    → x.1.last ≡ some r.put_request
unfolding run_memory
last-Busy [] r b x h e =
    let (a, first, more) = >>=-eq-some (getput b r) _ e in
    subst (λ (z : List MemOutput × Bram). z.1.last ≡ some r.put_request) (some_inj more)
      (getput-Busy b r a h.0 first).1
last-Busy (req ∷ reqs) r b x h e =
    let (a, first, more) = >>=-eq-some (getput b req) _ e in
    let (y, others, last) = >>=-eq-some (run_memory a.1 (reqs ++ (r ∷ []))) _ more in
    subst (λ (z : List MemOutput × Bram). z.1.last ≡ some r.put_request) (some_inj last)
      (last-Busy reqs r a.1 y h.1 others)

abbrev drop_last : List MemReq → List MemReq
drop_last [] = []
drop_last (x ∷ []) = []
drop_last (x ∷ y ∷ ys) = x ∷ drop_last (y ∷ ys)

drop_last-snoc : (xs : List MemReq) (a : MemReq) → drop_last (xs ++ (a ∷ [])) ≡ xs
drop_last-snoc [] a = refl
drop_last-snoc (x ∷ []) a = refl
drop_last-snoc (x ∷ y ∷ ys) a = ap (λ t. x ∷ t) (drop_last-snoc (y ∷ ys) a)

asked-snoc :
    (reqs : List MemInput) (r : MemInput)
    → asked (reqs ++ (r ∷ [])) ≡ asked reqs ++ (r.put_request ∷ [])
asked-snoc [] r = refl
asked-snoc (req ∷ reqs) r = ap (λ t. req.put_request ∷ t) (asked-snoc reqs r)

Busy-InRange : (reqs : List MemInput) → All Busy reqs → All (λ r. InRange r.put_request) reqs
Busy-InRange [] h = tt
Busy-InRange (req ∷ reqs) h = (h.0.in_range, Busy-InRange reqs h.1)

-- From a memory with no request waiting: if each of one or more calls of `getput` has a valid request
-- inside the memory and takes an answer, then they return and every request is accepted; after the last
-- call its request waits, and all the others have been answered, as if they were served one after the
-- other.
pub run_memory-keeps_up :
    (mem : ℕ → ℕ) (reqs : List MemInput) (r : MemInput)
    → All Busy (reqs ++ (r ∷ []))
    → (outs : List MemOutput) × (b : Bram) × (run_memory
          (record { mem = mem; last = none })
          (reqs ++ (r ∷ []))
        ≡ some (outs, b))
      × (accepted (reqs ++ (r ∷ [])) outs ≡ asked (reqs ++ (r ∷ [])))
      × (b.last ≡ some r.put_request)
      × (serve mem (asked reqs) ≡ some (answered outs, b.mem))
run_memory-keeps_up mem reqs r busy =
    let (outs, b, done, ran, order, served) =
      run_memory-in_order mem (reqs ++ (r ∷ [])) (Busy-InRange _ busy) in
    let all = accepted-Busy (reqs ++ (r ∷ [])) _ (outs, b) busy ran in
    let waits = last-Busy reqs r _ (outs, b) busy ran in
    let same : asked reqs ++ (r.put_request ∷ []) ≡ done ++ (r.put_request ∷ []) =
      sym (asked-snoc reqs r) ∙ sym all ∙ order ∙ ap (λ t. done ++ waiting t) waits in
    let answered_all : asked reqs ≡ done =
      sym (drop_last-snoc (asked reqs) r.put_request)
      ∙ ap drop_last same
      ∙ drop_last-snoc done r.put_request in
    (outs, b, ran, all, waits, ap (serve mem) answered_all ∙ served)
