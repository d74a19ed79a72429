-- ===== src/Memory/Queue.antt =====
-- Many calls of `getput`: what a memory answers to the requests that it has accepted.
pub mod Progress
pub mod Throughput
use mathlib.Core.Path.{subst}
use mathlib.Core.List.{append_assoc, append-nil}
use koika.Prelude.{
  ℕ, ◌/◌, ◌^◌, ◌<◌, ◌≡◌, refl, ap, sym, ◌∙◌, arith, Bool, true, false, Option, none, some, List, [],
  ◌∷◌, ◌++◌, All, if◌then◌else◌, of_bool, ◌>>=◌, >>=-eq-some, Returns, Returns->>=, some_inj, inl,
  inr, Bool-cases, lt→ltb, map,
}
use koika.Bits.Width.{promoted-bounds}
use koika.Bits.Slice.Laws.{index-Returns}
use koika.Memory.{
  has_value, value_or, no_response, MemReq, MemResp, MemInput, MemOutput, Bram, dmem_size, to_bool,
  access, get_pending, get, put, getput, load, lane, merge,
}

unfoldable pub run_memory : Bram → List MemInput → Option (List MemOutput × Bram)
run_memory b [] = some ([], b)
run_memory b (req ∷ reqs) = do
  (out, b₁) ← getput b req
  (outs, b₂) ← run_memory b₁ reqs
  some (out ∷ outs, b₂)

-- The reads and writes of a list of requests, in order.
unfoldable pub serve : (ℕ → ℕ) → List MemReq → Option (List MemResp × (ℕ → ℕ))
serve mem [] = some ([], mem)
serve mem (req ∷ reqs) = do
  (resp, mem₁) ← access mem req
  (resps, mem₂) ← serve mem₁ reqs
  some (resp ∷ resps, mem₂)

abbrev pub accepted_by : MemInput → MemOutput → List MemReq
accepted_by req out = if to_bool out.put_ready then req.put_request ∷ [] else []

abbrev answered_by : MemOutput → List MemResp
answered_by out = if to_bool out.get_valid then out.get_response ∷ [] else []

-- The requests that were taken, and the responses that were valid.
abbrev pub accepted : List MemInput → List MemOutput → List MemReq
accepted (req ∷ reqs) (out ∷ outs) = accepted_by req out ++ accepted reqs outs
accepted reqs outs = []

abbrev pub answered : List MemOutput → List MemResp
answered [] = []
answered (out ∷ outs) = answered_by out ++ answered outs

abbrev pub waiting : Option MemReq → List MemReq
waiting none = []
waiting (some req) = req ∷ []

-- What was waiting and what has come in since is what has been served and what waits now.
abbrev Serves : Bram → List MemReq → List MemResp → Bram → Type 0
Serves b taken resps b' =
    (done : List MemReq) × (waiting b.last ++ taken ≡ done ++ waiting b'.last)
    × (serve b.mem done ≡ some (resps, b'.mem))

serve-append :
    (mem : ℕ → ℕ) (xs ys : List MemReq) (rs ss : List MemResp) (m m' : ℕ → ℕ)
    → serve mem xs ≡ some (rs, m)
    → serve m ys ≡ some (ss, m')
    → serve mem (xs ++ ys) ≡ some (rs ++ ss, m')
unfolding serve
serve-append mem [] ys rs ss m m' e h =
    subst
      (λ (x : List MemResp × (ℕ → ℕ)).
        serve x.1 ys ≡ some (ss, m') → serve mem ys ≡ some (x.0 ++ ss, m'))
      (some_inj e) (λ k. k) h
serve-append mem (x ∷ xs) ys rs ss m m' e h =
    let (a, first, more) = >>=-eq-some (access mem x) _ e in
    let (y, others, last) = >>=-eq-some (serve a.1 xs) _ more in
    subst
      (λ (p : List MemResp × (ℕ → ℕ)).
        serve p.1 ys ≡ some (ss, m') → serve mem (x ∷ xs ++ ys) ≡ some (p.0 ++ ss, m'))
      (some_inj last) (λ k. rw (first, serve-append a.1 xs ys y.0 ss y.1 m' others k)) h

regroup : (xs ys zs ts done : List MemReq) → xs ≡ done ++ ys → ts ≡ ys ++ zs → xs ++ zs ≡ done ++ ts
regroup xs ys zs ts done p q = rw (p, q) (append_assoc done ys zs)

abbrev answer : Option MemResp → List MemResp
answer none = []
answer (some resp) = resp ∷ []

-- `get` serves the waiting request, or none.
abbrev Answers : (ℕ → ℕ) → Option MemReq → Option MemResp × Bram → Type 0
Answers mem last x =
    (done : List MemReq) × (waiting last ≡ done ++ waiting x.1.last)
    × (serve mem done ≡ some (answer x.0, x.1.mem))

get-Answers :
    (mem : ℕ → ℕ) (last : Option MemReq) (enable : Bool) (x : Option MemResp × Bram)
    → get (record { mem = mem; last = last }) enable ≡ some x
    → Answers mem last x
unfolding get get_pending serve
get-Answers mem last false x e = subst (Answers mem last) (some_inj e) ([], refl, refl)
get-Answers mem none true x e = subst (Answers mem none) (some_inj e) ([], refl, refl)
get-Answers mem (some req) true x e =
    let (a, done, last) = >>=-eq-some (access mem req) _ e in
    subst (Answers mem (some req)) (some_inj last) (req ∷ [], refl, rw done)

abbrev requested : Bool → MemReq → Option MemReq
requested valid req = if valid then some req else none

-- `put` takes a request only if none is waiting.
put-waiting :
    (mem : ℕ → ℕ) (last : Option MemReq) (valid : Bool) (req : MemReq)
    → let (taken, b) = put (record { mem = mem; last = last }) (requested valid req) in
      (waiting b.last ≡ waiting last ++ (if to_bool (of_bool taken) then req ∷ [] else []))
      × (b.mem ≡ mem)
unfolding put
put-waiting mem none false req = (refl, refl)
put-waiting mem none true req = (refl, refl)
put-waiting mem (some other) false req = (refl, refl)
put-waiting mem (some other) true req = (refl, refl)

answered-answer :
    (o : Option MemResp)
    → (if to_bool (of_bool (has_value o)) then value_or o no_response ∷ [] else []) ≡ answer o
answered-answer none = refl
answered-answer (some resp) = refl

pub getput-Serves :
    (b : Bram) (req : MemInput) (x : MemOutput × Bram)
    → getput b req ≡ some x
    → Serves b (accepted_by req x.0) (answered_by x.0) x.1
unfolding getput
getput-Serves b req x e =
    let (a, got, last) = >>=-eq-some (get b (to_bool req.get_ready)) _ e in
    let (done, order, served) = get-Answers b.mem b.last (to_bool req.get_ready) a got in
    let (queue, same) = put-waiting a.1.mem a.1.last (to_bool req.put_valid) req.put_request in
    subst (λ (y : MemOutput × Bram). Serves b (accepted_by req y.0) (answered_by y.0) y.1)
      (some_inj last)
      (
        done,
        regroup (waiting b.last) (waiting a.1.last) _ _ done order queue,
        rw (answered-answer a.0, same) served,
      )

Serves-next :
    (b b₁ b₂ : Bram) (taken later : List MemReq) (resps others : List MemResp)
    → Serves b taken resps b₁
    → Serves b₁ later others b₂
    → Serves b (taken ++ later) (resps ++ others) b₂
Serves-next b b₁ b₂ taken later resps others (xs, p, served) (ys, q, more) = (
  xs ++ ys,
  sym (append_assoc (waiting b.last) taken later)
      ∙ ap (λ t. t ++ later) p
      ∙ append_assoc xs (waiting b₁.last) later
      ∙ ap (λ t. xs ++ t) q
      ∙ sym (append_assoc xs ys (waiting b₂.last)),
  serve-append b.mem xs ys resps others b₁.mem b₂.mem served more,
)

pub run_memory-Serves :
    (reqs : List MemInput) (b : Bram) (x : List MemOutput × Bram)
    → run_memory b reqs ≡ some x
    → Serves b (accepted reqs x.0) (answered x.0) x.1
unfolding run_memory
run_memory-Serves [] b x e =
    subst (λ (y : List MemOutput × Bram). Serves b (accepted [] y.0) (answered y.0) y.1)
      (some_inj e) ([], append-nil _, (unfold serve in refl))
run_memory-Serves (req ∷ reqs) b x e =
    let (a, first, more) = >>=-eq-some (getput b req) _ e in
    let (y, others, last) = >>=-eq-some (run_memory a.1 reqs) _ more in
    subst (λ (z : List MemOutput × Bram). Serves b (accepted (req ∷ reqs) z.0) (answered z.0) z.1)
      (some_inj last)
      (Serves-next b a.1 y.1 _ _ _ _ (getput-Serves b req a first)
        (run_memory-Serves reqs a.1 y others))
