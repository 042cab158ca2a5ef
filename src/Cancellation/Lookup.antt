-- ===== src/Cancellation/Lookup.antt =====
-- Which token a cancellation request reaches.
use document_studio.Base.{
  ℕ, String, Bool, true, not, List, [], ◌∷◌, Option, none, some, All, ◌≡◌, refl, ◌∙◌, arith,
  if◌then◌else◌, str_eq, eq_iff,
}
use document_studio.Cancellation.{
  not_running, Registry, Op, registers, requests, unregisters, commits, polls, request_answered,
  get, insert, remove, register, unregister, request_token, request_cancellation, step, run,
}

get-insert :
    (id key : String) (token : ℕ) (tokens : List (String × ℕ))
    → get id (insert key token tokens) ≡ (if str_eq key id then some token else get id tokens)
unfolding get insert
get-insert id key token [] = refl
get-insert id key token ((k, old) ∷ tokens) =
    ground (arith, eq_iff k key, eq_iff k id, eq_iff key id, get-insert id key token tokens)

get-remove :
    (id key : String) (tokens : List (String × ℕ))
    → get id (remove key tokens) ≡ (if str_eq key id then none else get id tokens)
unfolding get remove
get-remove id key [] = ground arith
get-remove id key ((k, old) ∷ tokens) =
    ground (arith, eq_iff k key, eq_iff k id, eq_iff key id, get-remove id key tokens)

-- The operation leaves the registration of `id` alone.
abbrev pub spares : String → Op → Bool
spares id (registers key) = not (str_eq key id)
spares id (unregisters key) = not (str_eq key id)
spares id _ = true

request_token-tokens : (r : Registry) (o : Option ℕ) → (request_token r o).0.tokens ≡ r.tokens
unfolding request_token
request_token-tokens r none = refl
request_token-tokens r (some token) = refl

step-spares :
    (id : String) (r : Registry) (op : Op)
    → spares id op ≡ true
    → get id (step r op).0.tokens ≡ get id r.tokens
unfolding step
step-spares id r (registers key) h = ground (arith, get-insert id key r.next_cell r.tokens)
step-spares id r (requests key) h = rw (request_token-tokens r (get key r.tokens))
step-spares id r (unregisters key) h = ground (arith, get-remove id key r.tokens)
step-spares id r (commits token) h = refl
step-spares id r (polls token) h = refl

run-spares :
    (id : String) (r : Registry) (ops : List Op)
    → All (λ op. spares id op ≡ true) ops
    → get id (run r ops).0.tokens ≡ get id r.tokens
unfolding run
run-spares id r [] h = refl
run-spares id r (op ∷ ops) h = run-spares id (step r op).0 ops h.1 ∙ step-spares id r op h.0

request_found :
    (id : String) (r : Registry) (token : ℕ)
    → get id r.tokens ≡ some token
    → (step r (requests id)).1
      ≡ request_answered (some token) (request_cancellation (r.cell token)).1
unfolding step request_token
request_found id r token e = ground arith

request_missing :
    (id : String) (r : Registry)
    → get id r.tokens ≡ none
    → step r (requests id) ≡ (r, request_answered none not_running)
unfolding step request_token
request_missing id r e = ground arith

-- While other threads do anything that does not register or unregister a job's identifier, a
-- request for the job reaches the token that was registered last, also where the identifier had
-- another token before; and after the job has been unregistered a request changes nothing and is
-- answered "not running".
pub request_reaches_registered :
    (r : Registry) (id : String) (ops : List Op)
    → All (λ op. spares id op ≡ true) ops
    → let (r1, token) = register r id in
      let r2 = (run r1 ops).0 in
      let r3 = (run (unregister r id) ops).0 in
      ((step r2 (requests id)).1
        ≡ request_answered (some token) (request_cancellation (r2.cell token)).1)
      × (step r3 (requests id) ≡ (r3, request_answered none not_running))
unfolding register unregister
request_reaches_registered r id ops h = (
  request_found id _ r.next_cell (run-spares id _ ops h ∙ registered_last),
  request_missing id _ (run-spares id _ ops h ∙ unregistered_last),
)
  where
    registered_last : get id (insert id r.next_cell r.tokens) ≡ some r.next_cell
    registered_last = ground (arith, get-insert id id r.next_cell r.tokens, eq_iff id id)

    unregistered_last : get id (remove id r.tokens) ≡ none
    unregistered_last = ground (arith, get-remove id id r.tokens, eq_iff id id)
