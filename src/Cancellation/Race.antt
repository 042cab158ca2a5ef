-- ===== src/Cancellation/Race.antt =====
-- The race between a cancellation and the start of a publication.
use document_studio.Base.{
  ℕ, ◌<◌, true, false, List, [], ◌∷◌, Option, none, some, All, ◌≡◌, refl, subst, sym, Bool-cases,
  inl, inr, arith, ◌==◌,
}
use document_studio.Cancellation.{
  requested, too_late, not_running, Registry, Op, registers, requests, unregisters, commits, polls,
  Event, registered, request_answered, unregistered, commit_answered, poll_answered, step, run,
  try_begin_publication_commit, request_cancellation, is_cancelled, cancellation_active,
  cancellation_requested, publication_commit_started, request_token, get,
}

-- What the events say of one token: nothing, or that it was cancelled, or that the publication won.
pub data Verdict : Type 0 where
  undecided cancelled committed : Verdict

-- An event that does not concern the token agrees with every verdict. A poll that finds the token
-- cancelled agrees with that verdict only.
abbrev pub Agrees : ℕ → Verdict → Event → Type 0
Agrees t v (registered token) = Unit {0}
Agrees t v unregistered = Unit {0}
Agrees t v (request_answered none o) = o ≡ not_running
Agrees t undecided (request_answered (some token) o) = (token == t) ≡ false
Agrees t cancelled (request_answered (some token) o) = token ≡ t → o ≡ requested
Agrees t committed (request_answered (some token) o) = token ≡ t → o ≡ too_late
Agrees t undecided (commit_answered token won) = (token == t) ≡ false
Agrees t cancelled (commit_answered token won) = token ≡ t → won ≡ false
Agrees t committed (commit_answered token won) = token ≡ t → won ≡ true
Agrees t undecided (poll_answered token seen) = token ≡ t → seen ≡ false
Agrees t cancelled (poll_answered token seen) = Unit {0}
Agrees t committed (poll_answered token seen) = token ≡ t → seen ≡ false

abbrev pub content_of : Verdict → ℕ
content_of undecided = cancellation_active
content_of cancelled = cancellation_requested
content_of committed = publication_commit_started

-- A verdict may still be given where none has been, and is never changed.
abbrev pub Extends : Verdict → Verdict → Type 0
Extends undecided w = Unit {0}
Extends v w = v ≡ w

Agrees-Extends : (t : ℕ) (v w : Verdict) (e : Event) → Extends v w → Agrees t v e → Agrees t w e
Agrees-Extends t undecided undecided e x a = a
Agrees-Extends t undecided w (registered token) x a = tt
Agrees-Extends t undecided w unregistered x a = tt
Agrees-Extends t undecided w (request_answered none o) x a = a
Agrees-Extends t undecided cancelled (request_answered (some token) o) x a = λ h. ground arith
Agrees-Extends t undecided committed (request_answered (some token) o) x a = λ h. ground arith
Agrees-Extends t undecided cancelled (commit_answered token won) x a = λ h. ground arith
Agrees-Extends t undecided committed (commit_answered token won) x a = λ h. ground arith
Agrees-Extends t undecided cancelled (poll_answered token seen) x a = tt
Agrees-Extends t undecided committed (poll_answered token seen) x a = a
Agrees-Extends t cancelled w e x a = subst (λ v. Agrees t v e) x a
Agrees-Extends t committed w e x a = subst (λ v. Agrees t v e) x a

Extends-trans : (u v w : Verdict) → Extends u v → Extends v w → Extends u w
Extends-trans undecided v w x y = tt
Extends-trans cancelled v w x y = subst (λ u. Extends u w) (sym x) y
Extends-trans committed v w x y = subst (λ u. Extends u w) (sym x) y

-- One step of any thread: what it leaves in the token's cell, and what it answers.
abbrev Decides : ℕ → Verdict → Registry × Event → Type 0
Decides t v (r, event) =
    (w : Verdict) × Extends v w × (r.cell t ≡ content_of w) × Agrees t w event × (t < r.next_cell)

commit_Decides :
    (t token : ℕ) (v : Verdict) (r : Registry)
    → r.cell t ≡ content_of v
    → t < r.next_cell
    → Decides t v (step r (commits token))
unfolding step try_begin_publication_commit
commit_Decides t token undecided r c h = elim (Bool-cases (token == t)) [
  | inl e ↦ (committed, tt, ground arith, λ same. ground arith, h)
  | inr n ↦ (undecided, tt, ground arith, n, h)
]
commit_Decides t token cancelled r c h = (cancelled, refl, ground arith, λ same. ground arith, h)
commit_Decides t token committed r c h = (committed, refl, ground arith, λ same. ground arith, h)

request_Decides :
    (t : ℕ) (v : Verdict) (r : Registry) (found : Option ℕ)
    → r.cell t ≡ content_of v
    → t < r.next_cell
    → let (r', outcome) = request_token r found in Decides t v (r', request_answered found outcome)
unfolding request_token request_cancellation
request_Decides t undecided r none c h = (undecided, tt, c, refl, h)
request_Decides t cancelled r none c h = (cancelled, refl, c, refl, h)
request_Decides t committed r none c h = (committed, refl, c, refl, h)
request_Decides t undecided r (some token) c h = elim (Bool-cases (token == t)) [
  | inl e ↦ (cancelled, tt, ground arith, λ same. ground arith, h)
  | inr n ↦ (undecided, tt, ground arith, n, h)
]
request_Decides t cancelled r (some token) c h =
    (cancelled, refl, ground arith, λ same. ground arith, h)
request_Decides t committed r (some token) c h =
    (committed, refl, ground arith, λ same. ground arith, h)

Extends-refl : (v : Verdict) → Extends v v
Extends-refl undecided = tt
Extends-refl cancelled = refl
Extends-refl committed = refl

poll-Agrees :
    (t token : ℕ) (v : Verdict) (r : Registry)
    → r.cell t ≡ content_of v
    → Agrees t v (poll_answered token (is_cancelled (r.cell token)))
unfolding is_cancelled
poll-Agrees t token undecided r c = λ same. ground arith
poll-Agrees t token cancelled r c = tt
poll-Agrees t token committed r c = λ same. ground arith

step-Decides :
    (t : ℕ) (v : Verdict) (r : Registry) (op : Op)
    → r.cell t ≡ content_of v
    → t < r.next_cell
    → Decides t v (step r op)
unfolding step
step-Decides t v r (registers id) c h =
    (v, Extends-refl v, ground arith, agrees_registered v, omega arith)
  where
    agrees_registered : (w : Verdict) → Agrees t w (registered r.next_cell)
    agrees_registered w = tt
step-Decides t v r (requests id) c h = request_Decides t v r (get id r.tokens) c h
step-Decides t v r (unregisters id) c h = (v, Extends-refl v, c, tt, h)
step-Decides t v r (commits token) c h = commit_Decides t token v r c h
step-Decides t v r (polls token) c h = (v, Extends-refl v, c, poll-Agrees t token v r c, h)

run_Decides :
    (t : ℕ) (v : Verdict) (r : Registry) (ops : List Op)
    → r.cell t ≡ content_of v
    → t < r.next_cell
    → (w : Verdict) × Extends v w
      × ((run r ops).0.cell t ≡ content_of w)
      × All (Agrees t w) (run r ops).1
unfolding run
run_Decides t v r [] c h = (v, Extends-refl v, c, tt)
run_Decides t v r (op ∷ ops) c h =
    let (w, x, cell, agrees, allocated) = step-Decides t v r op c h in
    let (u, y, final, rest) = run_Decides t w (step r op).0 ops cell allocated in
    (u, Extends-trans v w u x y, final, (Agrees-Extends t w u (step r op).1 y agrees, rest))

-- Cancellation and publication race for a token that is still active: whatever the threads do, in
-- whatever order, there is one verdict for the token. Either nobody has asked, and its cell is
-- still active; or it is cancelled, and every request that reached it was told "requested" and
-- every commit was refused; or the publication has it, and every commit was granted, every request
-- was told "too late" and no poll has found it cancelled. The cell holds the verdict at the end.
pub race_one_verdict :
    (t : ℕ) (r : Registry) (ops : List Op)
    → r.cell t ≡ cancellation_active
    → t < r.next_cell
    → (w : Verdict) × ((run r ops).0.cell t ≡ content_of w) × All (Agrees t w) (run r ops).1
race_one_verdict t r ops c h =
    let (w, x, final, all_agree) = run_Decides t undecided r ops c h in (w, final, all_agree)
