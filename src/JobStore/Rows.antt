-- ===== src/JobStore/Rows.antt =====
-- How the rows of `jobs` may change in one call, and rules that follow a call to its `UPDATE`.
use document_studio.Base.{
  ℕ, ◌+◌, ◌≤◌, String, Bool, All, str_eq, true, false, ◌&&◌, ◌||◌, List, [], ◌∷◌, is_some, is_none,
  ◌≡◌, refl, sym, subst, inl, inr, arith, Result, ok, err, ◌>>=◌, ◌>>◌, refuse_if, Result-cases,
  Bool-cases, if◌then◌else◌,
}
use document_studio.Contracts.JobState.{JobState, verifying, completed}
use document_studio.JobEngine.{can_transition, state_eq}
use document_studio.Base.{ok-injective}
use document_studio.JobStore.Tables.{DatabaseError, Database, JobRow}
use document_studio.JobStore.Sql.{update}
use document_studio.JobStore.Steps.{tables}

-- The edges of the lifecycle, no change, and the end of a job without an output.
abbrev pub is_legal : JobState → JobState → Bool
is_legal a b =
    state_eq a b || (can_transition a b || (state_eq a verifying && state_eq b completed))

-- No output and no error of the job is in the tables.
abbrev pub HasNothing : String → Database → Type 0
HasNothing id db =
    All (λ o. str_eq o.job_id id ≡ false) db.job_outputs
    × All (λ job_id. str_eq job_id id ≡ false) db.job_errors

-- What a call on the tables may do to the row of a job.
pub record Follows (db : Database) (old new : JobRow) : Type 0 where
  pub same_id : new.id ≡ old.id
  pub legal : is_legal old.state new.state ≡ true
  pub version_grows : old.version ≤ new.version
  pub version_moves : state_eq old.state new.state ≡ false → new.version ≡ old.version + 1
  pub cancellation_stays :
      is_some old.cancellation_requested_at ≡ true
      → new.cancellation_requested_at ≡ old.cancellation_requested_at
  pub no_completion_of_cancelled :
      can_transition old.state new.state ≡ false
      → state_eq old.state new.state ≡ false
      → is_none old.cancellation_requested_at ≡ true
  pub no_completion_with_an_output :
      can_transition old.state new.state ≡ false
      → state_eq old.state new.state ≡ false
      → HasNothing old.id db

abbrev pub Related {ℓ} : {A : Type ℓ} → (A → A → Type 0) → List A → List A → Type 0
Related R [] [] = Unit {0}
Related R [] (new ∷ news) = ⊥
Related R (old ∷ olds) [] = ⊥
Related R (old ∷ olds) (new ∷ news) = R old new × Related R olds news

pub Related-refl :
    (R : JobRow → JobRow → Type 0) → ((j : JobRow) → R j j) → (js : List JobRow) → Related R js js
Related-refl R r [] = tt
Related-refl R r (j ∷ js) = (r j, Related-refl R r js)

pub same_state : (s : JobState) → state_eq s s ≡ true
same_state s = unfold state_eq in ground arith

pub Follows-refl : {db : Database} (j : JobRow) → Follows db j j
Follows-refl j = record {
  same_id = refl;
  legal = ground (arith, same_state j.state);
  version_grows = omega arith;
  version_moves = λ h. absurd (cc (h, same_state j.state));
  cancellation_stays = λ h. refl;
  no_completion_of_cancelled = λ h h'. absurd (cc (h', same_state j.state));
  no_completion_with_an_output = λ h h'. absurd (cc (h', same_state j.state));
}

pub update-cons :
    (is_valid where_clause : JobRow → Bool) (set : JobRow → JobRow) (row : JobRow)
    (rows : List JobRow) (r : List JobRow × ℕ)
    → update is_valid where_clause set (row ∷ rows) ≡ ok r
    → (rest : List JobRow × ℕ) × (update is_valid where_clause set rows ≡ ok rest)
      × (r.0 ≡ (if where_clause row then set row else row) ∷ rest.0)
      × (r.1 ≡ (if where_clause row then rest.1 + 1 else rest.1))
unfolding update
update-cons is_valid where_clause set row rows r h =
    elim (Result-cases (update is_valid where_clause set rows)) [
      | inl (rest, e) ↦ (rest, e, ground (arith, h, e), ground (arith, h, e))
      | inr (x, e) ↦ absurd (ground (arith, h, e))
    ]

pub update-Related :
    (R : JobRow → JobRow → Type 0) (is_valid where_clause : JobRow → Bool) (set : JobRow → JobRow)
    (rows : List JobRow)
    → ((j : JobRow) → R j j)
    → ((j : JobRow) → where_clause j ≡ true → R j (set j))
    → (r : List JobRow × ℕ) → update is_valid where_clause set rows ≡ ok r
    → Related R rows r.0
update-Related R is_valid where_clause set [] reflexive changes r h =
    let nothing : r.0 ≡ [] = unfold update in ground (arith, h) in
    subst (Related R []) (sym nothing) tt
update-Related R is_valid where_clause set (row ∷ rows) reflexive changes r h =
    let (rest, e, moved, _) = update-cons is_valid where_clause set row rows r h in
    let others = update-Related R is_valid where_clause set rows reflexive changes rest e in
    subst (Related R (row ∷ rows)) (sym moved) (elim (Bool-cases (where_clause row)) [
      | inl hit ↦ (rw hit (changes row hit), others)
      | inr miss ↦ (rw miss (reflexive row), others)
    ])

-- The rows of `jobs` follow the old ones when a call succeeds.
abbrev pub Moves {ℓ} : {A : Type ℓ} → Database → (A → Database) → Result DatabaseError A → Type ℓ
Moves db tables_of r = (a : _) → r ≡ ok a → Related (Follows db) db.jobs (tables_of a).jobs

pub Moves-refuse_if {ℓ} :
    {A : Type ℓ} (db : Database) (tables_of : A → Database) (refused : Bool) (e : DatabaseError)
    (r : Result DatabaseError A)
    → (refused ≡ false → Moves db tables_of r)
    → Moves db tables_of (refuse_if refused e >> r)
Moves-refuse_if db tables_of false e r m a h = m refl a h
Moves-refuse_if db tables_of true e r m a h = cc

pub Moves->>= {ℓ κ} :
    {A : Type ℓ} {B : Type κ} (db : Database) (tables_of : B → Database)
    (r : Result DatabaseError A) (f : A → Result DatabaseError B)
    → ((a : A) → r ≡ ok a → Moves db tables_of (f a))
    → Moves db tables_of (r >>= f)
Moves->>= db tables_of (ok x) f m a h = m x refl a h
Moves->>= db tables_of (err e) f m a h = cc

pub Moves-ok {ℓ} :
    {A : Type ℓ} (db : Database) (tables_of : A → Database) (a : A)
    → Related (Follows db) db.jobs (tables_of a).jobs
    → Moves db tables_of (ok a)
Moves-ok db tables_of a related b h =
    subst (λ t. Related (Follows db) db.jobs (tables_of t).jobs) (ok-injective h) related

pub Moves-tables :
    {A : Type 0} (db : Database) (r : Result DatabaseError (Database × A))
    → Moves db (λ p. p.0) r
    → Moves db (λ d. d) (tables r)
Moves-tables db (ok (d, a)) m b h =
    subst {A = Database} (λ t. Related (Follows db) db.jobs t.jobs) (ok-injective h) (m (d, a) refl)
Moves-tables db (err e) m b h = cc

-- An `UPDATE jobs` whose changes follow the old rows.
pub Moves-update {ℓ} :
    {B : Type ℓ} (db : Database) (tables_of : B → Database) (is_valid where_clause : JobRow → Bool)
    (set : JobRow → JobRow) (f : List JobRow × ℕ → Result DatabaseError B)
    → ((j : JobRow) → where_clause j ≡ true → Follows db j (set j))
    → ((u : List JobRow × ℕ) → Related (Follows db) db.jobs u.0 → Moves db tables_of (f u))
    → Moves db tables_of (update is_valid where_clause set db.jobs >>= f)
Moves-update db tables_of is_valid where_clause set f changes m =
    Moves->>= db tables_of (update is_valid where_clause set db.jobs) f (λ u e.
      m u (update-Related (Follows db) is_valid where_clause set db.jobs Follows-refl changes u e))
