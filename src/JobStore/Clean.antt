-- ===== src/JobStore/Clean.antt =====
-- What the tables are to hold of the jobs that have ended, and which evidence shows it.
use document_studio.Base.{
  ℕ, String, Bool, true, false, ◌&&◌, List, [], ◌∷◌, is_some, is_none, All, All-map, ◌≡◌, refl, sym,
  subst, inl, inr, arith, str_eq, eq_iff, ok, count_if, Bool-cases,
}
use document_studio.Contracts.JobState.{JobState, completed, is_terminal}
use document_studio.Contracts.OutputStatus
use document_studio.Contracts.Records.{JobOutput}
use document_studio.JobEngine.{state_eq}
use document_studio.JobStore.Tables.{JobRow, OutputRow, Database}
use document_studio.JobStore.Sql.{update}
use document_studio.JobStore.Evidence.{
  count_outputs, has_temporary_path, is_delivered, is_fully_published, terminal_evidence_is_ready,
}
use document_studio.JobStore.Rows.{update-cons}
use document_studio.JobStore.Proofs.{count-All}

-- No staging file and no partial file of the output is left.
abbrev pub IsTidy : JobOutput → Type 0
IsTidy o = (is_none o.staging_path ≡ true) × (is_none o.partial_path ≡ true)

-- The output is published, and where, how large and when is known.
abbrev pub IsDelivered : JobOutput → Type 0
IsDelivered o =
    (o.status ≡ OutputStatus.published)
    × (is_some o.final_path ≡ true)
    × (is_some o.size_bytes ≡ true)
    × (is_some o.sha256 ≡ true)
    × (is_some o.published_at ≡ true)

-- Every output of the job satisfies the predicate.
abbrev pub OfJob : (JobOutput → Type 0) → String → List OutputRow → Type 0
OfJob P id = All (λ o. str_eq o.job_id id ≡ true → P o.output)

-- A job that has ended has only tidy outputs, and only delivered ones if it is completed.
abbrev pub IsClean : List OutputRow → JobRow → Type 0
IsClean outputs j =
    (is_terminal j.state ≡ true → OfJob IsTidy j.id outputs)
    × (j.state ≡ completed → OfJob IsDelivered j.id outputs)

abbrev pub AllClean : Database → Type 0
AllClean db = All (IsClean db.job_outputs) db.jobs

module _ {A : Type 0} (p q : A → Bool) where
  -- When nothing satisfies both tests, the second fails where the first holds.
  none_counted :
      (xs : List A) → count_if (λ x. p x && q x) xs ≡ 0 → All (λ x. p x ≡ true → q x ≡ false) xs
  none_counted [] h = tt
  none_counted (x ∷ xs) h = (λ hit. ground (arith, h, hit), none_counted xs (ground (arith, h)))

pub tidy : (o : JobOutput) → has_temporary_path o ≡ false → IsTidy o
unfolding has_temporary_path
tidy o h = ground (arith, h)

pub delivered : (o : JobOutput) → is_delivered o ≡ true → IsDelivered o
unfolding is_delivered
delivered o h = ground (arith, h)

pub fully-IsTidy : (o : JobOutput) → is_fully_published o ≡ true → IsTidy o
unfolding is_fully_published
fully-IsTidy o h = ground (arith, h)

pub fully-IsDelivered : (o : JobOutput) → is_fully_published o ≡ true → IsDelivered o
unfolding is_fully_published
fully-IsDelivered o h = ground (arith, h)

-- What a test of the outputs tells of them.
pub OfJob-map :
    (test : JobOutput → Bool) (b : Bool) (P : JobOutput → Type 0) (id : String)
    (outputs : List OutputRow)
    → ((o : JobOutput) → test o ≡ b → P o)
    → All (λ o. str_eq o.job_id id ≡ true → test o.output ≡ b) outputs
    → OfJob P id outputs
OfJob-map test b P id outputs means =
    All-map (λ o. str_eq o.job_id id ≡ true → test o.output ≡ b)
      (λ o. str_eq o.job_id id ≡ true → P o.output) outputs
      (λ o found mine. means o.output (found mine))

pub ready_evidence :
    (id : String) (next : JobState) (db : Database)
    → terminal_evidence_is_ready id next db ≡ ok true
    → OfJob IsTidy id db.job_outputs
      × (state_eq next completed ≡ true → OfJob IsDelivered id db.job_outputs)
unfolding terminal_evidence_is_ready
ready_evidence id next db h =
    let mine : OutputRow → Bool = λ o. str_eq o.job_id id in
    (
      OfJob-map has_temporary_path false IsTidy id db.job_outputs tidy
          (none_counted mine (λ o. has_temporary_path o.output) db.job_outputs (ground (arith, h))),
      λ last.
          let every : count_if (λ o. mine o && is_delivered o.output) db.job_outputs
              ≡ count_outputs id db.job_outputs =
            ground (arith, h, last) in
          OfJob-map is_delivered true IsDelivered id db.job_outputs delivered (
            count-All mine (λ o. is_delivered o.output) db.job_outputs
              (unfold count_outputs in every)),
    )

-- A predicate on rows that the changes of an `UPDATE` establish.
pub update-All :
    (P : JobRow → Type 0) (is_valid where_clause : JobRow → Bool) (set : JobRow → JobRow)
    (rows : List JobRow)
    → ((j : JobRow) → where_clause j ≡ true → P (set j))
    → All P rows
    → (u : List JobRow × ℕ) → update is_valid where_clause set rows ≡ ok u
    → All P u.0
update-All P is_valid where_clause set [] makes before u h =
    let nothing : u.0 ≡ [] = unfold update in ground (arith, h) in subst (All P) (sym nothing) tt
update-All P is_valid where_clause set (row ∷ rows) makes before u h =
    let (rest, e, moved, _) = update-cons is_valid where_clause set row rows u h in
    let others = update-All P is_valid where_clause set rows makes before.1 rest e in
    subst (All P) (sym moved) (elim (Bool-cases (where_clause row)) [
      | inl hit ↦ (rw hit (makes row hit), others)
      | inr miss ↦ (rw miss before.0, others)
    ])

pub completed_ends : (s : JobState) → s ≡ completed → is_terminal s ≡ true
unfolding is_terminal
completed_ends s h = rw h refl

pub is_completed : (s : JobState) → s ≡ completed → state_eq s completed ≡ true
unfolding state_eq
is_completed s h = rw h refl

-- A row of the job whose outputs are known, by its id and its state.
pub clean_row :
    (id : String) (outputs : List OutputRow) (own_id : String) (s : JobState)
    → str_eq own_id id ≡ true
    → (is_terminal s ≡ true → OfJob IsTidy id outputs)
    → (s ≡ completed → OfJob IsDelivered id outputs)
    → (is_terminal s ≡ true → OfJob IsTidy own_id outputs)
      × (s ≡ completed → OfJob IsDelivered own_id outputs)
clean_row id outputs own_id s same tidy_ended delivered_ended =
    let here : id ≡ own_id = sym ((eq_iff own_id id).0 same) in
    (
      λ h. subst (λ i. OfJob IsTidy i outputs) here (tidy_ended h),
      λ h. subst (λ i. OfJob IsDelivered i outputs) here (delivered_ended h),
    )

pub no_outputs :
    (P : JobOutput → Type 0) (id : String) (outputs : List OutputRow)
    → count_outputs id outputs ≡ 0
    → OfJob P id outputs
unfolding count_outputs
no_outputs P id [] h = tt
no_outputs P id (o ∷ os) h =
    (λ mine. absurd (ground (arith, h, mine)), no_outputs P id os (ground (arith, h)))
