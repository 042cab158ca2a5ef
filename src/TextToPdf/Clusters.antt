-- ===== src/TextToPdf/Clusters.antt =====
-- What `validate_joiner` of text_to_pdf.rs has found of the characters around a joiner.
use document_studio.Base.{
  ℕ, zero, suc, ◌+◌, ◌-◌, ◌≤◌, ◌<◌, Bool, true, false, not, ◌&&◌, ◌||◌, ltb, leb, ◌==◌, ==_iff, [],
  ◌∷◌, length, take, drop, count_if, Bool-cases, ◌⊎◌, inl, inr, Result, ok, refuse_if, >>=-eq-ok,
  refused_not, arith, length-drop, ◌≡◌, ◌≢◌, refl, sym, ap, subst, ◌∙◌,
}
use document_studio.Base.Text.{Text}
use document_studio.Contracts.Errors.{OperationError}
use document_studio.TextToPdf.Errors.{shaping_error}
use document_studio.TextToPdf.Characters.{
  AdmittedScript, is_shaping_base, is_joiner, joiner_cluster_member,
}
use document_studio.TextToPdf.Joiners.{
  char_at, has_shaping_base_before_virama, script_of_virama, cluster_start, cluster_end,
  check_cluster, validate_joiner,
}

pub char_at-drop : (n : ℕ) (chars : Text) (k : ℕ) → char_at (drop n chars) k ≡ char_at chars (n + k)
unfolding char_at
char_at-drop zero chars k = ap (char_at chars) (omega arith)
char_at-drop (suc n) [] k = refl
char_at-drop (suc n) (c ∷ chars) k =
    let next : suc (n + k) ≡ suc n + k = omega arith in
    char_at-drop n chars k ∙ ap (char_at (c ∷ chars)) next

member-drop :
    (chars : Text) (script : AdmittedScript) (n k : ℕ) (b : Bool)
    → n ≤ k
    → joiner_cluster_member (char_at (drop n chars) (k - n)) script ≡ b
    → joiner_cluster_member (char_at chars k) script ≡ b
member-drop chars script n k b below h =
    let same : n + (k - n) ≡ k = omega arith in
    subst (λ c. joiner_cluster_member c script ≡ b)
      (char_at-drop n chars (k - n) ∙ ap (char_at chars) same) h

module _ (chars : Text) (index : ℕ) (script : AdmittedScript) where
  abbrev IsMember : ℕ → Type 0
  IsMember k = joiner_cluster_member (char_at chars k) script ≡ true

  -- From `start` to the joiner there are members only, and the characters before are none, or do
  -- not go on with a member, or were too many to be looked at.
  abbrev pub IsStart : ℕ → ℕ → Type 0
  IsStart limit start =
      (start ≤ limit)
      × ((k : ℕ) → start ≤ k → k < limit → IsMember k)
      × ((start ≡ 0)
          ⊎ ((16 ≤ index - start)
              ⊎ (joiner_cluster_member (char_at chars (start - 1)) script ≡ false)))

  one_more :
      (limit : ℕ) → IsMember limit → (k : ℕ) → (k < limit → IsMember k) → k < suc limit → IsMember k
  one_more limit member k members b = elim (Bool-cases (k == limit)) [
    | inl e ↦ subst IsMember (sym ((==_iff k limit).0 e)) member
    | inr e ↦ members (ground arith)
  ]

  cluster_start-IsStart : (limit : ℕ) → IsStart limit (cluster_start chars index script limit)
  unfolding cluster_start
  cluster_start-IsStart zero = (omega arith, λ k a b. ground arith, inl refl)
  cluster_start-IsStart (suc limit) =
      elim (Bool-cases
        (ltb (index - suc limit) 16 && joiner_cluster_member (char_at chars limit) script)) [
          | inl e ↦
              let (below, members, ends) = cluster_start-IsStart limit in
              rw e (omega arith, λ k a b. one_more limit (ground arith) k (members k a) b, ends)
          | inr e ↦
              let here : suc limit - 1 ≡ limit = omega arith in
              rw e (omega arith, λ k a b. ground arith, inr (rw here (ground arith)))
        ]

  -- The same after the joiner, for the characters from `limit` on.
  abbrev IsEnd : Text → ℕ → ℕ → Type 0
  IsEnd rest limit end_ =
      (limit ≤ end_)
      × (end_ ≤ limit + length rest)
      × ((k : ℕ) → k < end_ - limit → joiner_cluster_member (char_at rest k) script ≡ true)
      × ((end_ ≡ limit + length rest)
          ⊎ ((16 < end_ - index)
              ⊎ (joiner_cluster_member (char_at rest (end_ - limit)) script ≡ false)))

  members_from :
      (c : ℕ) (rest : Text) (n : ℕ)
      → joiner_cluster_member c script ≡ true
      → ((k : ℕ) → k < n → joiner_cluster_member (char_at rest k) script ≡ true)
      → (k : ℕ) → k < suc n
      → joiner_cluster_member (char_at (c ∷ rest) k) script ≡ true
  unfolding char_at
  members_from c rest n first members zero b = first
  members_from c rest n first members (suc k) b = members k (omega arith)

  cluster_end-IsEnd :
      (rest : Text) (limit : ℕ) → IsEnd rest limit (cluster_end rest index script limit)
  unfolding cluster_end char_at
  cluster_end-IsEnd [] limit = (omega arith, omega arith, λ k b. ground arith, inl (omega arith))
  cluster_end-IsEnd (c ∷ rest) limit =
      elim (Bool-cases (leb (limit - index) 16 && joiner_cluster_member c script)) [
        | inl e ↦
            let (above, below, members, ends) = cluster_end-IsEnd rest (suc limit) in
            let shift : cluster_end rest index script (suc limit) - limit
                ≡ suc (cluster_end rest index script (suc limit) - suc limit) =
              omega arith in
            rw e (
              omega arith,
              omega arith,
              λ k b.
                  members_from c rest (cluster_end rest index script (suc limit) - suc limit)
                    (ground arith) members k (omega arith),
              elim ends [
                | inl full ↦ inl (omega arith)
                | inr (inl far) ↦ inr (inl far)
                | inr (inr stop) ↦ inr (
                    inr (
                      subst (λ n. joiner_cluster_member (char_at (c ∷ rest) n) script ≡ false)
                        (sym shift) stop))
              ],
            )
        | inr e ↦
            let here : limit - limit ≡ 0 = omega arith in
            rw e (omega arith, omega arith, λ k b. ground arith, rw here (ground arith))
      ]

-- The characters around a joiner, at `index`, in a text. Before it there is the virama of a script,
-- with a consonant of that script before the virama (or a nukta after one), and after it there is such a consonant. The
-- cluster of the joiner, from `start` up to `stop`, has members of clusters only; it is as long as
-- it can be, or begins or ends with the text; it has at most 15 characters before the joiner and at
-- most 16 from the joiner on; and it has no other joiner.
unfoldable pub IsInCluster : Text → ℕ → Type 0
IsInCluster chars index =
    (script : AdmittedScript) × (start : ℕ) × (stop : ℕ) × (script_of_virama
        (char_at chars (index - 1))
      ≡ ok script)
    × (has_shaping_base_before_virama chars index script ≡ true)
    × (is_shaping_base (char_at chars (index + 1)) script ≡ true)
    × (2 ≤ index)
    × (start ≤ index)
    × (index < stop)
    × (stop ≤ length chars)
    × (index - start ≤ 15)
    × (stop - index ≤ 16)
    × ((k : ℕ)
        → start ≤ k
        → k < stop
        → k ≢ index
        → joiner_cluster_member (char_at chars k) script ≡ true)
    × ((start ≡ 0) ⊎ (joiner_cluster_member (char_at chars (start - 1)) script ≡ false))
    × ((stop ≡ length chars) ⊎ (joiner_cluster_member (char_at chars stop) script ≡ false))
    × (count_if is_joiner (take (stop - start) (drop start chars)) ≡ 1)

tested_once :
    (n : ℕ)
    → ◌≡◌ {A = Result OperationError (Unit {0})} (refuse_if (not (n == 1)) shaping_error) (ok tt)
    → n ≡ 1
tested_once n h = ground arith

around_joiner :
    (chars : Text) (index : ℕ) (script : AdmittedScript) (start stop : ℕ)
    → ltb index 2 || leb (length chars) (index + 1) ≡ false
    → script_of_virama (char_at chars (index - 1)) ≡ ok script
    → not (has_shaping_base_before_virama chars index script)
        || not (is_shaping_base (char_at chars (index + 1)) script)
      ≡ false
    → check_cluster chars index start stop ≡ ok tt
    → IsStart chars index script index start
    → IsEnd chars index script (drop (index + 1) chars) (index + 1) stop
    → IsInCluster chars index
unfolding check_cluster IsInCluster
around_joiner chars index script start stop inside virama bases checked
      (start_below, before, starts) (stop_above, stop_below, after, stops) =
    let (short, counted) =
      refused_not (leb 16 (index - start) || ltb 16 (stop - index)) _ _ checked in
    let left = length-drop (index + 1) chars in
    (
      script,
      start,
      stop,
      virama,
      ground arith,
      ground arith,
      ground arith,
      start_below,
      omega arith,
      ground arith,
      ground arith,
      ground arith,
      λ k a b other. elim (Bool-cases (ltb k index)) [
        | inl e ↦ before k a (ground arith)
        | inr e ↦
            member-drop chars script (index + 1) k true (ground arith)
              (after (k - (index + 1)) (ground arith))
      ],
      elim starts [
        | inl none_left ↦ inl none_left
        | inr (inl far) ↦ inl (ground arith)
        | inr (inr other) ↦ inr other
      ],
      elim stops [
        | inl none_left ↦ inl (ground arith)
        | inr (inl far) ↦ inl (ground arith)
        | inr (inr other) ↦ inr (member-drop chars script (index + 1) stop false stop_above other)
      ],
      tested_once (count_if is_joiner (take (stop - start) (drop start chars))) counted,
    )

pub validate_joiner-IsInCluster :
    (chars : Text) (index : ℕ) (script : AdmittedScript)
    → validate_joiner chars index ≡ ok script
    → IsInCluster chars index
unfolding validate_joiner
validate_joiner-IsInCluster chars index script h =
    let (inside, h1) = refused_not (ltb index 2 || leb (length chars) (index + 1)) _ _ h in
    let (found, virama, h2) = >>=-eq-ok (script_of_virama (char_at chars (index - 1))) _ h1 in
    let (bases, h3) =
      refused_not
        (not (has_shaping_base_before_virama chars index found)
          || not (is_shaping_base (char_at chars (index + 1)) found))
        _ _ h2 in
    let (_, checked, _) =
      >>=-eq-ok
        (check_cluster chars index (cluster_start chars index found index)
          (cluster_end (drop (index + 1) chars) index found (index + 1)))
        _ h3 in
    around_joiner chars index found (cluster_start chars index found index)
      (cluster_end (drop (index + 1) chars) index found (index + 1)) inside virama bases checked
      (cluster_start-IsStart chars index found index)
      (cluster_end-IsEnd chars index found (drop (index + 1) chars) (index + 1))
