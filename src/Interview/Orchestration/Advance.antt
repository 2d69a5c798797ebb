-- ===== src/Interview/Orchestration/Advance.antt =====
-- The optimistic loop of the progress tracker: it reports success only when the sequence is
-- reached, three attempts are enough if one is left in peace, and it never lowers a sequence.
use ai_interviewer.Prelude.{
  ℕ, zero, suc, ◌≤◌, ◌<◌, ◌≡◌, refl, sym, ap, ◌∙◌, inl, inr, none, some, arith, leb, ◌==◌, leb→le,
  Bool-cases, Option-cases,
}
use ai_interviewer.Prelude.Result.{Result, ok, err}
use ai_interviewer.Session.Store.{Submission, Table, update_where, put}
use ai_interviewer.Interview.Orchestration.Attempts.{
  ProgressError, conflict, Attempt, done, again, advance_row, can_advance, advance_attempt,
  attempts, update_db_progress,
}

-- The submission's row has the sequence, or one past it.
abbrev pub Reached : ℕ → ℕ → Table → Type 0
Reached sid seq t = (row : Submission) × (t sid ≡ some row) × (seq ≤ row.current_exchange_sequence)

-- The submission's row is there and has a version.
abbrev pub Live : ℕ → Table → Type 0
Live sid t = (row : Submission) × (v : ℕ) × (t sid ≡ some row) × (row.version ≡ some v)

-- An attempt that ends well has reached the sequence; one to be repeated leaves what the others
-- made of the rows.
abbrev AdvanceEnds : (Table → Table) → ℕ → ℕ → Table → Attempt Table Unit → Type 0
AdvanceEnds others sid seq rows (done (ok _) rows') = Reached sid seq rows'
AdvanceEnds others sid seq rows (done (err e) rows') = (rows sid ≡ none) × (rows' ≡ rows)
AdvanceEnds others sid seq rows (again rows') = rows' ≡ others rows

advance_attempt-Ends :
    (others : Table → Table) (now sid seq : ℕ) (rows : Table)
    → AdvanceEnds others sid seq rows (advance_attempt others now sid seq rows)
unfolding advance_attempt update_where
advance_attempt-Ends others now sid seq rows = elim (Option-cases (rows sid)) [
  | inl gone ↦ rw (gone, advance_attempt) (gone, refl)
  | inr (row, found) ↦
      rw (found, advance_attempt)
        (elim (Bool-cases (leb seq row.current_exchange_sequence)) [
          | inl there ↦ rw there (row, found, leb→le seq row.current_exchange_sequence there)
          | inr short ↦ rw short (elim (Option-cases (others rows sid)) [
            | inl vanished ↦ rw (vanished, update_where) refl
            | inr (row', met) ↦
                rw (met, update_where)
                  (elim (Bool-cases (can_advance seq row.version row')) [
                    | inl hit ↦ rw hit (advance_row now seq row', ground arith, omega arith)
                    | inr miss ↦ rw miss refl
                  ])
          ])
        ])
]

-- What follows an attempt: the loop's outcome, or the invariant for the attempts that are left.
abbrev pub Next :
    {S A : Type 0}
    → (ℕ → S → Type 0)
    → (Result ProgressError A × S → Type 0)
    → ℕ
    → Attempt S A
    → Type 0
Next P Q n (done r s) = Q (r, s)
Next P Q n (again s) = P n s

-- The rule for a loop of attempts: `P n` holds before the n attempts that are left, `Q` of the
-- outcome.
module _ {S A : Type 0} (try : ℕ → S → Attempt S A) (sid : ℕ) (P : ℕ → S → Type 0)
    (Q : Result ProgressError A × S → Type 0)
    (attempt : (n : ℕ) (s : S) → P (suc n) s → Next P Q n (try n s))
    (exhausted : (s : S) → P zero s → Q (err (conflict sid), s)) where
  pub attempts_rule : (n : ℕ) (s : S) → P n s → Q (attempts try sid n s)
  unfolding attempts
  attempts_rule zero s p = exhausted s p
  attempts_rule (suc n) s p = go (try n s) (attempt n s p) (λ s'. attempts_rule n s')
    where
      go :
          (a : Attempt S A)
          → Next P Q n a
          → ((s' : S) → P n s' → Q (attempts try sid n s'))
          → Q (elim a [ done r s' ↦ (r, s') | again s' ↦ attempts try sid n s' ])
      go (done r s') q rest = q
      go (again s') q rest = rest s' q

abbrev OkReached : ℕ → ℕ → Result ProgressError Unit × Table → Type 0
OkReached sid seq (r, t) = r ≡ ok tt → Reached sid seq t

ends_reached :
    (others : Table → Table) (sid seq n : ℕ) (rows : Table) (a : Attempt Table Unit)
    → AdvanceEnds others sid seq rows a
    → Next (λ k t. Unit) (OkReached sid seq) n a
ends_reached others sid seq n rows (done (ok u) t) e = λ h. e
ends_reached others sid seq n rows (done (err x) t) e = λ h. cc
ends_reached others sid seq n rows (again t) e = tt

-- A progress update that returns has brought the submission to the sequence or found it past it.
pub update_db_progress-Reached :
    (others : ℕ → Table → Table) (now sid seq : ℕ) (rows : Table)
    → (update_db_progress others now sid seq rows).0 ≡ ok tt
    → Reached sid seq (update_db_progress others now sid seq rows).1
unfolding update_db_progress
update_db_progress-Reached others now sid seq rows =
    attempts_rule (λ k. advance_attempt (others k) now sid seq) sid (λ k t. Unit)
      (OkReached sid seq)
      (λ n s p.
        ends_reached (others n) sid seq n s (advance_attempt (others n) now sid seq s)
          (advance_attempt-Ends (others n) now sid seq s))
      (λ s p h. cc) 3 rows tt

-- An attempt on a row that nobody touches meanwhile succeeds.
undisturbed :
    (others : Table → Table) (now sid seq : ℕ) (rows : Table)
    → Live sid rows
    → others rows ≡ rows
    → (rows' : Table) × (advance_attempt others now sid seq rows ≡ done (ok tt) rows')
unfolding advance_attempt update_where
undisturbed others now sid seq rows (row, v, found, at) same_rows =
    elim (Bool-cases (leb seq row.current_exchange_sequence)) [
      | inl there ↦ (rows, ground arith)
      | inr short ↦
          let met : others rows sid ≡ some row = ap (λ (t : Table). t sid) same_rows ∙ found in
          (put (others rows) sid (advance_row now seq row), ground arith)
    ]

module _ (others : ℕ → Table → Table) (now sid seq k : ℕ)
    (alive : (n : ℕ) (t : Table) → Live sid t → Live sid (others n t))
    (peace : (t : Table) → others k t ≡ t) where
  abbrev Pending : ℕ → Table → Type 0
  Pending n t = Live sid t × (k < n)

  abbrev Succeeds : Result ProgressError Unit × Table → Type 0
  Succeeds (r, t) = r ≡ ok tt

  ends-Pending :
      (n : ℕ) (rows : Table) (a : Attempt Table Unit)
      → Live sid rows
      → (k ≡ n → (rows' : Table) × (a ≡ done (ok tt) rows'))
      → k < suc n
      → AdvanceEnds (others n) sid seq rows a
      → Next Pending Succeeds n a
  ends-Pending n rows (done (ok u) t) l quiet lt e = refl
  ends-Pending n rows (done (err x) t) l quiet lt e = cc (l.2, e.0)
  ends-Pending n rows (again t) l quiet lt e = elim (Bool-cases (k == n)) [
    | inl now_quiet ↦ cc (quiet (ground arith)).1
    | inr later ↦ (rw e (alive n rows l), ground arith)
  ]

  -- Three attempts suffice: if the row stays there with a version, and in one of the attempts no
  -- other worker writes, the update returns.
  pub update_db_progress_returns :
      (rows : Table)
      → Live sid rows
      → k < 3
      → (update_db_progress others now sid seq rows).0 ≡ ok tt
  unfolding update_db_progress
  update_db_progress_returns rows l lt =
      attempts_rule (λ n. advance_attempt (others n) now sid seq) sid Pending Succeeds
        (λ n s (p : Pending (suc n) s).
          ends-Pending n s (advance_attempt (others n) now sid seq s) p.0
            (λ e.
              undisturbed (others n) now sid seq s p.0
                (ap (λ (m : ℕ). others m s) (sym e) ∙ peace s))
            p.1 (advance_attempt-Ends (others n) now sid seq s))
        (λ s p. absurd (omega arith)) 3 rows (l, lt)
