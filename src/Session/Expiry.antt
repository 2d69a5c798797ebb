-- ===== src/Session/Expiry.antt =====
-- app/interview/session/expiry/service.py: the sweep that expires overdue submissions. `order`
-- lists the ids of the table by `scheduled_end`, which is the database's ORDER BY.
use ai_interviewer.Prelude.{
  ℕ, ◌+◌, ◌≤◌, ◌<◌, String, ◌≡◌, refl, sym, ap, ◌∙◌, ◌≢◌, ◌⊎◌, inl, inr, Bool, true, false, ◌&&◌,
  Option, none, some, List, [], ◌∷◌, arith, ltb, ◌==◌, if◌then◌else◌, Bool-cases, Option-cases,
  length, any, keep, take, length-take-le, take_short, any-take,
}
use mathlib.Core.Option
use ai_interviewer.Session.Status.{SubmissionStatus, in_progress, expired, same}
use ai_interviewer.Session.Store.{Submission, Table, next_version}
use ai_interviewer.Session.Repository.{Connection}

-- `status = 'in_progress' AND scheduled_end IS NOT NULL AND scheduled_end < now()`
abbrev pub is_overdue : ℕ → Submission → Bool
is_overdue now row =
    same row.status in_progress && elim row.scheduled_end [ none ↦ false | some t ↦ ltb t now ]

abbrev overdue_at : ℕ → Option Submission → Bool
overdue_at now none = false
overdue_at now (some row) = is_overdue now row

-- `COALESCE(submitted_at, now())`
abbrev pub coalesce : Option ℕ → ℕ → Option ℕ
coalesce none now = some now
coalesce (some t) now = some t

abbrev pub expire_row : ℕ → Submission → Submission
expire_row now row = record row {
  status = expired;
  submitted_at = coalesce row.submitted_at now;
  updated_at = now;
  version = next_version row.version;
}

-- The CTE `overdue`.
unfoldable pub overdue_ids : ℕ → ℕ → Table → List ℕ → List ℕ
overdue_ids now limit rows order = take limit (keep (λ i. overdue_at now (rows i)) order)

expire_in : ℕ → Bool → Option Submission → Option Submission
expire_in now true (some row) = some (expire_row now row)
expire_in now _ r = r

-- `UPDATE … FROM overdue WHERE s.id = overdue.id`: each listed row, once.
expire_all_of : ℕ → List ℕ → Table → Table
unfolding expire_in
expire_all_of now ids rows j = expire_in now (any (λ i. i == j) ids) (rows j)

-- The answer is the number of rows that RETURNING lists.
unfoldable pub expire_overdue_submissions : ℕ → List ℕ → ℕ → String → Connection → ℕ × Connection
unfolding expire_all_of overdue_ids
expire_overdue_submissions now order limit actor c =
    if limit == 0
    then (0, c)
    else let ids = overdue_ids now limit c.rows order in
      (length ids, record { rows = expire_all_of now ids c.rows; actor = some actor })

any-keep : (p : ℕ → Bool) (j : ℕ) (xs : List ℕ) → any (λ i. i == j) (keep p xs) ≡ true → p j ≡ true
any-keep p j [] h = cc
any-keep p j (x ∷ xs) h = ground (arith, any-keep p j xs)

keep-any :
    (p : ℕ → Bool) (j : ℕ) (xs : List ℕ)
    → any (λ i. i == j) xs ≡ true
    → p j ≡ true
    → any (λ i. i == j) (keep p xs) ≡ true
keep-any p j [] h q = cc
keep-any p j (x ∷ xs) h q = ground (arith, keep-any p j xs)

listed_is_overdue :
    (now limit : ℕ) (rows : Table) (order : List ℕ) (j : ℕ) (row : Submission)
    → rows j ≡ some row
    → any (λ i. i == j) (overdue_ids now limit rows order) ≡ true
    → is_overdue now row ≡ true
unfolding overdue_ids
listed_is_overdue now limit rows order j row h m =
    let late : overdue_at now (rows j) ≡ true =
      any-keep (λ i. overdue_at now (rows i)) j order
        (any-take (λ i. i == j) limit (keep (λ i. overdue_at now (rows i)) order) m) in
    sym (ap (overdue_at now) h) ∙ late

overdue_is_listed :
    (now limit : ℕ) (rows : Table) (order : List ℕ) (j : ℕ) (row : Submission)
    → rows j ≡ some row
    → length (overdue_ids now limit rows order) < limit
    → any (λ i. i == j) order ≡ true
    → is_overdue now row ≡ true
    → any (λ i. i == j) (overdue_ids now limit rows order) ≡ true
unfolding overdue_ids
overdue_is_listed now limit rows order j row h room listed late =
    rw (take_short limit (keep (λ i. overdue_at now (rows i)) order) room)
      (keep-any (λ i. overdue_at now (rows i)) j order listed (ap (overdue_at now) h ∙ late))

-- Every row is left as it was, or was overdue and is written.
left_or_written :
    (now : ℕ) (order : List ℕ) (limit : ℕ) (actor : String) (c : Connection) (j : ℕ)
    (row : Submission)
    → c.rows j ≡ some row
    → let (n, c') = expire_overdue_submissions now order limit actor c in
      (n ≤ limit)
      × ((c'.rows j ≡ some row)
          ⊎ ((is_overdue now row ≡ true) × (c'.rows j ≡ some (expire_row now row))))
unfolding expire_overdue_submissions
left_or_written now order limit actor c j row h =
    elim (Bool-cases (any (λ i. i == j) (overdue_ids now limit c.rows order))) [
      | inl m ↦ ground (
        arith,
        m,
        listed_is_overdue now limit c.rows order j row h m,
        length-take-le limit (keep (λ i. overdue_at now (c.rows i)) order),
      )
      | inr m ↦
          ground (arith, m, length-take-le limit (keep (λ i. overdue_at now (c.rows i)) order))
    ]

left_gone :
    (now : ℕ) (order : List ℕ) (limit : ℕ) (actor : String) (c : Connection) (j : ℕ)
    (row : Submission)
    → c.rows j ≡ none
    → (expire_overdue_submissions now order limit actor c).1.rows j ≢ some row
unfolding expire_overdue_submissions
left_gone now order limit actor c j row gone h = ground arith

-- A listed row is expired by the sweep, so it is overdue no longer.
swept :
    (now : ℕ) (order : List ℕ) (limit : ℕ) (actor : String) (c : Connection) (j : ℕ)
    (row old : Submission)
    → 0 < limit
    → c.rows j ≡ some old
    → any (λ i. i == j) (overdue_ids now limit c.rows order) ≡ true
    → (expire_overdue_submissions now order limit actor c).1.rows j ≡ some row
    → is_overdue now row ≡ false
unfolding expire_overdue_submissions
swept now order limit actor c j row old pos had m h = ground arith

-- With room for all that are overdue, a sweep leaves no listed row overdue.
pub expire_overdue_complete :
    (now : ℕ) (order : List ℕ) (limit : ℕ) (actor : String) (c : Connection) (j : ℕ)
    (row : Submission)
    → 0 < limit
    → length (overdue_ids now limit c.rows order) < limit
    → any (λ i. i == j) order ≡ true
    → (expire_overdue_submissions now order limit actor c).1.rows j ≡ some row
    → is_overdue now row ≡ false
expire_overdue_complete now order limit actor c j row pos room listed h =
    elim (Option-cases (c.rows j)) [
      | inl gone ↦ absurd (left_gone now order limit actor c j row gone h)
      | inr (old, had) ↦ elim (Bool-cases (is_overdue now old)) [
        | inl late ↦
            swept now order limit actor c j row old pos had
              (overdue_is_listed now limit c.rows order j old had room listed late) h
        | inr early ↦ elim (left_or_written now order limit actor c j old had).1 [
          | inl kept ↦ ap (overdue_at now) (sym h ∙ kept) ∙ early
          | inr (late, moved) ↦ cc
        ]
      ]
    ]

-- A submission time that stays, or is set where there was none.
abbrev pub Submitted : ℕ → Submission → Submission → Type 0
Submitted now row row' =
    ((row.submitted_at ≡ none) × (row'.submitted_at ≡ some now))
    ⊎ ((t : ℕ) × (row.submitted_at ≡ some t) × (row'.submitted_at ≡ some t))

-- What neither a sweep nor a report of progress writes.
abbrev pub SameInterview : Submission → Submission → Type 0
SameInterview row row' =
    (row'.candidate_id ≡ row.candidate_id)
    × (row'.consent_captured ≡ row.consent_captured)
    × (row'.scheduled_end ≡ row.scheduled_end)
    × (row'.started_at ≡ row.started_at)
    × (row'.template_structure_snapshot ≡ row.template_structure_snapshot)

-- A row in progress whose end had passed, before and after its expiry.
abbrev pub Expired : ℕ → Submission → Submission → Type 0
Expired now row row' =
    (row.status ≡ in_progress)
    × ((t : ℕ) × (row.scheduled_end ≡ some t) × (t < now))
    × (row'.status ≡ expired)
    × (row'.version ≡ Option.map (λ v. v + 1) row.version)
    × Submitted now row row'
    × (row'.current_exchange_sequence ≡ row.current_exchange_sequence)
    × SameInterview row row'

pub coalesce-Submitted :
    (now : ℕ) (row row' : Submission)
    → row'.submitted_at ≡ coalesce row.submitted_at now
    → Submitted now row row'
coalesce-Submitted now row row' e = elim (Option-cases row.submitted_at) [
  | inl unset ↦ inl (unset, e ∙ ap (λ o. coalesce o now) unset)
  | inr (t, set) ↦ inr (t, set, e ∙ ap (λ o. coalesce o now) set)
]

in_progress_of : (s : SubmissionStatus) → same s in_progress ≡ true → s ≡ in_progress
in_progress_of s e = ground arith

map-next : (o : Option ℕ) → next_version o ≡ Option.map (λ v. v + 1) o
map-next none = refl
map-next (some v) = refl

overdue-Expired :
    (now : ℕ) (row : Submission) → is_overdue now row ≡ true → Expired now row (expire_row now row)
overdue-Expired now row late = elim (Option-cases row.scheduled_end) [
  | inl open_end ↦ absurd (ground (arith, late, open_end))
  | inr (t, end) ↦
      let past : ltb t now ≡ true = ground (arith, late, end) in
      let active : same row.status in_progress ≡ true = ground (arith, late) in
      (
        in_progress_of row.status active,
        (t, end, ground (arith, past)),
        refl,
        map-next row.version,
        coalesce-Submitted now row (expire_row now row) refl,
        refl,
        (refl, refl, refl, refl, refl),
      )
]

-- A sweep reports at most `limit` rows; every row is either left as it was, or was in progress with
-- an end before `now`, and is now expired, one version on, with its submission time kept, or set to
-- `now` if it had none, and its progress and the other fields of the interview kept.
pub expire_overdue_sound :
    (now : ℕ) (order : List ℕ) (limit : ℕ) (actor : String) (c : Connection) (j : ℕ)
    (row : Submission)
    → c.rows j ≡ some row
    → let (n, c') = expire_overdue_submissions now order limit actor c in
      (n ≤ limit)
      × ((c'.rows j ≡ some row)
          ⊎ ((row' : Submission) × (c'.rows j ≡ some row') × Expired now row row'))
expire_overdue_sound now order limit actor c j row had =
    let (few, moved) = left_or_written now order limit actor c j row had in
    (
      few,
      elim moved [
        | inl kept ↦ inl kept
        | inr (late, written) ↦ inr (expire_row now row, written, overdue-Expired now row late)
      ],
    )
