-- ===== src/Session/Graph.antt =====
-- The transition table as a diagram, and what every run through it has in common.
use ai_interviewer.Prelude.{
  ℕ, ◌+◌, ◌-◌, ◌≤◌, ◌<◌, String, ◌≡◌, refl, sym, ap, ◌∙◌, ◌≢◌, ◌⊎◌, inl, inr, some, List, [], ◌∷◌,
  arith, eq_iff, Option-cases, length,
}
use ai_interviewer.Prelude.Result.{ok, err}
use ai_interviewer.Session.Status.{
  SubmissionStatus, pending, in_progress, completed, expired, cancelled, reviewed, value, of_value,
  validate_transition,
}

infix 40 ◌⟶◌
pub data ◌⟶◌ : SubmissionStatus → SubmissionStatus → Type 0 where
  start : pending ⟶ in_progress
  withdraw : pending ⟶ cancelled
  finish : in_progress ⟶ completed
  time_out : in_progress ⟶ expired
  cancel : in_progress ⟶ cancelled
  review_completed : completed ⟶ reviewed
  review_expired : expired ⟶ reviewed
  review_cancelled : cancelled ⟶ reviewed

pub ruleset edges =
    (start, withdraw, finish, time_out, cancel, review_completed, review_expired, review_cancelled)

pub of_value-value : (s : SubmissionStatus) → of_value (value s) ≡ some s
unfolding of_value value
of_value-value pending = refl
of_value-value _ = refl

pub value-of_value : (t : String) (s : SubmissionStatus) → of_value t ≡ some s → value s ≡ t
unfolding of_value value
value-of_value t s h = ground (
  arith,
  eq_iff t "pending",
  eq_iff t "in_progress",
  eq_iff t "completed",
  eq_iff t "expired",
  eq_iff t "cancelled",
  eq_iff t "reviewed",
)

pub step_of_valid :
    (s t : SubmissionStatus) → validate_transition (value s) (value t) ≡ ok tt → s ⟶ t
unfolding validate_transition
step_of_valid s t h = grind (arith, edges, of_value-value)

pub valid_of_step :
    {s t : SubmissionStatus} → s ⟶ t → validate_transition (value s) (value t) ≡ ok tt
unfolding validate_transition value of_value
valid_of_step start = refl
valid_of_step _ = refl

-- The two texts name statuses that an edge of the diagram joins.
abbrev pub Legal : String → String → Type 0
Legal c t =
    (s : SubmissionStatus) × (u : SubmissionStatus) × (value s ≡ c) × (value u ≡ t) × (s ⟶ u)

Legal-of_valid : (c t : String) → validate_transition c t ≡ ok tt → Legal c t
Legal-of_valid c t h = elim (Option-cases (of_value c)) [
  | inl bad ↦ absurd (unfold validate_transition in ground arith)
  | inr (s, es) ↦ elim (Option-cases (of_value t)) [
    | inl bad ↦ absurd (unfold validate_transition in ground arith)
    | inr (u, eu) ↦
        let ps = value-of_value c s es in
        let pu = value-of_value t u eu in (s, u, ps, pu, step_of_valid s u (rw (ps, pu) h))
  ]
]

valid_of_Legal : (c t : String) → Legal c t → validate_transition c t ≡ ok tt
valid_of_Legal c t (s, u, ps, pu, e) = rw (← ps, ← pu) (valid_of_step e)

pub valid_or_raises :
    (c t : String)
    → (validate_transition c t ≡ ok tt)
      ⊎ (validate_transition c t ≡ err (record { current = c; target = t }))
unfolding validate_transition
valid_or_raises c t = ground arith

-- A text pair passes exactly when it names an edge of the diagram; every other pair, also one that
-- names no status, raises the error that carries both texts.
pub validate_transition_decides :
    (c t : String)
    → (Legal c t × (validate_transition c t ≡ ok tt))
      ⊎ (¬ Legal c t × (validate_transition c t ≡ err (record { current = c; target = t })))
validate_transition_decides c t = elim (valid_or_raises c t) [
  | inl passes ↦ inl (Legal-of_valid c t passes, passes)
  | inr raises ↦ inr (λ l. cc (valid_of_Legal c t l, raises), raises)
]

-- How far a status is on the way to `reviewed`.
abbrev pub rank : SubmissionStatus → ℕ
rank pending = 0
rank in_progress = 1
rank completed = 2
rank expired = 2
rank cancelled = 2
rank reviewed = 3

rank-step : {s t : SubmissionStatus} → s ⟶ t → rank s < rank t
rank-step start = omega arith
rank-step _ = omega arith

rank_le : (s : SubmissionStatus) → rank s ≤ 3
rank_le pending = omega arith
rank_le _ = omega arith

-- One change of the status after the other, each of them let through by `validate_transition`.
abbrev pub Validated : String → List String → Type 0
Validated c [] = Unit
Validated c (t ∷ ts) = (validate_transition c t ≡ ok tt) × Validated t ts

-- The text that the changes end in.
abbrev pub ends : String → List String → String
ends c [] = c
ends c (t ∷ ts) = ends t ts

rank-value : (s u : SubmissionStatus) → value s ≡ value u → rank s ≡ rank u
rank-value s u e =
    let same : some s ≡ some u = sym (of_value-value s) ∙ ap of_value e ∙ of_value-value u in cc

length-Validated :
    (c : String) (ts : List String)
    → Validated c ts
    → (s : SubmissionStatus) → value s ≡ c
    → rank s + length ts ≤ 3
length-Validated c [] h s e = omega (arith, rank_le s)
length-Validated c (t ∷ ts) (v, h) s e =
    let (from, to, ps, pt, edge) = Legal-of_valid c t v in
    omega (arith, rank-value s from (e ∙ sym ps), rank-step edge, length-Validated t ts h to pt)

to_reviewed :
    (s : SubmissionStatus)
    → (ts : List String) × Validated (value s) ts × (ends (value s) ts ≡ value reviewed)
unfolding validate_transition value of_value
to_reviewed pending = ("cancelled" ∷ "reviewed" ∷ [], (refl, (refl, tt)), refl)
to_reviewed in_progress = ("completed" ∷ "reviewed" ∷ [], (refl, (refl, tt)), refl)
to_reviewed reviewed = ([], tt, refl)
to_reviewed _ = ("reviewed" ∷ [], (refl, tt), refl)

-- Changes of the status that `validate_transition` lets through one after the other are at most
-- three, less those that the first status is on the way already; from every status some lead to
-- `reviewed`; and it lets none through from there.
pub transitions_terminate :
    (s : SubmissionStatus) (ts : List String) (t : String)
    → Validated (value s) ts
    → (length ts ≤ 3 - rank s)
      × ((us : List String) × Validated (value s) us × (ends (value s) us ≡ value reviewed))
      × (validate_transition (value reviewed) t ≢ ok tt)
transitions_terminate s ts t h = (
  omega (arith, length-Validated (value s) ts h s refl),
  to_reviewed s,
  λ e. omega (arith, length-Validated (value reviewed) (t ∷ []) (e, tt) reviewed refl),
)
