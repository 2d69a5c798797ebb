-- ===== src/Interview/Exchanges/Contiguity.antt =====
-- The exchanges of a submission are numbered 1 to n without a gap, whatever other sessions commit
-- between the statements of a creation.
use ai_interviewer.Prelude.{
  ℕ, ◌+◌, ◌≤◌, ◌≡◌, refl, sym, ap, ◌∙◌, inl, inr, false, ◌&&◌, ◌||◌, Option, List, [], ◌∷◌, ◌++◌,
  arith, leb, ◌==◌, if◌then◌else◌, Bool-cases, Option-cases, is_some, length, length-append,
}
use ai_interviewer.Prelude.Result.{ok, Result-cases}
use ai_interviewer.Session.Status.{in_progress, same}
use ai_interviewer.Session.Store.{Submission}
use ai_interviewer.Session.Repository.{Requery}
use ai_interviewer.Interview.Exchanges.Model.{ExchangeCreationData, Exchange}
use ai_interviewer.Interview.Exchanges.Validators.{
  has, validate_sequence_order, validate_response_completeness,
}
use ai_interviewer.Interview.Exchanges.Repository.{
  orders, count_by_submission, Records, Meanwhile, insert, submission_seen, create_active, create,
}

-- A submission's sequence orders are exactly the numbers from 1 to their count.
abbrev pub IsContiguous : List Exchange → Type 0
IsContiguous es = (sid k : ℕ) → has k (orders sid es) ≡ (leb 1 k && leb k (length (orders sid es)))

-- Other sessions keep the numbering, and delete nothing.
pub record IsOrderly (f : List Exchange → List Exchange) : Type 0 where
  pub keeps : (es : List Exchange) → IsContiguous es → IsContiguous (f es)
  pub grows : (es : List Exchange) (sid : ℕ) → length (orders sid es) ≤ length (orders sid (f es))

has-append : (k : ℕ) (xs ys : List ℕ) → has k (xs ++ ys) ≡ (has k xs || has k ys)
has-append k [] ys = refl
has-append k (x ∷ xs) ys = ground (arith, has-append k xs ys)

orders-append :
    (sid : ℕ) (es : List Exchange) (e : Exchange)
    → orders sid (es ++ e ∷ []) ≡ (
        if e.content.submission_id == sid
        then orders sid es ++ e.content.sequence_order ∷ []
        else orders sid es)
unfolding orders
orders-append sid [] e = ground arith
orders-append sid (x ∷ es) e = ground (arith, orders-append sid es e)

-- One more row, numbered one past the count, keeps the numbering.
append-IsContiguous :
    (es : List Exchange) (e : Exchange)
    → IsContiguous es
    → e.content.sequence_order ≡ length (orders e.content.submission_id es) + 1
    → IsContiguous (es ++ e ∷ [])
append-IsContiguous es e h next sid k = elim (Bool-cases (e.content.submission_id == sid)) [
  | inl own ↦
      let here : e.content.submission_id ≡ sid = ground arith in
      let at : e.content.sequence_order ≡ length (orders sid es) + 1 =
        next ∙ ap (λ (i : ℕ). length (orders i es) + 1) here in
      rw (orders-append sid es e) (
        rw own (
          rw (has-append k (orders sid es) (e.content.sequence_order ∷ [])) (
            ground
              (arith, h sid k, length-append {0} (orders sid es) (e.content.sequence_order ∷ [])))))
  | inr other ↦ rw (orders-append sid es e) (rw other (h sid k))
]

fresh_is_next :
    (es : List Exchange) (sid count : ℕ)
    → IsContiguous es
    → count ≤ length (orders sid es)
    → has (count + 1) (orders sid es) ≡ false
    → count + 1 ≡ length (orders sid es) + 1
fresh_is_next es sid count h le fresh = ground (arith, h sid (count + 1))

-- An INSERT of the row after `count`, a number that the table has reached by now, keeps the
-- numbering: if the table has gone on, the unique constraint refuses it.
insert-IsContiguous :
    (d : ExchangeCreationData) (r : Records) (count : ℕ)
    → IsContiguous r.exchanges
    → count ≤ length (orders d.submission_id r.exchanges)
    → d.sequence_order ≡ count + 1
    → IsContiguous (insert d r).1.exchanges
unfolding insert
insert-IsContiguous d r count h le next =
    elim (Bool-cases (has d.sequence_order (orders d.submission_id r.exchanges))) [
      | inl taken ↦ rw taken h
      | inr fresh ↦
          rw fresh (elim (Bool-cases (is_some d.question_id || is_some d.coding_problem_id)) [
            | inr nothing ↦ rw nothing h
            | inl named ↦ rw named (
                append-IsContiguous r.exchanges (record { id = r.next_id; content = d }) h
                  (next
                    ∙ fresh_is_next r.exchanges d.submission_id count h le (
                        ap (λ (k : ℕ). has k (orders d.submission_id r.exchanges)) (sym next)
                        ∙ fresh)))
          ])
    ]

sequence_valid :
    (sid seq count : ℕ) (os : List ℕ)
    → validate_sequence_order sid seq count os ≡ ok tt
    → seq ≡ count + 1
unfolding validate_sequence_order
sequence_valid sid seq count os h = ground arith

module _ (requery : Requery) (m : Meanwhile) (counted : IsOrderly m.before_count)
    (listed : IsOrderly m.before_orders) (inserted : IsOrderly m.before_insert) where
  create_active-IsContiguous :
      (d : ExchangeCreationData) (r : Records)
      → IsContiguous r.exchanges
      → IsContiguous (create_active requery m d r).1.exchanges
  unfolding create_active
  create_active-IsContiguous d r h =
      let sid = d.submission_id in
      let es1 = m.before_count r.exchanges in
      let es2 = m.before_orders es1 in
      let h2 = listed.keeps es1 (counted.keeps r.exchanges h) in
      elim (Result-cases (
        validate_sequence_order sid d.sequence_order (count_by_submission sid es1)
          (orders sid es2))) [
            | inr (e, bad) ↦ rw (bad, create_active) h2
            | inl (u, good) ↦
                rw (good, create_active)
                  (elim (Result-cases (validate_response_completeness d)) [
                    | inr (e, bad) ↦ rw (bad, create_active) h2
                    | inl (u', full) ↦
                        rw (full, create_active)
                          (insert-IsContiguous d (record r { exchanges = m.before_insert es2 })
                            (length (orders sid es1)) (inserted.keeps es2 h2)
                            (unfold count_by_submission in
                              omega (arith, listed.grows es1 sid, inserted.grows es2 sid))
                            (unfold count_by_submission in
                              sequence_valid sid d.sequence_order _ (orders sid es2) good))
                  ])
          ]

  -- A creation keeps every submission's numbering, on every branch, if what other sessions commit
  -- between its statements keeps it and deletes nothing.
  pub create-IsContiguous :
      (loaded : Option Submission) (d : ExchangeCreationData) (r : Records)
      → IsContiguous r.exchanges
      → IsContiguous (create requery m loaded d r).1.exchanges
  unfolding create
  create-IsContiguous loaded d r h =
      elim (Option-cases (submission_seen requery loaded (r.rows d.submission_id))) [
        | inl gone ↦ rw (gone, create) h
        | inr (sub, seen) ↦
            rw (seen, create)
              (elim (Bool-cases (same sub.status in_progress)) [
                | inl active ↦ rw active (create_active-IsContiguous d r h)
                | inr over ↦ rw over h
              ])
      ]
