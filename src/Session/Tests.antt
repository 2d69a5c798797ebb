-- ===== src/Session/Tests.antt =====
-- A submission with a candidate who starts, completes and is raced, run through the definitions.
use ai_interviewer.Prelude.{
  List, String, ◌≤◌, ◌<◌, ◌≡◌, refl, ◌≢◌, ◌⊎◌, true, false, none, some, [], ◌∷◌, arith, ◌==◌,
  if◌then◌else◌, length,
}
use ai_interviewer.Prelude.Result.{ok, err}
use ai_interviewer.Session.Status.{
  pending, in_progress, reviewed, value, of_value, validate_transition,
}
use ai_interviewer.Session.Graph.{
  Legal, validate_transition_decides, transitions_terminate, Validated, ends,
}
use ai_interviewer.Session.Store.{Submission, Table, update_where, reload_scoped}
use ai_interviewer.Session.Repository.{
  Connection, Others, bad_transition, changed_concurrently, compare_and_set, do_transition,
  transition_to_in_progress,
}
use ai_interviewer.Session.Service.{start, complete, cancel, World, perform, transition, sync_redis}
use ai_interviewer.Session.Guarantees.{Guarantee, perform-Guarantee, one_winner, perform-perform}
use ai_interviewer.Session.StaleReload.{
  caching, refreshing, never_changed_concurrently, lost_completion,
}
use ai_interviewer.Session.Expiry.{
  is_overdue, expire_row, overdue_ids, expire_overdue_submissions, expire_overdue_sound,
  expire_overdue_complete, Expired,
}

abbrev ready : Submission
ready = record {
  candidate_id = 7;
  status = pending;
  consent_captured = true;
  scheduled_end = some 5000;
  started_at = none;
  submitted_at = none;
  version = some 1;
  updated_at = 0;
  current_exchange_sequence = 0;
  template_structure_snapshot = none;
}

abbrev table_of : Submission → Table
table_of row j = if j == 5 then some row else none

abbrev connected : Submission → Connection
connected row = record { rows = table_of row; actor = none }

abbrev world_of : Submission → World
world_of row = record { db = connected row; cache = λ j. none }

abbrev quiet : Others
quiet = record { before_update = λ t. t; before_reload = λ t. t }

validate_transition_example :
    (Legal "pending" "expired" × (validate_transition "pending" "expired" ≡ ok tt))
    ⊎ (¬ Legal "pending" "expired"
        × (validate_transition "pending" "expired"
            ≡ err (record { current = "pending"; target = "expired" })))
validate_transition_example = validate_transition_decides "pending" "expired"

two_changes : Validated (value pending) ("in_progress" ∷ "completed" ∷ [])
unfolding validate_transition value of_value
two_changes = (refl, (refl, tt))

transitions_terminate_example :
    (2 ≤ 3)
    × ((us : List String) × Validated (value pending) us
        × (ends (value pending) us ≡ value reviewed))
    × (validate_transition (value reviewed) "pending" ≢ ok tt)
transitions_terminate_example =
    transitions_terminate pending ("in_progress" ∷ "completed" ∷ []) "pending" two_changes

perform-Guarantee_example :
    Guarantee quiet
      (start 7)
      5
      (table_of ready)
      (perform caching quiet 2000 true (start 7) 5 "7" (world_of ready))
perform-Guarantee_example =
    perform-Guarantee caching quiet 2000 true (start 7) 5 "7" (world_of ready)

abbrev started : Submission
started = record ready {
  status = in_progress;
  started_at = some 2000;
  version = some 2;
  updated_at = 2000;
}

abbrev after_start : World
after_start = (perform caching quiet 2000 true (start 7) 5 "7" (world_of ready)).1

start_won :
    perform caching quiet 2000 true (start 7) 5 "7" (world_of ready)
    ≡ (ok (started, true), after_start)
unfolding perform do_transition compare_and_set update_where reload_scoped validate_transition value
    of_value transition_to_in_progress
start_won = refl

-- The cancellation read the row before the start, and writes after it.
abbrev late : Others
late = record { before_update = λ t. after_start.db.rows; before_reload = λ t. t }

one_winner_example :
    perform caching late 2001 true cancel 5 "admin" (world_of ready)
    ≢ (ok (ready, true), world_of ready)
one_winner_example =
    one_winner caching true (start 7) 5 "7" (world_of ready) quiet 2000 start_won cancel "admin"
      late 2001 refl

perform-perform_example : perform caching quiet 2001 true (start 7) 5 "7" after_start ≡ (
  ok (started, false),
  record after_start { cache = sync_redis true 5 started after_start.cache },
)
perform-perform_example =
    perform-perform caching true (start 7) 5 "7" (world_of ready) quiet 2000 start_won quiet 2001

never_changed_concurrently_example :
    (transition caching late 2001 (complete none) 5 "7" (connected started)).0
    ≢ err (changed_concurrently 2 (some 3))
never_changed_concurrently_example =
    never_changed_concurrently late 2001 (complete none) 5 "7" (connected started) 2 (some 3)

-- While the completion runs, a second worker writes the row of the running interview.
abbrev bumped : Submission
bumped = record started { version = some 3; current_exchange_sequence = 1 }

abbrev advanced_meanwhile : Others
advanced_meanwhile = record { before_update = λ t. table_of bumped; before_reload = λ t. t }

lost_completion_example :
    ((transition caching advanced_meanwhile 2001 (complete none) 5 "7" (connected started)).0
      ≡ err (bad_transition (record { current = "in_progress"; target = "completed" })))
    × (validate_transition "in_progress" "completed" ≡ ok tt)
    × ((transition refreshing advanced_meanwhile 2001 (complete none) 5 "7" (connected started)).0
        ≡ err (changed_concurrently 2 (some 3)))
lost_completion_example =
    lost_completion advanced_meanwhile 2001 5 2 "7" (connected started) started bumped bumped refl
      refl refl refl refl refl (λ e. cc e) (λ e. cc e)

expire_overdue_sound_example :
    ((expire_overdue_submissions 6000 (5 ∷ []) 10 "job" (connected started)).0 ≤ 10)
    × (((expire_overdue_submissions 6000 (5 ∷ []) 10 "job" (connected started)).1.rows 5
          ≡ some started)
        ⊎ ((row : Submission) × ((expire_overdue_submissions 6000
                  (5 ∷ [])
                  10
                  "job"
                  (connected started)).1.rows
                5
              ≡ some row)
            × Expired 6000 started row))
expire_overdue_sound_example =
    expire_overdue_sound 6000 (5 ∷ []) 10 "job" (connected started) 5 started refl

one_overdue : length (overdue_ids 6000 10 (table_of started) (5 ∷ [])) < 10
unfolding overdue_ids
one_overdue = omega arith

now_expired :
    (expire_overdue_submissions 6000 (5 ∷ []) 10 "job" (connected started)).1.rows 5
    ≡ some (expire_row 6000 started)
unfolding expire_overdue_submissions overdue_ids
now_expired = refl

expire_overdue_complete_example : is_overdue 6000 (expire_row 6000 started) ≡ false
expire_overdue_complete_example =
    expire_overdue_complete 6000 (5 ∷ []) 10 "job" (connected started) 5 (expire_row 6000 started)
      (omega arith) one_overdue refl now_expired
