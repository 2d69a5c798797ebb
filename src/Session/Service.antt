-- ===== src/Session/Service.antt =====
-- app/interview/session/api/service.py: the session commands. The session lock is optional in
-- the source (the body runs with or without it), so it does not show here: what keeps two
-- workers apart is the compare-and-set of the repository. Scoring after completion runs in a
-- thread of its own and is not modelled.
use ai_interviewer.Prelude.{
  ℕ, String, Bool, not, ◌&&◌, Option, none, some, append, ◌==◌, if◌then◌else◌,
}
use ai_interviewer.Prelude.Result.{Result, ok, err}
use ai_interviewer.Session.Status.{
  SubmissionStatus, in_progress, completed, expired, cancelled, reviewed,
}
use ai_interviewer.Session.Store.{Submission}
use ai_interviewer.Session.Repository.{
  RepositoryError, Connection, Others, Requery, Reply, transition_to_in_progress,
  transition_to_completed, transition_to_expired, transition_to_cancelled, transition_to_reviewed,
}

-- The five commands, with the arguments that the repository gets.
pub data Command : Type 0 where
  start : ℕ → Command
  complete : Option ℕ → Command
  expire cancel review : Command

abbrev pub target : Command → SubmissionStatus
target (start cid) = in_progress
target (complete cid) = completed
target expire = expired
target cancel = cancelled
target review = reviewed

-- The texts `candidate:…` and `admin:…` are the caller's: `who` is `str(candidate_id)` or
-- `str(admin_id)`.
abbrev pub actor_of : Command → String → Option String
actor_of (start cid) who = some (append "candidate:" who)
actor_of (complete none) who = some "system:complete"
actor_of (complete (some cid)) who = some (append "candidate:" who)
actor_of expire who = some "system:expiry"
actor_of cancel who = some (append "admin:" who)
actor_of review who = some (append "admin:" who)

pub data ServiceError : Type 0 where
  consent_required : ServiceError
  repository : RepositoryError → ServiceError
  -- `sub.id` where `sub` is `None`
  attribute_error : ServiceError

-- The Redis entry `interview_session:{id}`; `progress` are the fields that the progress tracker
-- adds: current sequence, total, percentage, completeness.
pub record CacheEntry : Type 0 where
  pub status : Option SubmissionStatus
  pub candidate_id : Option ℕ
  pub started_at : Option ℕ
  pub updated_at : Option ℕ
  pub version : Option ℕ
  pub progress : Option (ℕ × ℕ × ℕ × Bool)

abbrev pub Cache : Type 0
Cache = ℕ → Option CacheEntry

-- `_sync_redis`: the entry is replaced whole; an exception of the client is swallowed.
unfoldable pub sync_redis : Bool → ℕ → Submission → Cache → Cache
sync_redis up sid sub cache j =
    if up && j == sid
    then some (record {
      status = some sub.status;
      candidate_id = some sub.candidate_id;
      started_at = sub.started_at;
      updated_at = some sub.updated_at;
      version = sub.version;
      progress = none;
    })
    else cache j

pub record World : Type 0 where
  pub db : Connection
  pub cache : Cache

module _ (requery : Requery) (others : Others) (now : ℕ) where
  -- The repository call of a command.
  unfoldable pub transition : Command → ℕ → String → Connection → Reply × Connection
  transition (start cid) sid who =
      transition_to_in_progress requery others now sid cid (actor_of (start cid) who)
  transition (complete cid) sid who =
      transition_to_completed requery others now sid cid (actor_of (complete cid) who)
  transition expire sid who = transition_to_expired requery others now sid (actor_of expire who)
  transition cancel sid who = transition_to_cancelled requery others now sid (actor_of cancel who)
  transition review sid who = transition_to_reviewed requery others now sid (actor_of review who)

module _ (requery : Requery) (others : Others) (now : ℕ) (redis_up : Bool) where
  unfoldable pub synced :
      ℕ → Reply × Connection → World → Result ServiceError (Submission × Bool) × World
  synced sid (ok (some sub, moved), db) w =
      (ok (sub, moved), record { db = db; cache = sync_redis redis_up sid sub w.cache })
  synced sid (ok (none, moved), db) w = (err attribute_error, record w { db = db })
  synced sid (err e, db) w = (err (repository e), record w { db = db })

  -- `start_interview`
  unfoldable pub start_interview :
      ℕ → ℕ → Bool → String → World → Result ServiceError (Submission × Bool) × World
  unfolding transition synced sync_redis
  start_interview sid cid consent who w =
      if not consent
      then (err consent_required, w)
      else synced sid (transition requery others now (start cid) sid who w.db) w

  -- `complete_interview`, `expire_interview`, `cancel_interview`, `review_interview`
  unfoldable pub perform :
      Command → ℕ → String → World → Result ServiceError (Submission × Bool) × World
  unfolding transition synced sync_redis
  perform cmd sid who w = synced sid (transition requery others now cmd sid who w.db) w
