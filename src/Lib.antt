-- ===== src/Lib.antt =====
-- A model of the interview platform's core: the life of an interview submission, the exchanges that
-- make up the interview, what surrounds one answer, the accounts and the code submissions.
--
-- Session is app/interview/session/. Session.Status has the statuses and the transition table of
-- domain/state_machine.py (`validate_transition`); Session.Graph the table as a relation.
-- Session.Store has the rows of `interview_submissions` and the guarded UPDATE; the rows are a
-- function from ids, a version may be NULL. Session.Repository is persistence/repository.py:
-- `do_transition` and `do_multi_source_transition` are `_do_transition` and
-- `_do_multi_source_transition`, `compare_and_set` what both do from the UPDATE on. Other workers
-- are two functions on the rows, one before the UPDATE and one before the reload of the loser. The
-- object-relational mapper is a parameter: what a query answers for a row whose object the session
-- holds already (the loaded object with an identity map, the stored one with a refresh).
-- Session.Service is api/service.py: the five commands, with the Redis entry that follows the row.
-- Session.Expiry is expiry/service.py, the batch sweep; the order in which the database lists the
-- rows is a parameter. Races, Cases, Commands, Guarantees and StaleReload hold the proofs.
--
-- Interview.Exchanges is app/interview/exchanges/: Model is contracts.py, Validators validators.py,
-- Repository the creation and the queries of repository.py, with what other sessions commit before
-- each statement as functions; the unique constraint and the check constraint of the table are the
-- database's. Interview.Clarification is question_state_machine.py (Machine, each method with the
-- object as it leaves it, also where it raises) and clarification_policy.py (Policy).
--
-- Interview.Orchestration is app/interview/orchestration/: Sequencer is question_sequencer.py with
-- the constraints of contracts.py, Attempts and Progress are progress_tracker.py, Signals and
-- Coordinator are exchange_coordinator.py and race_resolver.py. The three optimistic attempts of
-- the tracker are a loop on the number that is left; another worker may write before each. A
-- percentage is a function of the sequence and the total, in hundredths, since the source rounds a
-- float. The Redis lock is taken or times out, and the resolver goes on in both cases. Traversal,
-- Advance, Reporting, Answering and Answers hold the proofs.
--
-- Audio is app/audio/ingestion/: Buffer is buffer_manager.py, each method one step because each
-- takes the object's lock; Silence is silence_detector.py, where what a method does under the lock
-- is a step, and the callbacks, which are called after the lock is released, are a later step of
-- the same thread, which other threads may overtake; times are natural numbers of milliseconds.
-- Order, Windows and Endings hold the proofs.
--
-- Question is app/question/selection/: Difficulty is domain/difficulty.py, with scores in
-- hundredths and `str.lower` as a parameter; a reason text is the rule that made it. Adaptation
-- holds the proofs.
--
-- Evaluation is app/evaluation/aggregation/: Aggregation is the calculation of normalizer.py,
-- recommendation.py and proctoring_adjuster.py, in hundredths, the default precision, with the
-- rounding of `Decimal` as a parameter; Sections is section_aggregator.py, with `str.lower` as a
-- parameter. Verdict and Totals hold the proofs.
--
-- Proctoring is app/proctoring/rules/: Rules is rule_definitions.py and rule_engine.py, over any
-- rules and clustering rules. Escalation holds the proofs.
--
-- Auth is app/auth/ and app/shared/auth_context/. Model has the rows, the claims and what the
-- service calls of other libraries (bcrypt, SHA-256, JWT, `str.lower`, `re.search`) as the fields
-- of a record. Service, Refresh and Registration are the methods of domain/auth_service.py, each
-- with the rows as it leaves them, also where it raises; `requested` is the session of a request,
-- which rolls back. A call is one transaction with nobody else in between; of a refresh there is
-- also the form (`refresh_over`) that writes on other rows than it has read, since its queries lock
-- none. Tokens is jwt_service.py and `validate_access_token`; Requests is builder.py,
-- dependencies.py, middleware.py and websocket.py; Permissions is scope.py, rbac_enforcer.py and
-- the methods of models.py. The id of a token (`jti`) and the text of an error are left out.
-- Overlap, Rotation, Revocation, Entry, Validity, Admission, Enrolment and Isolation hold the
-- proofs; Unary is a token format for the tests.
--
-- Coding is app/coding/: Comparator is evaluation/comparator.py, on lists of code points; Status
-- has the enumerations, contracts, state machine and evaluation/scorer.py, with weights as whole
-- numbers of either sign, scores in hundredths and the rounded percentage as a parameter; Store is
-- what execution uses of persistence/repositories.py; Execution and Service are
-- execution/service.py, the sandbox a function of the request; Sandbox is sandbox/output_parser.py
-- but for the running time. Lines, Agreement, Settlement, Completion, Acceptance and Forgery hold
-- the proofs.
--
-- Realtime is app/interview/realtime/: Connections is domain/connection_manager.py with its Redis
-- keys and their expiry; a call is one step, and whether a socket takes a message is a parameter.
-- Replacement holds the proofs.
--
-- Locks is app/persistence/redis/locks.py: Store has the keys with their expiry and the calls; the
-- loop of `acquire_lock` runs over its attempts, with what others do before each. Exclusion holds
-- the proofs.
--
-- Admin is app/admin/domain/: Templates is authorization.py and the calls of the template service
-- in services.py that change templates, with the queries of persistence/repositories.py. Tenancy,
-- Sequences and Versions hold the proofs.
--
-- All loops are structural recursion; there is no fuel but the tracker's three attempts.
--
-- Not modelled: the HTTP layer and the WebSocket message loop; the candidate module; the rest of
-- the admin, coding, evaluation, proctoring and question modules; the prompts and providers of
-- app/ai; the score aggregation that a completed interview sets off; the persistence of audio;
-- logging; and the database, Redis and the mapper, of which only the behaviour that the code relies
-- on is a parameter.
pub mod Prelude
pub mod Session
pub mod Audio
pub mod Question
pub mod Auth
pub mod Coding
pub mod Evaluation
pub mod Proctoring
pub mod Realtime
pub mod Interview
pub mod Locks
pub mod Admin
