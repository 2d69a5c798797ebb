-- ===== src/Locks/Tests.antt =====
-- Two workers and one lock.
use ai_interviewer.Prelude.{
  ℕ, ◌-◌, ◌<◌, ◌≡◌, refl, true, false, none, some, List, [], ◌∷◌, arith, eq_iff,
}
use ai_interviewer.Prelude.Result.{ok, err}
use ai_interviewer.Locks.Store.{Keys, live, set_nx, try_acquire_lock, release_lock, acquire_lock}
use ai_interviewer.Locks.Exclusion.{
  Call, try_acquire, try_release, after_calls, acquired_exclusively,
}

abbrev free : Keys
free k = none

-- Another worker has the lock until 105, so that the second attempt takes it.
abbrev attempts : List (ℕ × (Keys → Keys))
attempts = (101, λ (ks : Keys). (set_nx "k" "theirs" 4 101 ks).1) ∷ (106, λ (ks : Keys). ks) ∷ []

second_attempt : (held : Keys) × (acquire_lock "k" "mine" 10 100 attempts free ≡ (ok 106, held))
unfolding acquire_lock set_nx
second_attempt = (_, refl)

abbrev calls : List (ℕ × Call)
calls = (107, try_acquire "theirs") ∷ (108, try_release "theirs") ∷ []

acquired_exclusively_example :
    let later = after_calls "k" 10 second_attempt.0 calls in
    (106 - 100 < 10)
    × (live 110 (later "k") ≡ some "mine")
    × (try_acquire_lock "k" "theirs" 10 110 later ≡ (none, later))
    × (release_lock "k" "theirs" 110 later ≡ (false, later))
    × (live 110 ((release_lock "k" "mine" 110 later).1 "k") ≡ none)
    × ((release_lock "k" "mine" 110 later).0 ≡ true)
acquired_exclusively_example =
    acquired_exclusively "k" "mine" "theirs" 10 100 106 110 attempts free second_attempt.0 calls
      second_attempt.1 refl (ground (arith, eq_iff "mine" "theirs")) (omega arith)

too_late : (acquire_lock "k" "mine" 10 100 ((110, λ (ks : Keys). ks) ∷ []) free).0 ≡ err tt
unfolding acquire_lock
too_late = refl
