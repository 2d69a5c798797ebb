-- ===== src/Locks/Store.antt =====
-- app/persistence/redis/locks.py. A key of Redis is there until it expires; the random value that a
-- caller draws is an argument. Times are in the unit of the time-out.
use ai_interviewer.Prelude.{
  ℕ, ◌+◌, ◌-◌, String, Bool, true, false, not, Option, none, some, List, [], ◌∷◌, str_eq, ltb,
  if◌then◌else◌, is_some,
}
use ai_interviewer.Prelude.Result.{Result, ok, err}

pub record Lock : Type 0 where
  pub value : String
  pub expires_at : ℕ

abbrev pub Keys : Type 0
Keys = String → Option Lock

-- `GET`
abbrev pub live : ℕ → Option Lock → Option String
live now none = none
live now (some l) = if ltb now l.expires_at then some l.value else none

abbrev pub put : String → Option Lock → Keys → Keys
put key l keys k = if str_eq k key then l else keys k

abbrev set_if_free : String → String → ℕ → ℕ → Keys → Option String → Bool × Keys
set_if_free key value ttl now keys (some held) = (false, keys)
set_if_free key value ttl now keys none =
    (true, put key (some (record { value = value; expires_at = now + ttl })) keys)

-- `SET key value NX EX ttl`
unfoldable pub set_nx : String → String → ℕ → ℕ → Keys → Bool × Keys
set_nx key value ttl now keys = set_if_free key value ttl now keys (live now (keys key))

abbrev delete_if_own : String → String → Keys → Option String → Bool × Keys
delete_if_own key value keys none = (false, keys)
delete_if_own key value keys (some held) =
    if str_eq held value then (true, put key none keys) else (false, keys)

-- The release script; `release_lock`, and the end of `acquire_lock`.
unfoldable pub release_lock : String → String → ℕ → Keys → Bool × Keys
release_lock key value now keys = delete_if_own key value keys (live now (keys key))

abbrev pub value_if : String → Bool × Keys → Option String × Keys
value_if value (true, keys) = (some value, keys)
value_if value (false, keys) = (none, keys)

unfoldable pub try_acquire_lock : String → String → ℕ → ℕ → Keys → Option String × Keys
unfolding set_nx
try_acquire_lock key value timeout now keys = value_if value (set_nx key value timeout now keys)

abbrev pub is_locked : String → ℕ → Keys → Bool
is_locked key now keys = is_some (live now (keys key))

-- The loop of `acquire_lock` over the attempts that the clock leaves room for: at each the time, and
-- what others make of the keys before it. `err` is `LockAcquisitionError`.
unfoldable pub acquire_lock :
    String → String → ℕ → ℕ → List (ℕ × (Keys → Keys)) → Keys → Result Unit ℕ × Keys
unfolding set_nx
acquire_lock key value timeout start [] keys = (err tt, keys)
acquire_lock key value timeout start ((now, others) ∷ more) keys =
    if not (ltb (now - start) timeout)
    then (err tt, keys)
    else let (won, after) = set_nx key value timeout now (others keys) in
      elim won [ true ↦ (ok now, after) | false ↦ acquire_lock key value timeout start more after ]
