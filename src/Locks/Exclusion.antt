-- ===== src/Locks/Exclusion.antt =====
-- Whoever has taken a lock has it until it expires, whatever the others try.
use ai_interviewer.Prelude.{
  ℕ, ◌+◌, ◌-◌, ◌<◌, String, ◌≡◌, refl, ap, ◌∙◌, ◌≢◌, inl, inr, Bool, true, false, not, ◌&&◌, none,
  some, List, [], ◌∷◌, arith, str_eq, eq_iff, ltb, Bool-cases, Option-cases, all,
}
use ai_interviewer.Prelude.Result.{Result, ok, err}
use mathlib.Core.Path.{subst}
use text.Mathlib.TextPositions.{eq_refl}
use ai_interviewer.Locks.Store.{
  Keys, live, set_nx, release_lock, try_acquire_lock, acquire_lock, value_if,
}

-- What the clients do with one key: each with its own value.
pub data Call : Type 0 where
  try_acquire try_release : String → Call

-- A call at its time.
abbrev pub after_call : String → ℕ → Keys → ℕ × Call → Keys
after_call key timeout keys (now, try_acquire v) = (try_acquire_lock key v timeout now keys).1
after_call key timeout keys (now, try_release v) = (release_lock key v now keys).1

abbrev pub after_calls : String → ℕ → Keys → List (ℕ × Call) → Keys
after_calls key timeout keys [] = keys
after_calls key timeout keys (c ∷ cs) = after_calls key timeout (after_call key timeout keys c) cs

-- Before the time, and no release with the value.
abbrev pub foreign : String → ℕ → ℕ × Call → Bool
foreign value end (now, try_acquire v) = ltb now end
foreign value end (now, try_release v) = ltb now end && not (str_eq value v)

still_live :
    (key value : String) (now end : ℕ) (keys : Keys)
    → keys key ≡ some (record { value = value; expires_at = end })
    → ltb now end ≡ true
    → live now (keys key) ≡ some value
still_live key value now end keys had early = ap (live now) had ∙ rw early refl

busy_nx :
    (key rival value : String) (ttl now : ℕ) (keys : Keys)
    → live now (keys key) ≡ some value
    → set_nx key rival ttl now keys ≡ (false, keys)
unfolding set_nx
busy_nx key rival value ttl now keys e = rw (e, set_nx) refl

not_own :
    (key rival value : String) (now : ℕ) (keys : Keys)
    → live now (keys key) ≡ some value
    → str_eq value rival ≡ false
    → release_lock key rival now keys ≡ (false, keys)
unfolding release_lock
not_own key rival value now keys e other = rw (e, other, release_lock) refl

held_call :
    (key value : String) (timeout end : ℕ) (keys : Keys) (c : ℕ × Call)
    → keys key ≡ some (record { value = value; expires_at = end })
    → foreign value end c ≡ true
    → after_call key timeout keys c key ≡ some (record { value = value; expires_at = end })
unfolding try_acquire_lock
held_call key value timeout end keys (now, try_acquire v) had early =
    let busy = busy_nx key v value timeout now keys (still_live key value now end keys had early) in
    ap (λ (x : Bool × Keys). (value_if v x).1 key) busy ∙ had
held_call key value timeout end keys (now, try_release v) had early =
    let alive = still_live key value now end keys had (ground (arith, early)) in
    ap (λ (x : Bool × Keys). x.1 key) (not_own key v value now keys alive (ground (arith, early)))
    ∙ had

held_calls :
    (key value : String) (timeout end : ℕ) (keys : Keys) (cs : List (ℕ × Call))
    → keys key ≡ some (record { value = value; expires_at = end })
    → all (foreign value end) cs ≡ true
    → after_calls key timeout keys cs key ≡ some (record { value = value; expires_at = end })
held_calls key value timeout end keys [] had early = had
held_calls key value timeout end keys (c ∷ cs) had early =
    held_calls key value timeout end (after_call key timeout keys c) cs
      (held_call key value timeout end keys c had (ground (arith, early))) (ground (arith, early))

-- What a loop that ended with the lock has written.
abbrev Taken : String → String → ℕ → ℕ → Result Unit ℕ × Keys → Type 0
Taken key value timeout start (err e, keys) = Unit
Taken key value timeout start (ok at, keys) =
    (keys key ≡ some (record { value = value; expires_at = at + timeout })) × (at - start < timeout)

acquire-Taken :
    (key value : String) (timeout start : ℕ) (attempts : List (ℕ × (Keys → Keys))) (keys : Keys)
    → Taken key value timeout start (acquire_lock key value timeout start attempts keys)
unfolding acquire_lock set_nx
acquire-Taken key value timeout start [] keys = tt
acquire-Taken key value timeout start ((now, others) ∷ more) keys =
    elim (Bool-cases (ltb (now - start) timeout)) [
      | inr late ↦ rw (late, acquire_lock) tt
      | inl early ↦ elim (Option-cases (live now (others keys key))) [
        | inr (held, busy) ↦
            rw (early, busy, acquire_lock)
              (acquire-Taken key value timeout start more
                (set_nx key value timeout now (others keys)).1)
        | inl free ↦
            let self : str_eq key key ≡ true = eq_refl key in
            rw (early, free, acquire_lock) (rw (free, self, set_nx) refl, ground (arith, early))
      ]
    ]

own_release :
    (key value : String) (now : ℕ) (keys : Keys)
    → live now (keys key) ≡ some value
    → ((release_lock key value now keys).0 ≡ true)
      × ((release_lock key value now keys).1 key ≡ none)
unfolding release_lock
own_release key value now keys e =
    let own : str_eq value value ≡ true = eq_refl value in
    let self : str_eq key key ≡ true = eq_refl key in rw (e, own, release_lock) (refl, rw self refl)

-- A lock that `acquire_lock` took, within its time-out and whatever the others did to the keys
-- meanwhile, is the caller's until the time-out has passed again: whatever the others, with values
-- of their own, try and release before that, the key has the caller's value, no other attempt
-- succeeds, no release of another value does, and the caller's release frees it.
pub acquired_exclusively :
    (key value rival : String) (timeout start at now : ℕ) (attempts : List (ℕ × (Keys → Keys)))
    (keys held : Keys) (cs : List (ℕ × Call))
    → acquire_lock key value timeout start attempts keys ≡ (ok at, held)
    → all (foreign value (at + timeout)) cs ≡ true
    → value ≢ rival
    → now < at + timeout
    → let later = after_calls key timeout held cs in
      (at - start < timeout)
      × (live now (later key) ≡ some value)
      × (try_acquire_lock key rival timeout now later ≡ (none, later))
      × (release_lock key rival now later ≡ (false, later))
      × (live now ((release_lock key value now later).1 key) ≡ none)
      × ((release_lock key value now later).0 ≡ true)
unfolding try_acquire_lock
acquired_exclusively key value rival timeout start at now attempts keys held cs done early apart
      young =
    let (had, waited) =
      subst (Taken key value timeout start) done
        (acquire-Taken key value timeout start attempts keys) in
    let later = after_calls key timeout held cs in
    let still = held_calls key value timeout (at + timeout) held cs had early in
    let alive = still_live key value now (at + timeout) later still (ground arith) in
    let other : str_eq value rival ≡ false = ground (arith, eq_iff value rival) in
    let freed = own_release key value now later alive in
    (
      waited,
      alive,
      ap (value_if rival) (busy_nx key rival value timeout now later alive),
      not_own key rival value now later alive other,
      ap (live now) freed.1,
      freed.0,
    )
