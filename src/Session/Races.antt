-- ===== src/Session/Races.antt =====
-- What the compare-and-set guarantees whatever other workers commit meanwhile.
use ai_interviewer.Prelude.{
  ℕ, ◌+◌, ◌≡◌, refl, ap, ◌∙◌, ◌⊎◌, inl, inr, true, false, Option, none, some, arith, Bool-cases,
  Option-cases,
}
use ai_interviewer.Prelude.Result.{ok, err}
use ai_interviewer.Session.Status.{SubmissionStatus, pending, same}
use ai_interviewer.Session.Graph.{◌⟶◌}
use ai_interviewer.Session.Store.{
  Submission, Table, next_version, version_is, version_differs, owned_by, update_where, put,
  reload_scoped,
}
use ai_interviewer.Session.Repository.{
  Connection, Others, Requery, Reply, compare_and_set, lost_race, moved_row, cas_test, requeried,
}

pub same_eq : (s t : SubmissionStatus) → same s t ≡ true → s ≡ t
same_eq pending t h = ground arith
same_eq s t h = ground arith

-- Nothing was written by the call: the rows are those that it met, or what the others made of
-- them.
abbrev pub Unwritten : Others → Table → Table → Type 0
Unwritten o rows rows' = (rows' ≡ rows) ⊎ (rows' ≡ o.before_reload (o.before_update rows))

-- A reported transition wrote one row, over a row of the version that the call had read and of a
-- status with an edge to the target; any other reply wrote nothing.
module _ (o : Others) (to : SubmissionStatus) (sid : ℕ) (cid : Option ℕ) (rows : Table) where
  abbrev pub Sound : Reply × Connection → Type 0
  Sound (ok (s, true), c') =
      (old : Submission) × (new : Submission) × (v : ℕ) × (o.before_update rows sid ≡ some old)
      × (c'.rows ≡ put (o.before_update rows) sid new)
      × (s ≡ some new)
      × (old.status ⟶ to)
      × (new.status ≡ to)
      × (old.version ≡ some v)
      × (new.version ≡ some (v + 1))
      × (owned_by cid new ≡ true)
      × ((read : Submission) × (rows sid ≡ some read) × (read.version ≡ some v))
  Sound (ok (s, false), c') =
      ((sub : Submission) × (s ≡ some sub) × (sub.status ≡ to)) × Unwritten o rows c'.rows
  Sound (err e, c') = Unwritten o rows c'.rows

-- The extra columns are not the status or the version.
abbrev pub Extra : (Submission → Submission) → Type 0
Extra f =
    (row : Submission)
    → ((f row).status ≡ row.status)
      × ((f row).version ≡ row.version)
      × ((f row).candidate_id ≡ row.candidate_id)

owned_by_same :
    (cid : Option ℕ) (a b : Submission)
    → a.candidate_id ≡ b.candidate_id
    → owned_by cid b ≡ true
    → owned_by cid a ≡ true
owned_by_same none a b e h = refl
owned_by_same (some c) a b e h = ground arith

version_is_eq : (w : Option ℕ) (v : ℕ) → version_is w v ≡ true → w ≡ some v
version_is_eq w v h = ground arith

module _ (requery : Requery) (others : Others) (now : ℕ) where
  module _ (expected target idempotent : SubmissionStatus) (extra : Submission → Submission)
      (sid : ℕ) (cid : Option ℕ) (loaded : Submission) (v : ℕ) (c : Connection) where
    pub compare_and_set_hit :
        (row : Submission)
        → others.before_update c.rows sid ≡ some row
        → cas_test expected v cid row ≡ true
        → compare_and_set requery others now expected target idempotent extra sid cid loaded v c ≡ (
          ok (some (moved_row target extra now row), true),
          record c {
            rows = put (others.before_update c.rows) sid (moved_row target extra now row);
          },
        )
    unfolding compare_and_set update_where reload_scoped
    compare_and_set_hit row found hit = ground arith

    pub compare_and_set_gone :
        others.before_update c.rows sid ≡ none
        → compare_and_set requery others now expected target idempotent extra sid cid loaded v c ≡ (
          lost_race target idempotent sid v (
              requeried requery loaded
                (reload_scoped (others.before_reload (others.before_update c.rows)) sid cid)),
          record c { rows = others.before_reload (others.before_update c.rows) },
        )
    unfolding compare_and_set update_where
    compare_and_set_gone gone = rw gone refl

    pub compare_and_set_miss :
        (row : Submission)
        → others.before_update c.rows sid ≡ some row
        → cas_test expected v cid row ≡ false
        → compare_and_set requery others now expected target idempotent extra sid cid loaded v c ≡ (
          lost_race target idempotent sid v (
              requeried requery loaded
                (reload_scoped (others.before_reload (others.before_update c.rows)) sid cid)),
          record c { rows = others.before_reload (others.before_update c.rows) },
        )
    unfolding compare_and_set update_where
    compare_and_set_miss row found miss = rw found (rw miss refl)

    lost_race-Sound :
        (sub : Option Submission) (c' : Connection)
        → idempotent ≡ target
        → Unwritten others c.rows c'.rows
        → Sound others target sid cid c.rows (lost_race target idempotent sid v sub, c')
    unfolding lost_race
    lost_race-Sound none c' i u = u
    lost_race-Sound (some sub) c' i u = elim (Bool-cases (same sub.status idempotent)) [
      | inl e ↦ rw e ((sub, refl, same_eq sub.status idempotent e ∙ i), u)
      | inr e ↦
          rw e
            (elim (Bool-cases (version_differs sub.version v)) [ inl d ↦ rw d u | inr d ↦ rw d u ])
    ]

    hit-Sound :
        (row : Submission)
        → Extra extra
        → expected ⟶ target
        → (read : Submission) → c.rows sid ≡ some read
        → read.version ≡ some v
        → others.before_update c.rows sid ≡ some row
        → cas_test expected v cid row ≡ true
        → Sound others target sid cid c.rows (
          ok (some (moved_row target extra now row), true),
          record c {
            rows = put (others.before_update c.rows) sid (moved_row target extra now row);
          },
        )
    hit-Sound row ex e read r rv found hit =
        let st = same_eq row.status expected (ground arith) in
        let rowv : row.version ≡ some v = version_is_eq row.version v (ground arith) in
        let x =
          ex (record row {
            status = target;
            updated_at = now;
            version = next_version row.version;
          }) in
        (
          row,
          moved_row target extra now row,
          v,
          found,
          refl,
          refl,
          rw st e,
          x.0,
          rowv,
          x.1 ∙ ap next_version rowv,
          owned_by_same cid (moved_row target extra now row) row x.2 (ground arith),
          (read, r, rv),
        )

    pub compare_and_set-Sound :
        Extra extra
        → idempotent ≡ target
        → expected ⟶ target
        → (read : Submission) → c.rows sid ≡ some read
        → read.version ≡ some v
        → Sound others target sid cid c.rows
            (compare_and_set requery others now expected target idempotent extra sid cid loaded v c)
    compare_and_set-Sound ex i e read r rv = elim (Option-cases (others.before_update c.rows sid)) [
      | inl gone ↦ rw (compare_and_set_gone gone) (lost_race-Sound _ _ i (inr refl))
      | inr (row, found) ↦ elim (Bool-cases (cas_test expected v cid row)) [
        | inl hit ↦ rw (compare_and_set_hit row found hit) (hit-Sound row ex e read r rv found hit)
        | inr miss ↦ rw (compare_and_set_miss row found miss) (lost_race-Sound _ _ i (inr refl))
      ]
    ]
