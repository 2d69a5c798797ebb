-- ===== src/Realtime/Replacement.antt =====
-- What becomes of a connection that took over from another one.
use ai_interviewer.Prelude.{
  ℕ, ◌+◌, ◌≤◌, ◌<◌, String, ◌≡◌, refl, ◌≢◌, Bool, true, false, some, arith, str_eq, eq_iff, ltb,
  ◌==◌,
}
use ai_interviewer.Realtime.Connections.{
  Manager, Event, connect, disconnect, send_event, refresh_heartbeat, is_connected, owner,
  connection_ttl,
}

-- Of a connection that was opened less than its time to live ago, by whatever it took over from:
-- an event reaches its socket exactly if the socket takes it. Once another connection of the
-- submission is unregistered, as the replaced one is when its handler ends, the key still names the
-- connection, but the process no longer has its socket: no event is sent to it, and a heartbeat
-- does not bring it back.
pub stale_disconnect :
    (takes : ℕ → Bool) (now later ws id user : ℕ) (conn stale : String) (event : Event)
    (m : Manager)
    → now ≤ later
    → later < now + connection_ttl
    → conn ≢ stale
    → let open_one = (connect takes now ws id conn user m).1 in
      let after = disconnect later id stale open_one in
      let beaten = refresh_heartbeat later id conn after in
      ((send_event takes id event open_one).0 ≡ takes ws)
      × (owner later id after ≡ some conn)
      × (is_connected id after ≡ false)
      × (send_event takes id event after ≡ (false, after))
      × (owner later id beaten ≡ some conn)
      × (send_event takes id event beaten ≡ (false, beaten))
unfolding connect disconnect send_event refresh_heartbeat is_connected
stale_disconnect takes now later ws id user conn stale event m up young apart =
    let self : (id == id) ≡ true = ground arith in
    let live : ltb later (now + 60) ≡ true = ground arith in
    let again : ltb later (later + 60) ≡ true = ground arith in
    let foreign : str_eq conn stale ≡ false = ground (arith, eq_iff conn stale) in
    (
      rw self refl,
      rw (self, live, foreign) (rw (self, live) refl),
      rw self refl,
      rw self refl,
      rw (self, live, foreign) (rw (self, live, again) refl),
      rw self refl,
    )
