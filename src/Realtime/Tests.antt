-- ===== src/Realtime/Tests.antt =====
-- A candidate who opens the interview in a second window.
use ai_interviewer.Prelude.{ℕ, ◌≡◌, refl, Bool, true, false, none, some, [], ◌∷◌, arith, eq_iff}
use ai_interviewer.Realtime.Connections.{
  Manager, other, connection_replaced, connect, disconnect, send_event, refresh_heartbeat,
  is_connected, owner,
}
use ai_interviewer.Realtime.Replacement.{stale_disconnect}

abbrev nobody : Manager
nobody = record { owners = λ i. none; sessions = λ s. none; active = λ i. none; sent = [] }

abbrev everyone : ℕ → Bool
everyone ws = true

-- Socket 7 is open.
abbrev first_window : Manager
first_window = (connect everyone 100 7 1 "conn_a" 42 nobody).1

second_window_replaces : (connect everyone 110 8 1 "conn_b" 42 first_window).0 ≡ some "conn_a"
unfolding connect
second_window_replaces = refl

first_window_is_told :
    (connect everyone 110 8 1 "conn_b" 42 first_window).1.sent
    ≡ record { socket = 7; event = connection_replaced "conn_b" } ∷ []
unfolding connect
first_window_is_told = refl

stale_disconnect_example :
    let open_one = (connect everyone 110 8 1 "conn_b" 42 first_window).1 in
    let after = disconnect 111 1 "conn_a" open_one in
    let beaten = refresh_heartbeat 111 1 "conn_b" after in
    ((send_event everyone 1 (other "next_question") open_one).0 ≡ true)
    × (owner 111 1 after ≡ some "conn_b")
    × (is_connected 1 after ≡ false)
    × (send_event everyone 1 (other "next_question") after ≡ (false, after))
    × (owner 111 1 beaten ≡ some "conn_b")
    × (send_event everyone 1 (other "next_question") beaten ≡ (false, beaten))
stale_disconnect_example =
    stale_disconnect everyone 110 111 8 1 42 "conn_b" "conn_a" (other "next_question") first_window
      (omega arith) (omega arith) (ground (arith, eq_iff "conn_b" "conn_a"))
