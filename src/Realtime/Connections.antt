-- ===== src/Realtime/Connections.antt =====
-- app/interview/realtime/domain/connection_manager.py, of one process. A socket is a number; whether
-- it takes what is sent to it is a parameter. A Redis key is there until it expires. Times are
-- seconds.
use ai_interviewer.Prelude.{
  ℕ, ◌+◌, String, Bool, false, Option, none, some, List, [], ◌∷◌, ◌++◌, str_eq, ltb, ◌==◌,
  if◌then◌else◌, is_some,
}

-- A key's value, with its expiry.
pub record Key (A : Type 0) : Type 0 where
  pub value : A
  pub expires_at : ℕ

abbrev pub get : {A : Type 0} → ℕ → Option (Key A) → Option A
get now none = none
get now (some k) = if ltb now k.expires_at then some k.value else none

-- `EXPIRE`, of a key that is there.
abbrev pub expire : {A : Type 0} → ℕ → ℕ → Option (Key A) → Option (Key A)
expire now ttl none = none
expire now ttl (some k) =
    if ltb now k.expires_at then some (record k { expires_at = now + ttl }) else some k

pub record Metadata : Type 0 where
  pub connection_id : String
  pub submission_id : ℕ
  pub user_id : ℕ
  pub connected_at : ℕ
  pub last_heartbeat_at : ℕ

pub data Event : Type 0 where
  -- `ConnectionReplacedEvent`, before the socket is closed
  connection_replaced : String → Event
  other : String → Event

pub record Sent : Type 0 where
  pub socket : ℕ
  pub event : Event

-- `active_websocket:{submission}`, `websocket_session:{connection}`, `_active`, and what was sent.
pub record Manager : Type 0 where
  pub owners : ℕ → Option (Key String)
  pub sessions : String → Option (Key Metadata)
  pub active : ℕ → Option ℕ
  pub sent : List Sent

abbrev pub connection_ttl : ℕ
connection_ttl = 60

abbrev pub session_metadata_ttl : ℕ
session_metadata_ttl = 3900

abbrev pub truthy : Option String → Option String
truthy none = none
truthy (some String.[]) = none
truthy (some (String.◌∷◌ ch s)) = some (String.◌∷◌ ch s)

abbrev pub at_submission : {A : Type 0} → ℕ → A → (ℕ → A) → ℕ → A
at_submission id a f j = if j == id then a else f j

abbrev pub at_connection : {A : Type 0} → String → A → (String → A) → String → A
at_connection id a f j = if str_eq j id then a else f j

abbrev pub send : (ℕ → Bool) → ℕ → Event → List Sent → List Sent
send takes ws event sent =
    if takes ws then sent ++ record { socket = ws; event = event } ∷ [] else sent

-- The event for the socket that is replaced; a socket that does not take it is passed over.
abbrev notify : (ℕ → Bool) → String → Option String → Option ℕ → List Sent → List Sent
notify takes conn (some replaced) (some old) sent = send takes old (connection_replaced conn) sent
notify takes conn _ _ sent = sent

module _ (takes : ℕ → Bool) where
  unfoldable pub connect : ℕ → ℕ → ℕ → String → ℕ → Manager → Option String × Manager
  connect now ws id conn user m =
      let replaced = truthy (get now (m.owners id)) in
      (
        replaced,
        record {
          owners =
              at_submission id (some (record { value = conn; expires_at = now + connection_ttl }))
                m.owners;
          sessions =
              at_connection conn
                (some (record {
                  value = record {
                    connection_id = conn;
                    submission_id = id;
                    user_id = user;
                    connected_at = now;
                    last_heartbeat_at = now;
                  };
                  expires_at = now + session_metadata_ttl;
                }))
                m.sessions;
          active = at_submission id (some ws) m.active;
          sent = notify takes conn replaced (m.active id) m.sent;
        },
      )

  delivered : Manager → Event → Option ℕ → Bool × Manager
  delivered m event none = (false, m)
  delivered m event (some ws) = (takes ws, record m { sent = send takes ws event m.sent })

  unfoldable pub send_event : ℕ → Event → Manager → Bool × Manager
  unfolding delivered
  send_event id event m = delivered m event (m.active id)

-- Whether the live key names the connection.
abbrev pub owned_by : String → Option String → Bool
owned_by conn none = false
owned_by conn (some c) = str_eq c conn

unfoldable pub disconnect : ℕ → ℕ → String → Manager → Manager
disconnect now id conn m = record m {
  owners =
      if owned_by conn (get now (m.owners id)) then at_submission id none m.owners else m.owners;
  sessions = at_connection conn none m.sessions;
  active = at_submission id none m.active;
}

abbrev heard : ℕ → Option Metadata → Option (Key Metadata) → Option (Key Metadata)
heard now none old = old
heard now (some data_of) old = some (record {
  value = record data_of { last_heartbeat_at = now };
  expires_at = now + session_metadata_ttl;
})

unfoldable pub refresh_heartbeat : ℕ → ℕ → String → Manager → Manager
refresh_heartbeat now id conn m = record m {
  owners = at_submission id (expire now connection_ttl (m.owners id)) m.owners;
  sessions =
      at_connection conn (heard now (get now (m.sessions conn)) (m.sessions conn)) m.sessions;
}

unfoldable pub is_connected : ℕ → Manager → Bool
is_connected id m = is_some (m.active id)

unfoldable pub get_connection_metadata : ℕ → String → Manager → Option Metadata
get_connection_metadata now conn m = get now (m.sessions conn)

-- The connection that the key of a submission names.
abbrev pub owner : ℕ → ℕ → Manager → Option String
owner now id m = get now (m.owners id)
