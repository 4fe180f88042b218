-- ===== src/Store/Terminals.antt =====
-- Terminal state, session checkpoints and gateway activity of internal/store/store.go.
pub mod Effects
use face_recognition_proxy.Prelude.{
  ℕ, ◌+◌, Bool, true, false, not, Option, none, some, List, [], ◌∷◌, ◌++◌, String, concat,
  string_eq, ◌==◌, if◌then◌else◌, length,
}
use face_recognition_proxy.Prelude.Table.{get, put, remove}
use face_recognition_proxy.Result.{Result, ok, err, ◌>>=◌, ◌>>◌, refuse, require}
use face_recognition_proxy.Store.Tables.{Activity, TerminalRow, PushSdkSession, Db}

-- An offline transition leaves `last_seen_at` alone.
abbrev pub next_row : ℕ → String → Option String → TerminalRow → TerminalRow
next_row now status last_error row = record {
  connection_status = status;
  last_seen_at = if status == "offline" then row.last_seen_at else some now;
  last_error = last_error;
  updated_at = now;
}

module _ {Q : Type 0} where
  -- insertGatewayActivity: the row gets the next identifier and the clock.
  unfoldable pub insert_gateway_activity : ℕ → Activity → Db Q → Result String (Db Q × Activity)
  insert_gateway_activity now event db = do
    refuse (event.kind == "") "gateway activity kind is required"
    refuse (event.message == "") "gateway activity message is required"
    let stored = record event { id = length db.gateway_activities + 1; at = now }
    ok (record db { gateway_activities = db.gateway_activities ++ stored ∷ [] }, stored)

  unfoldable pub transition_terminal_state :
      String → String → Option String → Activity → ℕ → Db Q → Result String (Db Q × Activity)
  unfolding insert_gateway_activity
  transition_terminal_state serial status last_error event now db = do
    refuse (not (event.terminal == serial)) (
        concat (
          "gateway activity terminal " ∷ event.terminal
          ∷ " does not match state transition terminal " ∷ serial ∷ []))
    row ←
        require (get serial db.terminals)
          (concat ("terminal " ∷ serial ∷ " is not registered" ∷ []))
    insert_gateway_activity now event
        (record db { terminals = put serial (next_row now status last_error row) db.terminals })

  -- `UPDATE terminals ... WHERE serial_number = $1`
  abbrev pub update_terminal : String → (TerminalRow → TerminalRow) → Db Q → Db Q
  update_terminal serial f db = elim (get serial db.terminals) [
    | none ↦ db
    | some row ↦ record db { terminals = put serial (f row) db.terminals }
  ]

  -- Only an authenticated exchange refreshes `last_seen_at`.
  unfoldable pub upsert_push_sdk_session :
      PushSdkSession → ℕ → Db Q → Result String (Db Q × Unit {0})
  upsert_push_sdk_session session now db =
      let saved = record db {
        pushsdk_sessions = put session.terminal_serial_number session db.pushsdk_sessions;
      } in
      if session.authenticated
      then ok (
        update_terminal session.terminal_serial_number
            (λ row. record row { last_seen_at = session.next_challenge_at; updated_at = now })
            saved,
        tt,
      )
      else ok (saved, tt)

  unfoldable pub delete_push_sdk_session : String → ℕ → Db Q → Result String (Db Q × Unit {0})
  delete_push_sdk_session serial now db =
      ok (record db { pushsdk_sessions = remove serial db.pushsdk_sessions }, tt)

  -- The event is there only if the terminal was not offline already.
  unfoldable pub expire_push_sdk_login_challenge :
      String → String → Activity → ℕ → Db Q → Result String (Db Q × Option Activity)
  unfolding insert_gateway_activity
  expire_push_sdk_login_challenge serial reason event now db =
      let deleted = record db { pushsdk_sessions = remove serial db.pushsdk_sessions } in
      elim (get serial db.terminals) [
        | none ↦ ok (deleted, none)
        | some row ↦ if row.connection_status == "offline" then ok (deleted, none) else do
          (db', stored) ← insert_gateway_activity now event (record deleted {
            terminals =
                put serial
                  (record row {
                    connection_status = "offline";
                    last_error = some reason;
                    updated_at = now;
                  })
                  db.terminals;
          })
          ok (db', some stored)
      ]

  unfoldable pub record_gateway_activity : Activity → ℕ → Db Q → Result String (Db Q × Activity)
  unfolding insert_gateway_activity
  record_gateway_activity event now db = insert_gateway_activity now event db
