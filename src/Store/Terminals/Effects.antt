-- ===== src/Store/Terminals/Effects.antt =====
-- What the transactions of Store.Terminals change, and what they leave.
use face_recognition_proxy.Prelude.{
  ℕ, ◌≡◌, Option, none, some, String, arith, Option-cases, inl, inr, string_eq,
}
use face_recognition_proxy.Prelude.Table.{get, put, get-put_same, get-remove_same}
use face_recognition_proxy.Result.{ok}
use face_recognition_proxy.Store.Tables.{Activity, TerminalRow, PushSdkSession, Db}
use face_recognition_proxy.Store.Terminals.{
  transition_terminal_state, upsert_push_sdk_session, delete_push_sdk_session,
  insert_gateway_activity, next_row,
}

abbrev pub status_of : Option TerminalRow → String
status_of none = ""
status_of (some row) = row.connection_status

module _ {Q : Type 0} where
  pub transition-eq-ok :
      (serial status : String) (last_error : Option String) (event : Activity) (now : ℕ)
      (db db' : Db Q) (a : Activity)
      → transition_terminal_state serial status last_error event now db ≡ ok (db', a)
      → (db'.pushsdk_sessions ≡ db.pushsdk_sessions)
        × (status_of (get serial db'.terminals) ≡ status)
  unfolding transition_terminal_state insert_gateway_activity
  transition-eq-ok serial status last_error event now db db' a h =
      elim (Option-cases (get serial db.terminals)) [
        | inl e ↦ ground arith
        | inr (row, e) ↦
            ground (arith, get-put_same serial (next_row now status last_error row) db.terminals)
      ]

  pub upsert-eq-ok :
      (session : PushSdkSession) (now : ℕ) (db db' : Db Q) (a : Unit {0})
      → upsert_push_sdk_session session now db ≡ ok (db', a)
      → db'.pushsdk_sessions ≡ put session.terminal_serial_number session db.pushsdk_sessions
  unfolding upsert_push_sdk_session
  upsert-eq-ok session now db db' a h =
      elim (Option-cases (get session.terminal_serial_number db.terminals)) [
        | inl e ↦ ground arith
        | inr (row, e) ↦ ground arith
      ]

  pub delete-eq-ok :
      (serial : String) (now : ℕ) (db db' : Db Q) (a : Unit {0})
      → delete_push_sdk_session serial now db ≡ ok (db', a)
      → (get serial db'.pushsdk_sessions ≡ none) × (db'.terminals ≡ db.terminals)
  unfolding delete_push_sdk_session
  delete-eq-ok serial now db db' a h = ground (arith, get-remove_same serial db.pushsdk_sessions)
