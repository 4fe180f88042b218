-- ===== src/PushSdk/Service/Steps.antt =====
-- The steps that the handlers of internal/pushsdk/service.go share.
use face_recognition_proxy.Prelude.{Option, none, List, [], ◌∷◌, String}
use face_recognition_proxy.Prelude.Table.{get}
use face_recognition_proxy.Result.{ok}
use face_recognition_proxy.Config.{Terminal}
use face_recognition_proxy.PushSdk.Session.{Session, PayloadMode, mode_text, persistent_state}
use face_recognition_proxy.PushSdk.Wire.{Platform}
use face_recognition_proxy.PushSdk.World.{Env, Step, transaction, forget, publish, ◌>>=◌, ◌>>◌}
use face_recognition_proxy.Store.Tables.{Activity, Field, text, number}
use face_recognition_proxy.Store.Terminals.{
  transition_terminal_state, upsert_push_sdk_session, delete_push_sdk_session,
  record_gateway_activity,
}

-- An event before the store gives it an identifier and a time.
abbrev pub event : String → String → String → List (String × Field) → Activity
event kind terminal message fields = record {
  id = 0;
  at = 0;
  kind = kind;
  terminal = terminal;
  message = message;
  fields = fields;
}

abbrev pub negotiation_fields : PayloadMode → Terminal → List (String × Field)
negotiation_fields mode terminal =
    ("payloadMode", text (mode_text mode))
    ∷ ("securityVersion", number terminal.security_version)
    ∷ []

module _ {Q : Type 0} where
  abbrev pub lookup_session : String → Step Q (Option Session)
  lookup_session key w = (ok (get key w.sessions), w)

  module _ (env : Env) (p : Platform) where
    -- persistSession
    abbrev pub persist_session : Session → Step Q (Unit {0})
    persist_session session =
        transaction env (upsert_push_sdk_session (persistent_state p.sha256_sum session))

  module _ (env : Env) where
    abbrev pub transition : Terminal → String → Activity → Step Q Activity
    transition terminal status activity =
        transaction env (transition_terminal_state terminal.serial_number status none activity)

    abbrev pub delete_session : Terminal → Step Q (Unit {0})
    delete_session terminal = transaction env (delete_push_sdk_session terminal.serial_number)

    -- removeSession
    abbrev pub remove_session : Terminal → Step Q (Unit {0})
    remove_session terminal = do delete_session terminal; forget terminal.push_sdk_serial

    -- recordGatewayActivity
    unfoldable pub record_activity : Activity → Step Q (Unit {0})
    record_activity activity = do
      stored ← transaction env (record_gateway_activity activity)
      publish stored
