-- ===== src/PushSdk/Service/AuthInfo/Start.antt =====
-- `authInfo` of internal/pushsdk/service.go, branch by branch.
use face_recognition_proxy.Prelude.{ℕ, ◌+◌, ◌≡◌, ◌⊎◌, Option, none, some, Bytes}
use face_recognition_proxy.Prelude.Table.{Table, get}
use face_recognition_proxy.Result.{Result, ok, err}
use face_recognition_proxy.Config.{Terminal}
use face_recognition_proxy.Protocol.{Failure}
use face_recognition_proxy.PushSdk.Session.{Session, PayloadMode, persistent_state}
use face_recognition_proxy.PushSdk.Service.AuthInfo.{new_session, was_online, auth_info_data}
use face_recognition_proxy.PushSdk.Service.Exchange.Effects.{one_if}
use face_recognition_proxy.PushSdk.Service.Steps.{event, negotiation_fields}
use face_recognition_proxy.PushSdk.Service.Types.{Reply, auth_info}
use face_recognition_proxy.PushSdk.Wire.{Platform}
use face_recognition_proxy.PushSdk.World.{Env, Metrics, World}
use face_recognition_proxy.PushSdk.World.Cases.{Fails}
use face_recognition_proxy.Store.Tables.{Activity, PushSdkSession, Db}
use face_recognition_proxy.Store.Terminals.{upsert_push_sdk_session, delete_push_sdk_session}
use face_recognition_proxy.Store.Terminals.Effects.{status_of}

abbrev started_event : Terminal → PayloadMode → Activity
started_event terminal mode =
    event "pushsdk.auth_info" terminal.serial_number "terminal started authentication"
      (negotiation_fields mode terminal)

module _ (terminal : Terminal) where
  -- The reply names the session that is held and saved.
  abbrev pub IsHeld : {Q : Type 0} → (Bytes → Bytes) → Reply → World Q → Session → Type 0
  IsHeld sha256 reply w session =
      (reply.body ≡ auth_info (auth_info_data session))
      × (get terminal.push_sdk_serial w.sessions ≡ some session)
      × (get terminal.serial_number w.db.pushsdk_sessions ≡ some (persistent_state sha256 session))

  -- The checkpoint of the session that was there before; none if there was no session.
  abbrev pub IsSaved : {Q : Type 0} → (Bytes → Bytes) → Option Session → World Q → Type 0
  IsSaved sha256 none w = get terminal.serial_number w.db.pushsdk_sessions ≡ none
  IsSaved sha256 (some previous) w =
      get previous.terminal.serial_number w.db.pushsdk_sessions
      ≡ some (persistent_state sha256 previous)

module _ {Q : Type 0} (env : Env) (p : Platform) (terminal : Terminal) where
  -- The transaction that puts the checkpoint back.
  abbrev pub RestorationFails : ℕ → Db Q → Option Session → Type 0
  RestorationFails k db none = Fails env k db (delete_push_sdk_session terminal.serial_number)
  RestorationFails k db (some previous) =
      Fails env k db (upsert_push_sdk_session (persistent_state p.sha256_sum previous))

  -- Nothing was written; or the checkpoint was, and is put back with the session; or the question
  -- that should put it back, number k, failed, and the fresh session stands with its checkpoint.
  abbrev pub IsPutBack : Option Session → Table PushSdkSession → ℕ → World Q → Type 0
  IsPutBack previous checkpoints k w =
      ((get terminal.push_sdk_serial w.sessions ≡ previous) × (w.db.pushsdk_sessions ≡ checkpoints))
      ⊎ (((get terminal.push_sdk_serial w.sessions ≡ previous)
            × IsSaved terminal p.sha256_sum previous w)
          ⊎ ((mode : PayloadMode) × (salt : Bytes) × (challenge : Bytes) × (now : ℕ) × (get
                  terminal.push_sdk_serial w.sessions
                ≡ some (new_session terminal mode salt challenge now))
              × (get terminal.serial_number w.db.pushsdk_sessions
                  ≡ some (
                      persistent_state p.sha256_sum (new_session terminal mode salt challenge now)))
              × (w.asked ≡ k + 1)
              × RestorationFails k w.db previous))

  abbrev pub Started :
      Option Session → Table PushSdkSession → Metrics → ℕ → Result Failure Reply × World Q → Type 0
  Started previous checkpoints m k (ok reply, w) =
      ((mode : PayloadMode) × (salt : Bytes) × (challenge : Bytes) × (now : ℕ) × IsHeld terminal
          p.sha256_sum reply w (new_session terminal mode salt challenge now))
      × (status_of (get terminal.serial_number w.db.terminals) ≡ "authenticating")
      × (w.metrics.active_up ≡ m.active_up)
      × (w.metrics.active_down ≡ m.active_down + one_if (was_online previous))
  Started previous checkpoints m k (err _, w) =
      IsPutBack previous checkpoints k w
      × (w.metrics.active_up ≡ m.active_up)
      × (w.metrics.active_down ≡ m.active_down)
