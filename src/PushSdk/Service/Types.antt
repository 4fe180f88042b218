-- ===== src/PushSdk/Service/Types.antt =====
-- Requests, response bodies, and the queue side of the store as internal/pushsdk/service.go sees it.
use face_recognition_proxy.Prelude.{ℕ, Bool, String, Bytes, List, Option}
use face_recognition_proxy.Result.{Result}
use face_recognition_proxy.Store.Tables.{Activity, Db}
use face_recognition_proxy.PushSdk.Commands.{
  IsapiCommandDelivery, IsapiCommandResult, CommandRequestItem,
}
use face_recognition_proxy.PushSdk.Envelope.{EncryptionParameters}
use face_recognition_proxy.PushSdk.Events.{NewDeviceEvent}
use face_recognition_proxy.PushSdk.Session.{Session}

-- An absent header is the empty text, as Header.Get gives it.
pub record Request : Type 0 where
  pub method : String
  pub path : String
  pub raw_query : String
  pub content_type : String
  pub custom_auth : String
  pub body : Bytes

pub record AuthInfoResponseData : Type 0 where
  pub challenge : Bytes
  pub salt : Bytes
  pub iterations : ℕ
  pub is_data_encrypted : Bool
  pub security_versions : List ℕ

-- The bodies that the handlers answer with; all but the first carry `succeeded()`.
pub data Body : Type 0 where
  auth_info : AuthInfoResponseData → Body
  logged_in : ℕ → ℕ → Body
  commands : List CommandRequestItem → Body
  command_results : Bool → Body
  events : List String → Body
  logged_out : Body
  failed : ℕ → String → String → Body

-- protocolResponse with the encryption parameters beside it; no challenge is the empty one.
pub record Reply : Type 0 where
  pub body : Body
  pub challenge : Bytes
  pub session : Option Session
  pub params : Option EncryptionParameters

pub record DeviceEventPersistence : Type 0 where
  pub inserted : Bool
  pub activity : Activity

-- The command and event transactions of internal/store that the service calls.
pub record QueueStore : Type 1 where
  pub Q : Type 0
  pub claim_isapi_commands :
      String → ℕ → ℕ → Db Q → Result String (Db Q × (List IsapiCommandDelivery × List Activity))
  pub complete_isapi_commands :
      String → List IsapiCommandResult → ℕ → Db Q → Result String (Db Q × (List Activity × Bool))
  pub insert_device_event_batch :
      List NewDeviceEvent → ℕ → Db Q → Result String (Db Q × List DeviceEventPersistence)
  pub expire_overdue_isapi_commands : ℕ → Db Q → Result String (Db Q × List Activity)
