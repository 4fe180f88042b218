-- ===== src/Delivery/Worker.antt =====
-- `Signature`, `send` and the loop of `Run` of internal/delivery/worker.go.
pub mod Outcome
pub mod Rounds
use face_recognition_proxy.Prelude.{
  ℕ, zero, suc, ◌+◌, Bool, true, false, not, ◌&&◌, ◌||◌, Option, none, some, List, [], ◌∷◌, ◌++◌,
  String, Bytes, utf8, ltb, leb, nat_eq, ◌==◌, if◌then◌else◌, length, take,
}
use face_recognition_proxy.Prelude.Table.{Table, get}
use face_recognition_proxy.Encoding.Hex
use face_recognition_proxy.Delivery.Backoff.{retry_delay}
use face_recognition_proxy.Delivery.Receipt.{JsonValue, valid_receipt}
use face_recognition_proxy.Delivery.Queue.{claim_event_delivery, finish_event_delivery}
use face_recognition_proxy.Delivery.Types.{
  Status, pending, failed, delivered, EventDelivery, EventMessage, Deliveries,
}

pub record DeliveryRequest : Type 0 where
  pub url : String
  pub key_id : String
  pub timestamp : Bytes
  pub signature : Bytes
  pub body : Bytes

-- A response with what the body reader delivers before it ends, or `none` if it breaks off.
pub data Answer : Type 0 where
  no_answer : Answer
  answer : ℕ → Option Bytes → Answer

-- The HTTP client, HMAC and JSON.
pub record Network : Type 0 where
  pub hmac_sha256 : Bytes → Bytes → Bytes
  pub valid_url : String → Bool
  pub post : DeliveryRequest → Answer
  pub decode_message : Bytes → Option EventMessage
  pub read_object : Bytes → Option (List (String × JsonValue) × Bool)

module _ (net : Network) where
  unfoldable pub signature : String → Bytes → Bytes → Bytes
  signature key timestamp body =
      Hex.encode (net.hmac_sha256 (utf8 key) ((timestamp ++ 10 ∷ []) ++ body))

  abbrev pub attachment_id_of : EventDelivery → String
  attachment_id_of d = if d.attachment then "Picture" else ""

  -- `code == 408 || code == 429 || code >= 500`
  abbrev pub is_unavailable : ℕ → Bool
  is_unavailable code = code == 408 || code == 429 || leb 500 code

  -- `io.LimitReader(response.Body, 4097)`
  abbrev pub limited : Option Bytes → Option Bytes
  limited none = none
  limited (some bytes) = some (take 4097 bytes)

  unfoldable pub receipt_stored : EventDelivery → Bytes → Bool
  receipt_stored d body = elim (net.decode_message d.body) [
    | none ↦ false
    | some source ↦
        valid_receipt net.read_object body source.event_id source.schema_version
          (attachment_id_of d)
  ]

  abbrev pub judged : EventDelivery → ℕ → Option Bytes → Status × ℕ × String
  judged d code none = (failed, code, "invalid_receipt")
  judged d code (some body) =
      if ltb 4096 (length body)
      then (failed, code, "invalid_receipt")
      else if not (receipt_stored d body)
      then (failed, code, "invalid_receipt")
      else (delivered, code, "")

  abbrev pub on_answer : EventDelivery → Answer → Status × ℕ × String
  on_answer d no_answer = (pending, 0, "network_error")
  on_answer d (answer code body) =
      if is_unavailable code
      then (pending, code, "receiver_unavailable")
      else if not (code == 200)
      then (failed, code, "receiver_rejected")
      else judged d code (limited body)

  abbrev pub request_for : String → Bytes → EventDelivery → DeliveryRequest
  request_for key timestamp d = record {
    url = d.endpoint_url;
    key_id = d.signing_key_id;
    timestamp = timestamp;
    signature = signature key timestamp d.body;
    body = d.body;
  }

  unfoldable pub send : Table String → Bytes → EventDelivery → Status × ℕ × String
  send keys timestamp d = elim (get d.signing_key_id keys) [
    | none ↦ (failed, 0, "signing_key_unavailable")
    | some key ↦
        if not (net.valid_url d.endpoint_url)
        then (failed, 0, "invalid_destination")
        else on_answer d (net.post (request_for key timestamp d))
  ]

  module _ (keys : Table String) (now : ℕ → ℕ) (timestamp : ℕ → Bytes) where
    -- One delivery: the claim, the request, the result; `i` numbers the questions of the clock.
    abbrev pub deliver : ℕ → EventDelivery → Deliveries → Deliveries
    deliver i d db =
        let (status, code, failure) = send keys (timestamp i) d in
        (finish_event_delivery (now i) d status code failure (now i + retry_delay d.attempts) db).0

    -- A tick of the loop: at most `rounds` deliveries, 25 in the source. A result that cannot be saved
    -- is only logged.
    unfoldable pub tick : ℕ → ℕ → Deliveries → Deliveries
    tick zero i db = db
    tick (suc rounds) i db =
        let (db', claimed) = claim_event_delivery (now i) db in
        elim claimed [ none ↦ db' | some d ↦ tick rounds (i + 1) (deliver i d db') ]

  abbrev pub rounds_per_tick : ℕ
  rounds_per_tick = 25
