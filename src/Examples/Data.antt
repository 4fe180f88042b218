-- ===== src/Examples/Data.antt =====
-- A terminal, its sessions, a store without queues, and a platform whose hash depends on the length
-- of its input only and whose cipher changes nothing.
use face_recognition_proxy.Prelude.{
  ℕ, ◌+◌, ◌%◌, ◌<◌, refl, zero, suc, true, false, none, some, [], ◌∷◌, Bytes, length, replicate,
  codes, arith, All, length-replicate,
}
use face_recognition_proxy.Result.{ok}
use face_recognition_proxy.Encoding.Hex
use face_recognition_proxy.Config.{Terminal, Config}
use face_recognition_proxy.PushSdk.Envelope.RoundTrip.{IsBlockCipher}
use face_recognition_proxy.PushSdk.Service.Exchange.Effects.{QueueLaws}
use face_recognition_proxy.PushSdk.Service.Maintenance.Recovery.{IsSha256}
use face_recognition_proxy.PushSdk.Service.Types.{QueueStore, Request}
use face_recognition_proxy.PushSdk.Session.{Session, plaintext, key_derivation_iterations}
use face_recognition_proxy.PushSdk.Wire.{
  pos, value, EventItem, EventEnvelope, CommandResultItem, CommandResultEnvelope, Platform, text,
}
use face_recognition_proxy.PushSdk.World.{Env, World}

abbrev pub door : Terminal
door = record {
  serial_number = "DS-1";
  push_sdk_serial = "PS-1";
  username = "admin";
  password_environment_variable = "DOOR_PASSWORD";
  password = "secret";
  login_password_digest = "sha256";
  security_version = 3;
  command_interval_seconds = 10;
  error_delay_seconds = 30;
}

abbrev pub sample_config : Config
sample_config = record {
  listen_address = ":8080";
  database_url = "postgres://";
  terminals_file = "terminals.json";
  admin_username = "admin";
  admin_password = "secret";
  web_dir = "web";
  migrations_dir = "migrations";
  session_ttl = 1;
  metrics_cidrs = "127.0.0.1/32" ∷ [];
  terminals = door ∷ [];
  delivery_signing_keys = [];
}

abbrev pub opened : EventItem
opened = record { uuid = "event-1"; data_format = "jsonData"; payload = some "e30=" }

abbrev pub unlocked : CommandResultItem
unlocked = record {
  uuid = "00000000-0000-4000-8000-000000000000";
  data_format = some (text "jsonData");
  payload = some "e30=";
}

abbrev pub event_envelope : EventEnvelope
event_envelope = record { event_num = some (pos 1); event_list = some (opened ∷ []) }

abbrev pub result_envelope : CommandResultEnvelope
result_envelope = record { command_num = some (pos 1); command_list = some (unlocked ∷ []) }

abbrev pub sample_platform : Platform
sample_platform = record {
  sha256_sum = λ input. replicate 32 (length input % 256);
  pbkdf2_key = λ digest secret salt iterations size. replicate size 7;
  cbc_encrypt = λ key iv plain. plain;
  cbc_decrypt = λ key iv encrypted. encrypted;
  parse_media_type = λ content_type. some content_type;
  parse_query = λ query. [];
  decode_auth_info = λ body. value (pos 3 ∷ []);
  decode_login = λ body. value (record { username = "admin"; login_password = "admin" });
  decode_events = λ body. value event_envelope;
  decode_results = λ body. value result_envelope;
  base64_error = λ body. "illegal base64 data";
}

pub replicate-IsByte : (n a : ℕ) → a < 256 → All Hex.IsByte (replicate n a)
replicate-IsByte zero a h = tt
replicate-IsByte (suc n) a h = (h, replicate-IsByte n a h)

pub sample-IsSha256 : IsSha256 sample_platform.sha256_sum
sample-IsSha256 input = (
  length-replicate 32 (length input % 256),
  replicate-IsByte 32 (length input % 256) (omega arith),
)

pub sample-IsBlockCipher : IsBlockCipher sample_platform
sample-IsBlockCipher = record {
  gives_bytes = λ key iv plain bytes. bytes;
  keeps_length = λ key iv plain whole. refl;
  undone = λ key iv plain whole. refl;
}

abbrev pub hex_64 : Bytes
hex_64 = codes "00112233445566778899aabbccddeeff00112233445566778899aabbccddeeff"

-- A session whose terminal has not logged in yet, and one that is logged in.
abbrev pub waiting : Session
waiting = record {
  terminal = door;
  salt = hex_64;
  login_challenge = hex_64;
  next_challenge = [];
  iterations = key_derivation_iterations;
  payload_mode = plaintext;
  created_at = 5;
  next_challenge_at = none;
  authenticated = false;
  online = false;
}

abbrev pub live : Session
live = record waiting {
  next_challenge = hex_64;
  next_challenge_at = some 6;
  authenticated = true;
  online = true;
}

abbrev pub steady : Env
steady = record {
  store_fails = λ i. false;
  now = λ i. 10 + i;
  entropy = λ i. replicate 32 255 ∷ [];
}

abbrev pub no_queues : QueueStore
no_queues = record {
  Q = Unit;
  claim_isapi_commands = λ serial limit now db. ok (db, ([], []));
  complete_isapi_commands = λ serial results now db. ok (db, ([], false));
  insert_device_event_batch = λ events now db. ok (db, []);
  expire_overdue_isapi_commands = λ now db. ok (db, []);
}

pub no_queues-QueueLaws : QueueLaws no_queues
no_queues-QueueLaws = record {
  claim_keeps = λ serial n now db db' a h. ground arith;
  complete_keeps = λ serial results now db db' a h. ground arith;
  insert_keeps = λ events now db db' a h. ground arith;
}

abbrev pub world_of : Session → World (Unit {0})
world_of session = record {
  sessions = ("PS-1", session) ∷ [];
  db = record {
    terminals =
        (
          "DS-1",
          record {
            connection_status = "online";
            last_seen_at = none;
            last_error = none;
            updated_at = 0;
          },
        )
        ∷ [];
    pushsdk_sessions = [];
    gateway_activities = [];
    queues = tt;
  };
  metrics = record {
    requests = [];
    events_received = [];
    events_persisted = 0;
    events_rejected = 0;
    active_up = 1;
    active_down = 0;
  };
  published = [];
  asked = 0;
}

-- The header proves the challenge of `live`: the hash of 128 bytes.
abbrev pub poll : Request
poll = record {
  method = "POST";
  path = "/iot/PS-1/global/0-global/model/service/operate/PUSH/CommandRequest";
  raw_query = "";
  content_type = "application/json";
  custom_auth = "8080808080808080808080808080808080808080808080808080808080808080";
  body = [];
}
