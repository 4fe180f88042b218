-- ===== src/Protocol.antt =====
-- The errors of internal/pushsdk/events.go and the status line that `protocolError` of
-- internal/pushsdk/service.go gives each.
use face_recognition_proxy.Prelude.{ℕ, String, string_eq, ◌==◌, if◌then◌else◌}

-- The reason is diagnostic; no response carries it.
pub record ProtocolError : Type 0 where
  pub status : ℕ
  pub code : String
  pub message : String
  pub reason : String

-- An error that a handler returns: one of the protocol's, or any other.
pub data Failure : Type 0 where
  protocol : ProtocolError → Failure
  internal : String → Failure

unfoldable pub bad_request : String → Failure
bad_request message = protocol (record { status = 400; code = ""; message = message; reason = "" })

unfoldable pub unprocessable : String → Failure
unprocessable message =
    protocol (record { status = 422; code = ""; message = message; reason = "" })

abbrev pub invalid_session_code : String
invalid_session_code = "0x0020000f"

abbrev pub invalid_session_message : String
invalid_session_message = "Invalid SessionID."

unfoldable pub invalid_session : String → Failure
invalid_session reason = protocol (record {
  status = 401;
  code = invalid_session_code;
  message = invalid_session_message;
  reason = reason;
})

unfoldable pub protocol_error : Failure → ℕ × String × String
protocol_error (protocol e) = (e.status, (if e.code == "" then "0xFFFFFFFF" else e.code), e.message)
protocol_error (internal _) = (500, "0xFFFFFFFF", "internal gateway error")

abbrev pub reason_of : Failure → String
reason_of (protocol e) = e.reason
reason_of (internal _) = ""
