-- ===== src/Examples/Sessions.antt =====
-- The sessions of one terminal.
use face_recognition_proxy.Prelude.{
  ◌≡◌, ◌≢◌, refl, false, some, [], ◌∷◌, String, inl, arith, Bytes, replicate,
}
use face_recognition_proxy.Prelude.Table.{get, put}
use face_recognition_proxy.Result.{ok, err}
use face_recognition_proxy.Config.{terminal_by_serial_number}
use face_recognition_proxy.Protocol.{invalid_session}
use face_recognition_proxy.Encoding.Hex
use face_recognition_proxy.Crypto.Random.{random_alpha_numeric, random_custom_challenge}
use face_recognition_proxy.PushSdk.Session.{Session, persistent_state}
use face_recognition_proxy.PushSdk.Session.Checkpoint.{read_back}
use face_recognition_proxy.PushSdk.Service.Exchange.{command_request, logout, exchange}
use face_recognition_proxy.PushSdk.Service.Exchange.Leave.{LoggedOut, logout-LoggedOut}
use face_recognition_proxy.PushSdk.Service.Exchange.Guard.{Proves, exchange_refused}
use face_recognition_proxy.PushSdk.Service.Exchange.Retry.{Exchanged, exchange-Exchanged}
use face_recognition_proxy.PushSdk.Service.Maintenance.{maintain_terminal, restore_session}
use face_recognition_proxy.PushSdk.Service.Maintenance.Idle.{
  MaintainOutcome, maintain_terminal-authenticated,
}
use face_recognition_proxy.PushSdk.Service.Maintenance.Recovery.{restore_session-persistent_state}
use face_recognition_proxy.Examples.Data.{
  door, sample_config, sample_platform, sample-IsSha256, waiting, live, steady, no_queues,
  no_queues-QueueLaws, world_of, poll,
}

not_logout : command_request ≢ logout
not_logout h = cc

found : (session : Session) → get "PS-1" (world_of session).sessions ≡ some session
unfolding get
found session = refl

exchange-Exchanged_example :
    Exchanged no_queues no_queues-QueueLaws steady sample_platform poll command_request not_logout
      live
      (world_of live)
      (exchange no_queues steady sample_platform door command_request poll (world_of live))
exchange-Exchanged_example =
    exchange-Exchanged no_queues no_queues-QueueLaws steady sample_platform poll command_request
      not_logout live (world_of live) (found live)

logout-LoggedOut_example :
    LoggedOut no_queues no_queues-QueueLaws steady sample_platform poll live
      (world_of live)
      (exchange no_queues steady sample_platform door logout poll (world_of live))
logout-LoggedOut_example =
    logout-LoggedOut no_queues no_queues-QueueLaws steady sample_platform poll live (world_of live)
      (found live)

-- A poll before the login proves nothing.
unproved :
    (session : Session)
    → get "PS-1" (world_of waiting).sessions ≡ some session
    → ¬ Proves sample_platform door poll session
unfolding get
unproved session e (logged_in, _) = ground arith

exchange_refused_example :
    (reason : String) × (exchange no_queues steady sample_platform door command_request poll
        (world_of waiting)
      ≡ (err (invalid_session reason), world_of waiting))
exchange_refused_example =
    exchange_refused sample_platform door poll no_queues steady command_request (world_of waiting)
      unproved

maintain_terminal-authenticated_example :
    MaintainOutcome steady sample_platform door live 60_000_000_006
      (world_of live)
      (maintain_terminal steady sample_platform door 60_000_000_006 false (world_of live))
maintain_terminal-authenticated_example =
    maintain_terminal-authenticated steady sample_platform door live 60_000_000_006 (world_of live)
      (found live) refl

configured : terminal_by_serial_number sample_config "DS-1" ≡ some door
unfolding terminal_by_serial_number
configured = refl

restore_session-persistent_state_example :
    restore_session steady sample_platform sample_config 10
      (persistent_state sample_platform.sha256_sum live)
      (world_of waiting)
    ≡ (
      ok tt,
      record (world_of waiting) {
        sessions = put "PS-1" (read_back live) (world_of waiting).sessions;
      },
    )
restore_session-persistent_state_example =
    restore_session-persistent_state sample_platform sample-IsSha256 steady sample_config 10
      (world_of waiting) live (refl, refl, refl, refl) (inl refl) configured

abbrev zero_letters : Bytes
zero_letters = replicate 64 b'0'

letters_read : random_alpha_numeric 64 (replicate 64 0 ∷ []) ≡ some zero_letters
unfolding random_alpha_numeric
letters_read = refl

challenge_read : random_custom_challenge (replicate 32 0 ∷ []) ≡ some zero_letters
unfolding random_custom_challenge Hex.encode
challenge_read = refl
