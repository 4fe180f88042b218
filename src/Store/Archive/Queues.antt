-- ===== src/Store/Archive/Queues.antt =====
-- The store behind the service: the command queue with the synchronisation of retained events and the
-- archive of reported ones.
use face_recognition_proxy.Prelude.{ℕ, Option, String, Bytes}
use face_recognition_proxy.AccessControl.{Readers}
use face_recognition_proxy.Delivery.Types.{EventMessage}
use face_recognition_proxy.PushSdk.Service.Exchange.Effects.{QueueLaws}
use face_recognition_proxy.PushSdk.Service.Types.{QueueStore}
use face_recognition_proxy.Store.Archive.Batch.{insert_device_event_batch-Retained}
use face_recognition_proxy.Store.Archive.Insert.{insert_device_event_batch}
use face_recognition_proxy.Store.EventSync.Closed.{event_sync-SyncLaws}
use face_recognition_proxy.Store.EventSync.Complete.{event_sync}
use face_recognition_proxy.Store.IsapiCommands.Results.{command_queues, command_queues-QueueLaws}

module _ (r : Readers) (random : ℕ → ℕ → Option Bytes) (gateway_location : String)
    (marshal : EventMessage → Bytes) (push_sdk_serial : String → String) where
  abbrev gateway_queues : QueueStore
  gateway_queues =
      command_queues (event_sync r random gateway_location)
        (λ events now. insert_device_event_batch r marshal push_sdk_serial now events)

  -- The store behind the service - the command queue with the synchronisation of retained events,
  -- and the archive of reported events - is a queue store that writes no session checkpoint, so
  -- that the theorems on the exchange and the logout hold for it.
  gateway_queues-QueueLaws : QueueLaws gateway_queues
  gateway_queues-QueueLaws =
      command_queues-QueueLaws (event_sync r random gateway_location)
        (λ events now. insert_device_event_batch r marshal push_sdk_serial now events)
        (event_sync-SyncLaws r random gateway_location)
        (λ events now db db' a h.
          (insert_device_event_batch-Retained r marshal push_sdk_serial now events db db' a h).5)
