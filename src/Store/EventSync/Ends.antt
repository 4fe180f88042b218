-- ===== src/Store/EventSync/Ends.antt =====
-- The pages of one search, one after another.
use face_recognition_proxy.Prelude.{ℕ, zero, suc, ◌≡◌, ◌≤◌, ◌<◌, Option, String, Bytes, arith}
use face_recognition_proxy.Result.{ok}
use face_recognition_proxy.AccessControl.{Readers}
use face_recognition_proxy.AccessControl.Retained.{more}
use face_recognition_proxy.Store.EventSync.Pages.{PageAnswer, read_page}
use face_recognition_proxy.Store.EventSync.Reading.{Advances, read_page-IsRead}
use face_recognition_proxy.Store.EventSync.Tables.{SyncRun}

module _ (r : Readers) (random : ℕ → ℕ → Option Bytes) (gateway_location : String) where
  -- A search from its first page: how many pages have asked for another, and the position asked for.
  pub data Search (uuid : String) : ℕ → ℕ → Type 0 where
    begin : Search uuid zero zero
    page :
        {n position : ℕ} (now : ℕ) (run : SyncRun) (command_uuid : String) (source : Bytes)
        (a : PageAnswer)
        → Search uuid n position
        → read_page r random gateway_location now uuid run position command_uuid source ≡ ok a
        → a.answer.response_status ≡ more
        → Search uuid (suc n) a.next

  Advances-more :
      (a : PageAnswer) (position : ℕ)
      → a.answer.response_status ≡ more
      → Advances a.answer.response_status position a.next a.answer.total_matches
      → (position < a.next) × (a.next < a.answer.total_matches)
  Advances-more a position is_more moves = rw is_more at moves

  -- A search ends: when n pages of a run have been read that ask for another page, each at the
  -- position that the one before asked for, n is at most the position reached, and the position
  -- is at most 150000.
  pub Search-le :
      (uuid : String) (n position : ℕ)
      → Search uuid n position
      → (n ≤ position) × (position ≤ 150_000)
  Search-le uuid n position begin = omega arith
  Search-le uuid n position
        (page {n = m} {position = p} now run command_uuid source a before read is_more) =
      let (few, below) = Search-le uuid m p before in
      let (_, _, _, _, limit, moves) =
        read_page-IsRead r random gateway_location now uuid run p command_uuid source a read in
      let (up, under) = Advances-more a p is_more moves in omega arith
