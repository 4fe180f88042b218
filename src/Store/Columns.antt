-- ===== src/Store/Columns.antt =====
-- The columns of db/schema.sql that a projection goes into: a number that INTEGER cannot hold refuses
-- the row. JSON numbers are int64 already, which BIGINT holds.
use face_recognition_proxy.Prelude.{ℕ, Bool, true, ◌&&◌, Option, none, some, ltb}
use face_recognition_proxy.PushSdk.Wire.{ℤ, pos, negsuc}
use face_recognition_proxy.AccessControl.{Projection}

abbrev integer_limit : ℕ
integer_limit = 2_147_483_648

-- An INTEGER that may be NULL.
abbrev is_integer : Option ℤ → Bool
is_integer none = true
is_integer (some (pos n)) = ltb n integer_limit
is_integer (some (negsuc n)) = ltb n integer_limit

unfoldable pub fits_columns : Projection → Bool
fits_columns p =
    ltb p.sub_event_type integer_limit
    && is_integer p.channel_id
    && is_integer p.active_post_count
    && is_integer p.card_reader_number
    && is_integer p.door_number
    && is_integer p.pictures_number
