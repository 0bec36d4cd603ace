-- ===== src/Callbacks/Frame.antt =====
-- The part of `nghttp2_frame` that the handlers read.
use xmlhttp_request.Prelude.{true, false, Bool, Bytes, List, ℕ, ◌%◌, ◌==◌}

pub data FrameType : Type 0 where
  data_frame headers priority rst_stream settings push_promise ping goaway : FrameType
  window_update continuation altsvc origin : FrameType
  unknown : ℕ → FrameType

-- `nghttp2_headers_category`.
pub data Category : Type 0 where
  request response push_response headers_category : Category

pub record Frame : Type 0 where
  pub type : FrameType
  pub stream_id : ℕ
  pub flags : ℕ
  pub cat : Category
  pub promised_stream_id : ℕ
  pub nva : List (Bytes × Bytes)

-- `cat == NGHTTP2_HCAT_HEADERS`.
abbrev pub is_trailer : Category → Bool
is_trailer Category.headers_category = true
is_trailer _ = false

-- `flags & NGHTTP2_FLAG_END_STREAM`, the lowest bit.
abbrev pub ends_stream : Frame → Bool
ends_stream frame = frame.flags % 2 == 1

-- `flags & NGHTTP2_NV_FLAG_NO_INDEX`, the lowest bit.
abbrev pub no_index : ℕ → Bool
no_index flags = flags % 2 == 1
