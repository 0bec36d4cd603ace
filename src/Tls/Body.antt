-- ===== src/Tls/Body.antt =====
-- source/httptlssession.cpp: `reciveCallback` of `submit`, which hands the body of a request to
-- nghttp2 piece by piece.
pub mod Laws
pub mod Tests
use xmlhttp_request.Prelude.{
  Bool, Bytes, List, [], drop, false, if◌then◌else◌, length, ltb, take, true, ℕ, ◌∷◌,
}

-- `std::min`.
abbrev pub min : ℕ → ℕ → ℕ
min a b = if ltb b a then b else a

-- The bytes that go into a buffer of `len` bytes, the body that is left, and whether
-- NGHTTP2_DATA_FLAG_EOF is set.
pub recive_callback : Bytes → ℕ → Bytes × Bytes × Bool
recive_callback body len =
    let body_len = min (length body) len in
    if ltb 0 body_len then (take body_len body, drop body_len body, false) else ([], body, true)

-- The calls that nghttp2 makes, with buffers of these sizes, up to the end of the data.
pub read_all : Bytes → List ℕ → List Bytes × Bytes × Bool
unfolding recive_callback
read_all body [] = ([], body, false)
read_all body (len ∷ sizes) =
    let (chunk, body', eof) = recive_callback body len in
    let (chunks, left, ended) = read_all body' sizes in
    if eof then ([], body', true) else (chunk ∷ chunks, left, ended)
