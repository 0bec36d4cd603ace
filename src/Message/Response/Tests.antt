-- ===== src/Message/Response/Tests.antt =====
-- A response with a charset and one chunk.
use xmlhttp_request.Prelude.{[], ltb, negsuc, none, ◌^◌, codes, false, pos, refl, some, ◌∷◌, ◌≡◌}
use xmlhttp_request.Message.Response.{
  has_charset, Response, content_length, concat, text, Strings, set_content_length,
}
use xmlhttp_request.Message.Response.Laws.{total}

abbrev page : Response
page = record {
  content_length_ = 0;
  header_buffer_size_ = 0;
  status_code_ = pos 200;
  header_ =
      (codes "content-type", record { value = codes "text/html;charset=utf-8"; sensitive = false })
      ∷ [];
  data_ = codes "ab" ∷ [];
}

-- Strings of at most 2^62 - 1 bytes, for which there is always memory.
abbrev strings : Strings
strings = record {
  reserves = λ n. ltb n (2 ^ 62);
  appends = λ n chunks. ltb (total chunks) (2 ^ 62);
}

-- The text is there, and a length that is not a number makes `text()` throw.
page-text : text strings page ≡ some (record page { content_length_ = 2 }, codes "ab")
unfolding text content_length concat has_charset total
page-text = refl

broken-text : text strings (set_content_length page (negsuc 0)) ≡ none
unfolding text content_length concat has_charset total set_content_length
broken-text = refl

-- So does one that no string can have.
huge-text : text strings (record page { content_length_ = 2 ^ 62 }) ≡ none
unfolding text content_length concat has_charset total
huge-text = refl
