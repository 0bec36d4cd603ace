-- ===== src/Callbacks/Headers/Tests.antt =====
-- Header fields that come in for an empty response.
use xmlhttp_request.Prelude.{[], ap, arith, codes, get_or, minus_one, pos, ◌++◌, ◌∷◌, ◌≡◌}
use xmlhttp_request.SessionUtil.Number.{utos}
use xmlhttp_request.Message.Header.{find_field}
use xmlhttp_request.Message.Header.Laws.{values_of}
use xmlhttp_request.Message.Response.{Response}
use xmlhttp_request.Callbacks.Frame.{no_index}
use xmlhttp_request.Callbacks.Headers.{response_field}
use xmlhttp_request.Callbacks.Headers.Laws.{response_field_lem, response_field-override}

abbrev blank : Response
blank = record {
  content_length_ = 0;
  header_buffer_size_ = 0;
  status_code_ = minus_one;
  header_ = [];
  data_ = [];
}

response_field_lem_example :
    ((response_field [] (codes ":status") (utos 200) 0 blank).status_code_ ≡ pos 200)
    × ((response_field [] (codes "content-length") (utos 12) 0 blank).content_length_ ≡ 12)
    × (values_of (codes ":status") (response_field [] (codes ":status") (utos 200) 0 blank).header_
        ≡ values_of (codes ":status") blank.header_
          ++ record { value = utos 200; sensitive = no_index 0 } ∷ [])
response_field_lem_example = response_field_lem [] 0 200 12 blank (omega arith) (omega arith) tt

response_field-override_example :
    find_field
      (codes "content-type")
      (response_field
        (codes "text/plain; q")
        (codes "content-type")
        (codes "text/html")
        0
        blank).header_
    ≡ find_field (codes "content-type") blank.header_
response_field-override_example =
    response_field-override (codes "text/plain; q") (codes "text/html") 0 blank tt (λ e. cc)
      (λ e. omega (arith, ap (λ s. get_or s 0 0) e))
