-- ===== src/Callbacks/Headers/Laws.antt =====
-- What the header fields of a response leave in it.
use mathlib.Core.Option.{none-ne-some}
use xmlhttp_request.Prelude.{
  codes, refl, some, ◌≡◌, Bytes, [], arith, pos, take, ℕ, ◌++◌, ◌<◌, ◌^◌, ◌∷◌, ◌≢◌, ◌≤◌, Bool-cases,
  Option, Option-cases, ap, inl, inr, none, sym, ◌==◌, ◌∙◌, ==_iff,
}
use xmlhttp_request.Http2.Token.{lookup_token, hd__status, hd_content_length, hd_content_type}
use xmlhttp_request.Http2.Token.Laws.{lookup_token-eq-some_iff}
use xmlhttp_request.SessionUtil.Number.{utos, int64_max}
use xmlhttp_request.SessionUtil.Number.Print.{parse_uint-utos}
use xmlhttp_request.Message.Header.{find_field}
use xmlhttp_request.Message.Header.Laws.{
  IsSorted, values_of, find_field-emplace, values_of-emplace_self,
}
use xmlhttp_request.Message.Response.{Response, to_int, set_status_code, set_content_length}
use xmlhttp_request.Callbacks.Frame.{no_index}
use xmlhttp_request.Callbacks.Headers.{
  put_front, split_semicolon, remove_spaces, add_field, override_type, save_response, response_of,
  response_field,
}

lookup-status : lookup_token (codes ":status") ≡ some hd__status
lookup-status = (lookup_token-eq-some_iff (codes ":status") hd__status).1 refl

lookup-content_type : lookup_token (codes "content-type") ≡ some hd_content_type
lookup-content_type = (lookup_token-eq-some_iff (codes "content-type") hd_content_type).1 refl

lookup-content_length : lookup_token (codes "content-length") ≡ some hd_content_length
lookup-content_length = (lookup_token-eq-some_iff (codes "content-length") hd_content_length).1 refl

to_int_small : (n : ℕ) → n < 2 ^ 31 → to_int (pos n) ≡ pos n
to_int_small n h = ground arith

-- The header fields of a response: a status that is an int is read from its digits, and a length
-- that is an int64_t from its; each is also saved as a field of its name, behind those that are
-- there.
pub response_field_lem :
    (mime : Bytes) (flags n len : ℕ) (r : Response)
    → n < 2 ^ 31
    → len ≤ int64_max
    → IsSorted r.header_
    → ((response_field mime (codes ":status") (utos n) flags r).status_code_ ≡ pos n)
      × ((response_field mime (codes "content-length") (utos len) flags r).content_length_ ≡ len)
      × (values_of
            (codes ":status")
            (response_field mime (codes ":status") (utos n) flags r).header_
          ≡ values_of (codes ":status") r.header_
            ++ record { value = utos n; sensitive = no_index flags } ∷ [])
unfolding response_field response_of save_response add_field set_status_code set_content_length
response_field_lem mime flags n len r h k s = (
  rw (lookup-status, (parse_uint-utos n (omega arith)).1) (to_int_small n h),
  rw (lookup-content_length, (parse_uint-utos len k).1) (omega arith),
  rw lookup-status (
      values_of-emplace_self (codes ":status")
        (record { value = utos n; sensitive = no_index flags }) r.header_ s),
)

put_front-some :
    (c : ℕ) (rest : Option (Bytes × Bytes)) (a b : Bytes)
    → put_front c rest ≡ some (a, b)
    → (a' : Bytes) × (rest ≡ some (a', b)) × (a ≡ c ∷ a')
unfolding put_front
put_front-some c none a b h = absurd (none-ne-some _ h)
put_front-some c (some (a', b')) a b h =
    let e : ◌≡◌ {A = Option (Bytes × Bytes)} (some (c ∷ a', b')) (some (a, b)) = h in (a', cc, cc)

semicolon_first :
    (mime a b : Bytes)
    → ◌≡◌ {A = Option (Bytes × Bytes)} (some ([], mime)) (some (a, b))
    → b';' ∷ mime ≡ a ++ b';' ∷ b
semicolon_first mime [] b h = cc
semicolon_first mime (x ∷ a) b h = cc

split_semicolon_sound :
    (mime a b : Bytes) → split_semicolon mime ≡ some (a, b) → mime ≡ a ++ b';' ∷ b
unfolding split_semicolon
split_semicolon_sound [] a b h = absurd (none-ne-some _ h)
split_semicolon_sound (c ∷ mime) a b h = elim (Bool-cases (c == b';')) [
  | inl e ↦ ap (λ x. x ∷ mime) ((==_iff c b';').0 e) ∙ semicolon_first mime a b (rw e at h)
  | inr e ↦
      let (a', q, p) = put_front-some c (split_semicolon mime) a b (rw e at h) in
      rw p (ap (◌∷◌ c) (split_semicolon_sound mime a' b q))
]

override-kept :
    (mime : Bytes) (flags : ℕ) (r : Response)
    → IsSorted r.header_
    → take 13 mime ≢ codes "content-type;"
    → find_field (codes "content-type") (override_type mime flags r).header_
      ≡ find_field (codes "content-type") r.header_
unfolding override_type add_field
override-kept mime flags r s ne = elim (Option-cases (split_semicolon mime)) [
  | inl e ↦ rw (e, override_type) refl
  | inr ((a, b), e) ↦
      rw (e, override_type)
        ((find_field-emplace a (codes "content-type")
          (record { value = remove_spaces b; sensitive = no_index flags }) r.header_ s
          (λ same. ne (
            ap (take 13)
              (split_semicolon_sound mime a b e ∙ ap (λ x. x ++ b';' ∷ b) (sym same))))).1)
]

-- With an overridden MIME type the value that the server sent for the content type is dropped. What
-- is saved instead, if the MIME type has a semicolon, is a field named by what stands before it, so
-- that no value is added to the content type, unless that name is itself the name of this field.
pub response_field-override :
    (mime value : Bytes) (flags : ℕ) (r : Response)
    → IsSorted r.header_
    → mime ≢ []
    → take 13 mime ≢ codes "content-type;"
    → find_field
        (codes "content-type")
        (response_field mime (codes "content-type") value flags r).header_
      ≡ find_field (codes "content-type") r.header_
unfolding response_field response_of
response_field-override [] value flags r s m ne = absurd (m refl)
response_field-override (c ∷ mime) value flags r s m ne =
    rw lookup-content_type (override-kept (c ∷ mime) flags r s ne)
