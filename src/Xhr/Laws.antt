-- ===== src/Xhr/Laws.antt =====
-- The life of a request.
use xmlhttp_request.Prelude.{
  refl, true, ◌≡◌, Option-cases, inl, inr, All, Bool, Bytes, IsByte, List, [], arith, codes, false,
  ltb, some, ◌++◌, ◌∙◌, ◌∷◌, All-append,
}
use xmlhttp_request.Js.Base64.Encode.{base64, encode_from_array-base64}
use xmlhttp_request.Message.Header.Laws.{IsSorted, values_of, values_of-emplace_self}
use xmlhttp_request.Session.{ReadyState}
use xmlhttp_request.Tls.Method.{to_upper}
use xmlhttp_request.Xhr.Uri.{Regex, Elements, proccess_uri}
use xmlhttp_request.Xhr.Kept.{IsProgress, step-Kept, prepare-none, prepare-some}
use xmlhttp_request.Xhr.{
  Xhr, is_opened, init_callbacks, setup, setup_timer, on_state, open_session, open_request,
  set_request_header, open_user, Op, step, run,
}

-- Once a request is opened, it stays opened, and its timeout and its timer stay as they were then,
-- whichever of open, in each of its forms, timeout, setRequestHeader, setOnStateChangedCallback and
-- send, in each of its forms, are called then, in whatever order, and whatever progress and
-- responses the session reports.
pub run-opened :
    (regex : Regex) (x : Xhr) (ops : List Op)
    → is_opened x.ready_state ≡ true
    → All IsProgress ops
    → (is_opened (run regex x ops).ready_state ≡ true)
      × ((run regex x ops).timeout ≡ x.timeout)
      × ((run regex x ops).has_timer ≡ x.has_timer)
unfolding run
run-opened regex x [] o p = (o, refl, refl)
run-opened regex x (op ∷ ops) o (p, ps) =
    let k = step-Kept regex x op o p in
    let (opened, timeout, timer) = run-opened regex (step regex x op) ops k.opened ps in
    (opened, timeout ∙ k.timeout, timer ∙ k.timer)

-- What `open()` does to a new request.
open_session_new :
    (x : Xhr)
    → x.ready_state ≡ ReadyState.unsent
    → x.has_session ≡ false
    → x.has_timer ≡ false
    → ((open_session true x).0.ready_state ≡ ReadyState.opened)
      × ((open_session true x).0.elements ≡ x.elements)
      × ((open_session true x).0.method ≡ x.method)
      × ((open_session true x).0.has_timer ≡ ltb 0 x.timeout)
unfolding open_session setup init_callbacks setup_timer on_state
open_session_new x unsent no_session no_timer =
    (ground arith, ground arith, ground arith, ground arith)

open_session-header : (made : Bool) (x : Xhr) → (open_session made x).0.header_ ≡ x.header_
unfolding open_session setup init_callbacks setup_timer on_state
open_session-header made x = ground arith

pub open_request-header :
    (regex : Regex) (made : Bool) (method uri : Bytes) (async : Bool) (x : Xhr)
    → (open_request regex made method uri async x).header_ ≡ x.header_
unfolding open_request
open_request-header regex made method uri async x = elim (Option-cases (proccess_uri regex uri)) [
  | inl e ↦ rw (prepare-none regex method uri async x e) refl
  | inr (el, e) ↦ rw (prepare-some regex method uri async x el e) (
      open_session-header made
        (record x { is_async = async; elements = el; method = to_upper method }))
]

-- Opening a new request whose address is understood: the request is opened, its method is in upper
-- case, its address is what the address gave, and the timer runs where a timeout was set.
pub open_request_lem :
    (regex : Regex) (method uri : Bytes) (async : Bool) (x : Xhr) (e : Elements)
    → proccess_uri regex uri ≡ some e
    → x.ready_state ≡ ReadyState.unsent
    → x.has_session ≡ false
    → x.has_timer ≡ false
    → ((open_request regex true method uri async x).ready_state ≡ ReadyState.opened)
      × ((open_request regex true method uri async x).elements ≡ e)
      × ((open_request regex true method uri async x).method ≡ to_upper method)
      × ((open_request regex true method uri async x).has_timer ≡ ltb 0 x.timeout)
unfolding open_request
open_request_lem regex method uri async x e found unsent no_session no_timer =
    rw (prepare-some regex method uri async x e found) (
      open_session_new (record x { is_async = async; elements = e; method = to_upper method })
        unsent no_session no_timer)

-- The header field by which `open` with a user and a password asks for access: the last of its name,
-- it is `Basic` and the base64 of the two with a colon between them.
pub open_user-authorization :
    (regex : Regex) (made : Bool) (method uri : Bytes) (async : Bool) (user password : Bytes)
    (x : Xhr)
    → All IsByte user
    → All IsByte password
    → IsSorted x.header_
    → values_of
        (codes "Authorization")
        (open_user regex made method uri async user password x).header_
      ≡ values_of (codes "Authorization") x.header_
        ++ record { value = codes "Basic " ++ base64 (user ++ b':' ∷ password); sensitive = false }
          ∷ []
unfolding open_user set_request_header
open_user-authorization regex made method uri async user password x hu hp s =
    rw
      (
        open_request-header regex made method uri async x,
        encode_from_array-base64 (user ++ b':' ∷ password)
            (All-append IsByte user (b':' ∷ password) hu (omega arith, hp)),
      )
      (values_of-emplace_self (codes "Authorization")
        (record { value = codes "Basic " ++ base64 (user ++ b':' ∷ password); sensitive = false })
        x.header_ s)
