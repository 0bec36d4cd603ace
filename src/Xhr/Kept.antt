-- ===== src/Xhr/Kept.antt =====
-- What stays of an opened request over one call or report.
use xmlhttp_request.Prelude.{
  if_both, not, refl, true, ◌≡◌, Option-cases, inl, inr, Bool, Bool-cases, Bytes, arith, codes,
  false, none, some, subst, sym, ℕ, ◌++◌, ◌∷◌,
}
use xmlhttp_request.Js.Base64.{encode_from_array}
use xmlhttp_request.Session.{ReadyState}
use xmlhttp_request.Tls.Method.{Method, to_upper}
use xmlhttp_request.Xhr.Uri.{Regex, Elements, proccess_uri}
use xmlhttp_request.Xhr.{
  Xhr, is_opened, prepare, on_state, open_session, open_request, set_request_header, open_user,
  set_timeout, on_ready, Op, opens, opens_session, opens_as, sets_state_callback, sends, sends_body,
  begin_send, begin_send_body, set_on_state_changed_callback, send_kind, sets_timeout, sets_header,
  state_comes, response_comes, step,
}

-- The session never reports the state that a request starts in.
abbrev pub IsProgress : Op → Type 0
IsProgress (state_comes state) = is_opened state ≡ true
IsProgress _ = Unit

-- What stays of an opened request.
pub record Kept (x x' : Xhr) : Type 0 where
  pub opened : is_opened x'.ready_state ≡ true
  pub timeout : x'.timeout ≡ x.timeout
  pub timer : x'.has_timer ≡ x.has_timer

Kept-refl : (x : Xhr) → is_opened x.ready_state ≡ true → Kept x x
Kept-refl x o = record { opened = o; timeout = refl; timer = refl }

pub prepare-none :
    (regex : Regex) (method uri : Bytes) (async : Bool) (x : Xhr)
    → proccess_uri regex uri ≡ none
    → prepare regex method uri async x ≡ (record x { is_async = async }, false)
unfolding prepare
prepare-none regex method uri async x e = rw (e, prepare) refl

pub prepare-some :
    (regex : Regex) (method uri : Bytes) (async : Bool) (x : Xhr) (el : Elements)
    → proccess_uri regex uri ≡ some el
    → prepare regex method uri async x
      ≡ (record x { is_async = async; elements = el; method = to_upper method }, true)
unfolding prepare
prepare-some regex method uri async x el e = rw (e, prepare) refl

-- What `prepare` leaves as it is.
prepare-Kept :
    (regex : Regex) (method uri : Bytes) (async : Bool) (x : Xhr)
    → is_opened x.ready_state ≡ true
    → Kept x (prepare regex method uri async x).0
prepare-Kept regex method uri async x o = elim (Option-cases (proccess_uri regex uri)) [
  | inl e ↦
      rw (prepare-none regex method uri async x e)
        (record { opened = o; timeout = refl; timer = refl })
  | inr (el, e) ↦
      rw (prepare-some regex method uri async x el e)
        (record { opened = o; timeout = refl; timer = refl })
]

pub open_session-opened :
    (made : Bool) (x : Xhr) → is_opened x.ready_state ≡ true → open_session made x ≡ (x, false)
unfolding open_session
open_session-opened made x o = ground arith

-- Opening an opened request again: only what `prepare` stores can change.
pub open_request-opened :
    (regex : Regex) (made : Bool) (method uri : Bytes) (async : Bool) (x : Xhr)
    → is_opened x.ready_state ≡ true
    → open_request regex made method uri async x ≡ (prepare regex method uri async x).0
unfolding open_request
open_request-opened regex made method uri async x o =
    elim (Bool-cases (prepare regex method uri async x).1) [
      | inl e ↦
          rw
            (
              e,
              open_session-opened made (prepare regex method uri async x).0
                  (prepare-Kept regex method uri async x o).opened,
            )
            refl
      | inr e ↦ rw e refl
    ]

set_timeout-opened :
    (milliseconds : ℕ) (x : Xhr) → is_opened x.ready_state ≡ true → set_timeout milliseconds x ≡ x
unfolding set_timeout
set_timeout-opened milliseconds x o = ground arith

on_state-Kept :
    (state : ReadyState) (x : Xhr)
    → is_opened x.ready_state ≡ true
    → is_opened state ≡ true
    → Kept x (on_state state x)
unfolding on_state
on_state-Kept state x o p = record {
  opened = ground arith;
  timeout = ground arith;
  timer = ground arith;
}

set_request_header-Kept :
    (name value : Bytes) (x x' : Xhr) → Kept x x' → Kept x (set_request_header name value x')
unfolding set_request_header
set_request_header-Kept name value x x' k = record {
  opened = k.opened;
  timeout = k.timeout;
  timer = k.timer;
}

open_request-Kept :
    (regex : Regex) (made : Bool) (method uri : Bytes) (async : Bool) (x : Xhr)
    → is_opened x.ready_state ≡ true
    → Kept x (open_request regex made method uri async x)
open_request-Kept regex made method uri async x o =
    subst (Kept x) (sym (open_request-opened regex made method uri async x o))
      (prepare-Kept regex method uri async x o)

-- Without the response.
dropped-Kept : (x : Xhr) → is_opened x.ready_state ≡ true → Kept x (record x { response = none })
dropped-Kept x o = record { opened = o; timeout = refl; timer = refl }

kind-Kept :
    (method : Method) (x : Xhr)
    → is_opened x.ready_state ≡ true
    → Kept x (elim method [ Method.unknown ↦ x | _ ↦ record x { response = none } ])
kind-Kept Method.unknown x o = Kept-refl x o
kind-Kept Method.get x o = dropped-Kept x o
kind-Kept Method.post x o = dropped-Kept x o

begin_send-Kept : (x : Xhr) → is_opened x.ready_state ≡ true → Kept x (begin_send x)
unfolding begin_send
begin_send-Kept x o =
    if_both (Kept x) (not x.has_session) _ _ (Kept-refl x o) (kind-Kept (send_kind x) x o)

begin_send_body-Kept : (x : Xhr) → is_opened x.ready_state ≡ true → Kept x (begin_send_body x)
unfolding begin_send_body
begin_send_body-Kept x o =
    if_both (Kept x) (not x.has_session) _ _ (Kept-refl x o) (dropped-Kept x o)

set_on_state_changed_callback-Kept :
    (x : Xhr) → is_opened x.ready_state ≡ true → Kept x (set_on_state_changed_callback x).0
unfolding set_on_state_changed_callback
set_on_state_changed_callback-Kept x o =
    if_both {A = Xhr × Bool} (λ r. Kept x r.0) (not x.has_session) _ _ (Kept-refl x o)
      (record { opened = o; timeout = refl; timer = refl })

pub step-Kept :
    (regex : Regex) (x : Xhr) (op : Op)
    → is_opened x.ready_state ≡ true
    → IsProgress op
    → Kept x (step regex x op)
unfolding step
step-Kept regex x (opens_session made) o p =
    subst (λ r. Kept x r.0) (sym (open_session-opened made x o)) (Kept-refl x o)
step-Kept regex x (opens made method uri async) o p =
    open_request-Kept regex made method uri async x o
step-Kept regex x (opens_as made method uri async user password) o p =
    unfold open_user in
    set_request_header-Kept (codes "Authorization")
      (codes "Basic " ++ encode_from_array (user ++ b':' ∷ password)) x
      (open_request regex made method uri async x)
      (open_request-Kept regex made method uri async x o)
step-Kept regex x sets_state_callback o p = set_on_state_changed_callback-Kept x o
step-Kept regex x sends o p = begin_send-Kept x o
step-Kept regex x sends_body o p = begin_send_body-Kept x o
step-Kept regex x (sets_timeout milliseconds) o p =
    subst (Kept x) (sym (set_timeout-opened milliseconds x o)) (Kept-refl x o)
step-Kept regex x (sets_header name value) o p =
    set_request_header-Kept name value x x (Kept-refl x o)
step-Kept regex x (state_comes state) o p = on_state-Kept state x o p
step-Kept regex x (response_comes r) o p =
    unfold on_ready in record { opened = o; timeout = refl; timer = refl }
