-- ===== src/Xhr/Send/Opened.antt =====
-- A new request from `open` to nghttp2.
use xmlhttp_request.Prelude.{
  Bool, Bytes, [], arith, codes, false, length, none, refl, some, true, ◌<◌, ◌≡◌, ◌≢◌, ap, subst,
  sym, ◌∙◌, ◌&&◌, not,
}
use xmlhttp_request.Session.{ReadyState}
use xmlhttp_request.Tls.Method.{Method, method_from_string, string_from_enum, to_upper}
use xmlhttp_request.Io.Laws.{IsLawful}
use xmlhttp_request.Io.Connect.Laws.{reachable}
use xmlhttp_request.Io.Submit.{Order}
use xmlhttp_request.Xhr.{
  Xhr, open_request, open_session, setup, init_callbacks, setup_timer, on_state, is_opened,
}
use xmlhttp_request.Xhr.Kept.{prepare-some}
use xmlhttp_request.Xhr.Laws.{open_request_lem, open_request-header}
use xmlhttp_request.Xhr.Uri.{Regex, Elements, fetch_uri, proccess_uri}
use xmlhttp_request.Xhr.Send.{
  Client, World, is_unknown, new_io, open_client, order_of, send, send_as, send_get,
  service_stopped, shuts_down,
}
use xmlhttp_request.Xhr.Send.Laws.{Accepts, IsSendable}
use xmlhttp_request.Xhr.Send.Delivery.{IsFirst, SentOrStopped}
use xmlhttp_request.Xhr.Send.First.{send_get_lem}

-- What `prepare` stores where the address is understood.
abbrev pub prepared : Bytes → Bool → Elements → Xhr → Xhr
prepared method async e x = record x { is_async = async; elements = e; method = to_upper method }

open_session-session :
    (x : Xhr)
    → x.ready_state ≡ ReadyState.unsent
    → x.has_session ≡ false
    → (open_session true x).0.has_session ≡ true
unfolding open_session setup init_callbacks setup_timer on_state
open_session-session x unsent without = ground arith

open_request-session :
    (regex : Regex) (method uri : Bytes) (async : Bool) (x : Xhr) (e : Elements)
    → proccess_uri regex uri ≡ some e
    → x.ready_state ≡ ReadyState.unsent
    → x.has_session ≡ false
    → (open_request regex true method uri async x).has_session ≡ true
unfolding open_request
open_request-session regex method uri async x e found unsent without =
    rw (prepare-some regex method uri async x e found)
      (open_session-session (prepared method async e x) unsent without)

module _ {L : Type 0} where
  -- A request that is made, and not yet opened.
  pub record IsNew (c : Client L) : Type 0 where
    pub unsent : c.xhr.ready_state ≡ ReadyState.unsent
    pub without : c.xhr.has_session ≡ false
    pub no_timer : c.xhr.has_timer ≡ false

  open_client-xhr :
      (none_yet : L) (wb_ : Bytes) (regex : Regex) (made : Bool) (method uri : Bytes) (async : Bool)
      (c : Client L)
      → (open_client none_yet wb_ regex made method uri async c).xhr
        ≡ open_request regex made method uri async c.xhr
  unfolding open_client
  open_client-xhr none_yet wb_ regex made method uri async c = refl

  -- What `open` makes of a new request beside `xhr`: a service that runs, and a session.
  record IsFresh (none_yet : L) (wb_ : Bytes) (c : Client L) : Type 0 where
    service : c.has_service ≡ true
    runs : c.aborted ≡ false
    works : c.ran_out ≡ false
    no_jobs : c.jobs ≡ []
    made : c.io ≡ new_io none_yet wb_ c.xhr.has_state_callback

  attempts_lem :
      (c : Client L) → IsNew c → (not (is_opened c.xhr.ready_state) && not c.xhr.has_session) ≡ true
  attempts_lem c new = ground (arith, new.unsent, new.without)

  open_client-IsFresh :
      (none_yet : L) (wb_ : Bytes) (regex : Regex) (method uri : Bytes) (async : Bool)
      (c : Client L) (e : Elements)
      → proccess_uri regex uri ≡ some e
      → IsNew c
      → IsFresh none_yet wb_ (open_client none_yet wb_ regex true method uri async c)
  unfolding open_client
  open_client-IsFresh none_yet wb_ regex method uri async c e found new =
      rw (prepare-some regex method uri async c.xhr e found, attempts_lem c new)
        (record { service = ground arith; runs = refl; works = refl; no_jobs = refl; made = refl })

  -- The request that nghttp2 is asked for by GET: the address is the one that was opened.
  abbrev pub get_order : Elements → Client L → Order
  get_order e c = record {
    url = fetch_uri e;
    method = codes "GET";
    header_ = c.xhr.header_;
    body = none;
  }

  opened_order :
      (none_yet : L) (wb_ : Bytes) (regex : Regex) (method uri : Bytes) (async : Bool)
      (c : Client L) (e : Elements)
      → proccess_uri regex uri ≡ some e
      → IsNew c
      → method_from_string (to_upper method) ≡ Method.get
      → order_of (open_client none_yet wb_ regex true method uri async c) none ≡ get_order e c
  unfolding order_of open_client
  opened_order none_yet wb_ regex method uri async c e found new get =
      let (_, elements, name, _) =
        open_request_lem regex method uri async c.xhr e found new.unsent new.without new.no_timer in
      rw (elements, name, get, open_request-header regex true method uri async c.xhr)
        (unfold string_from_enum in refl)

  fresh-serves :
      (none_yet : L) (wb_ : Bytes) (c : Client L)
      → IsFresh none_yet wb_ c
      → service_stopped c ≡ false
  unfolding service_stopped new_io shuts_down
  fresh-serves none_yet wb_ c f = rw (f.runs, f.works, f.made) refl

  -- A new session is one that the first request needs, where its buffer happens to be empty.
  fresh-IsFirst :
      (w : World L) (laws : IsLawful w.lib) (l none_yet : L) (c : Client L)
      → w.fresh ≡ some l
      → reachable w.net ≡ true
      → length (laws.todo (w.lib.submit_settings l)) < w.fuel
      → laws.todo (w.lib.submit_settings l) ≢ []
      → IsFresh none_yet [] c
      → IsFirst w laws l c
  unfolding new_io
  fresh-IsFirst w laws l none_yet c given reached enough some_bytes f = record {
    fresh = given;
    reached = reached;
    enough = enough;
    some_bytes = some_bytes;
    stopped = ap (λ s. s.stopped) f.made;
    unconnected = ap (λ s. s.has_session) f.made;
    serves = fresh-serves none_yet [] c f;
    no_jobs = f.no_jobs;
    idle = ap (λ s. s.writing) f.made;
    empty = ap (λ s. s.wb_) f.made;
    behind = ap (λ s. s.data_pending_) f.made;
  }

  send-send_get :
      (w : World L) (c : Client L)
      → method_from_string c.xhr.method ≡ Method.get
      → send w c ≡ send_get w c
  unfolding send send_as
  send-send_get w c get = ap (λ m. send_as w m c) get

  -- From `open` to nghttp2: a new request that is opened with a method that the code takes for GET
  -- and an address that is understood, for which `setupSession` makes a session, and then sent to a
  -- host that is reached. `send` ends, and either the connection was stopped while it started, or
  -- nghttp2 has the request, with that address, the header that was set, no body and a destroyed
  -- text for the method, and a stream is filed under its id; the settings are written before, within
  -- the bounds of the buffer. Where the length of the buffer, which the constructor leaves unset,
  -- happens to be 0, nghttp2 accepts the request and hands out frames of at most 64 KB, with more
  -- rounds of fuel than the settings have bytes.
  pub open_client-send :
      (w : World L) (laws : IsLawful w.lib) (l none_yet : L) (regex : Regex) (method uri : Bytes)
      (async : Bool) (c c' : Client L) (e : Elements) (a : Accepts w.requests (get_order e c))
      → IsNew c
      → proccess_uri regex uri ≡ some e
      → method_from_string (to_upper method) ≡ Method.get
      → c' ≡ open_client none_yet [] regex true method uri async c
      → w.fresh ≡ some l
      → reachable w.net ≡ true
      → length (laws.todo (w.lib.submit_settings l)) < w.fuel
      → laws.todo (w.lib.submit_settings l) ≢ []
      → SentOrStopped w laws l c'.io (get_order e c) a (send w c')
  open_client-send w laws l none_yet regex method uri async c c' e a new found get opens given
        reached enough some_bytes =
      let d = open_client none_yet [] regex true method uri async c in
      let same : d ≡ c' = sym opens in
      let f = open_client-IsFresh none_yet [] regex method uri async c e found new in
      let (_, _, name, _) =
        open_request_lem regex method uri async c.xhr e found new.unsent new.without new.no_timer in
      let x = open_client-xhr none_yet [] regex true method uri async c in
      let known : method_from_string d.xhr.method ≡ Method.get =
        ap (λ y. method_from_string y.method) x ∙ ap method_from_string name ∙ get in
      let can : IsSendable d = record {
        service = f.service;
        session =
            ap (λ y. y.has_session) x
            ∙ open_request-session regex method uri async c.xhr e found new.unsent new.without;
        known = ap is_unknown known;
      } in
      let sent =
        subst (λ o. (b : Accepts w.requests o) → SentOrStopped w laws l d.io o b (send_get w d))
          (opened_order none_yet [] regex method uri async c e found new get)
          (λ b.
            send_get_lem w laws l d b can
              (fresh-IsFirst w laws l none_yet d given reached enough some_bytes f))
          a in
      subst (λ z. SentOrStopped w laws l z.io (get_order e c) a (send w z)) same
        (subst (SentOrStopped w laws l d.io (get_order e c) a) (sym (send-send_get w d known)) sent)
