-- ===== src/Xhr/Send/Laws.antt =====
-- What comes of a request that is sent.
use xmlhttp_request.Prelude.{
  Bool, Bytes, List, Option, [], ap, false, pos, refl, some, true, ℕ, ◌&&◌, ◌++◌, ◌∙◌, ◌∷◌, ◌≡◌,
}
use xmlhttp_request.Stream.{new_stream}
use xmlhttp_request.Session.{add_stream}
use xmlhttp_request.Tls.Method.{method_from_string}
use xmlhttp_request.Io.{Io, filed}
use xmlhttp_request.Io.Submit.{
  Library, Order, ErrorCode, Url, returned, is_set, request_nva, submit,
}
use xmlhttp_request.Io.Submit.Laws.{asked, after_request-busy, submit-after_request}
use xmlhttp_request.Xhr.Uri.Laws.{is_empty-fetch_uri}
use xmlhttp_request.Xhr.Send.{
  Client, World, Job, went, waits_for_ever, do_job, fetched, impl_fetch, is_unknown, order_of,
  run_jobs, service_stopped,
}

module _ {L : Type 0} where
  -- The library takes a request: the address is one with a scheme and a host, and nghttp2 gives an id
  -- to the request, whatever its session has done before.
  pub record Accepts (requests : Library L) (o : Order) : Type 0 where
    pub parts : Url
    pub parsed : requests.parse_url o.url ≡ some parts
    pub complete : is_set parts.schema && is_set parts.host ≡ true
    pub id : L → ℕ
    pub given :
        (l : L)
        → (requests.submit_request l (request_nva parts o.url o.method o.header_) o.body).1
          ≡ pos (id l)

  -- The state in which nghttp2 has the request, and its stream is filed.
  abbrev pub handed : (requests : Library L) (o : Order) → Accepts requests o → Io L → Io L
  handed requests o a s =
      let n = a.id s.session in
      record s {
        session = (asked requests s a.parts o).0;
        app = (add_stream s.app (new_stream n)).0;
        log = s.log ++ filed n ∷ [];
      }

  submit-handed :
      (requests : Library L) (held : Bool) (o : Order) (a : Accepts requests o) (s : Io L)
      → s.stopped ≡ false
      → s.writing ≡ true
      → submit requests held o s
        ≡ returned (handed requests o a s) ErrorCode.success (pos (a.id s.session))
  submit-handed requests held o a s runs busy =
      let s1 : Io L = record s { session = (asked requests s a.parts o).0 } in
      submit-after_request requests held o s a.parts (a.id s.session) runs a.parsed a.complete
        (a.given s.session)
      ∙ after_request-busy held s1 (a.id s.session) busy

  -- What a request has to be to be sent.
  pub record IsSendable (c : Client L) : Type 0 where
    pub service : c.has_service ≡ true
    pub session : c.xhr.has_session ≡ true
    pub known : is_unknown (method_from_string c.xhr.method) ≡ false

  pub impl_fetch-submit :
      (w : World L) (body : Option Bytes) (c : Client L)
      → IsSendable c
      → impl_fetch w body c ≡ fetched c (submit w.requests w.held (order_of c body) c.io)
  unfolding impl_fetch
  impl_fetch-submit w body c h = rw (is_empty-fetch_uri c.xhr.elements, h.session, h.known) refl

  pub impl_fetch-handed :
      (w : World L) (body : Option Bytes) (c : Client L)
      → IsSendable c
      → (a : Accepts w.requests (order_of c body)) → c.io.stopped ≡ false
      → c.io.writing ≡ true
      → impl_fetch w body c ≡ went (record c { io = handed w.requests (order_of c body) a c.io })
  unfolding fetched
  impl_fetch-handed w body c h a runs busy =
      impl_fetch-submit w body c h
      ∙ ap (fetched c) (submit-handed w.requests w.held (order_of c body) a c.io runs busy)

  pub run_jobs-step :
      (w : World L) (j : Job) (js : List Job) (c c' : Client L)
      → service_stopped c ≡ false
      → do_job w j c ≡ went c'
      → run_jobs w (j ∷ js) c ≡ run_jobs w js c'
  unfolding run_jobs
  run_jobs-step w j js c c' e d = rw (e, run_jobs) (rw (d, run_jobs) refl)

  pub run_jobs-stopped :
      (w : World L) (j : Job) (js : List Job) (c : Client L)
      → service_stopped c ≡ true
      → run_jobs w (j ∷ js) c ≡ went (record c { jobs = j ∷ js })
  unfolding run_jobs
  run_jobs-stopped w j js c e = rw (e, run_jobs) refl

  pub run_jobs-waits :
      (w : World L) (j : Job) (js : List Job) (c : Client L)
      → service_stopped c ≡ false
      → do_job w j c ≡ waits_for_ever
      → run_jobs w (j ∷ js) c ≡ waits_for_ever
  unfolding run_jobs
  run_jobs-waits w j js c e d = rw (e, run_jobs) (rw (d, run_jobs) refl)
