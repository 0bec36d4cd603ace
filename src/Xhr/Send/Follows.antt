-- ===== src/Xhr/Send/Follows.antt =====
-- The streams of a client whose request is sent: they are what the handlers of nghttp2 make of them.
use xmlhttp_request.Prelude.{
  Bool, Bool-cases, Bytes, List, Option, [], false, if_both, inl, inr, negsuc, none, not, pos, refl,
  some, subst, sym, ◌++◌, ◌||◌, ◌∙◌, ◌∷◌, ◌≡◌,
}
use xmlhttp_request.Io.{Io, stop}
use xmlhttp_request.Io.Laws.{IsLawful}
use xmlhttp_request.Io.Replay.{Follows, Follows-refl, Follows-trans, stop-Follows}
use xmlhttp_request.Io.Replay.Reach.{submit-Follows}
use xmlhttp_request.Io.Connect.{start_resolve}
use xmlhttp_request.Io.Connect.Follows.{Resolves, start_resolve-Resolves}
use xmlhttp_request.Io.Submit.{Submitted, returned, blocked, submit}
use xmlhttp_request.Io.Submit.Laws.{OnReturn}
use xmlhttp_request.Tls.Method.{Method, method_from_string}
use xmlhttp_request.Xhr.Uri.{fetch_uri, is_empty}
use xmlhttp_request.Xhr.Send.{
  Client, World, Outcome, Job, went, waits_for_ever, starved, connects, fetches, fetches_with_body,
  connect, connected_client, fetch, fetch_with_body, fetched, impl_fetch, is_unknown, order_of,
  do_job, finished, run_jobs, post_jobs, send, send_as, send_get, send_post, service_stopped,
}
use xmlhttp_request.Xhr.Send.Laws.{run_jobs-step, run_jobs-stopped, run_jobs-waits}

module _ {L : Type 0} where
  -- From one client to another: the streams follow the handlers, and the session and the callback of
  -- the request stay.
  pub record Goes (c c' : Client L) : Type 0 where
    pub follows : Follows c.io c'.io
    pub session_kept : c'.xhr.has_session ≡ c.xhr.has_session
    pub callback_kept : c'.xhr.has_state_callback ≡ c.xhr.has_state_callback

  Goes-trans : {a b c : Client L} → Goes a b → Goes b c → Goes a c
  Goes-trans f g = record {
    follows = Follows-trans f.follows g.follows;
    session_kept = g.session_kept ∙ f.session_kept;
    callback_kept = g.callback_kept ∙ f.callback_kept;
  }

  -- With another state of the session.
  io-Goes : (c : Client L) (s : Io L) → Follows c.io s → Goes c (record c { io = s })
  io-Goes c s f = record { follows = f; session_kept = refl; callback_kept = refl }

  same-Goes : (c : Client L) → Goes c c
  same-Goes c = record { follows = Follows-refl c.io; session_kept = refl; callback_kept = refl }

  -- Where a call goes on, it has gone so.
  abbrev pub OnWent : Client L → Outcome L → Type 0
  OnWent c (went c') = Goes c c'
  OnWent c waits_for_ever = Unit
  OnWent c starved = Unit

  OnWent-from : {c c' : Client L} (r : Outcome L) → Goes c c' → OnWent c' r → OnWent c r
  OnWent-from (went d) f g = Goes-trans f g
  OnWent-from waits_for_ever f g = tt
  OnWent-from starved f g = tt

  connected_client-OnWent :
      (w : World L) (c : Client L) (r : Option (Io L × Bool))
      → Resolves w.lib c.io r
      → OnWent c (connected_client c r)
  unfolding connected_client
  connected_client-OnWent w c none f = tt
  connected_client-OnWent w c (some (s, failed)) f = io-Goes c s f

  fetched-OnWent :
      (c : Client L) (r : Submitted L) → OnReturn (Follows c.io) r → OnWent c (fetched c r)
  unfolding fetched
  fetched-OnWent c blocked f = tt
  fetched-OnWent c (returned s ec (pos id)) f = io-Goes c s f
  fetched-OnWent c (returned s ec (negsuc k)) f =
      io-Goes c (stop s) (Follows-trans f (stop-Follows s))

  module _ (w : World L) (laws : IsLawful w.lib) where
    impl_fetch-OnWent : (body : Option Bytes) (c : Client L) → OnWent c (impl_fetch w body c)
    unfolding impl_fetch
    impl_fetch-OnWent body c =
        if_both (OnWent c)
          (is_empty (fetch_uri c.xhr.elements)
            || (not c.xhr.has_session || is_unknown (method_from_string c.xhr.method)))
          _ _ (io-Goes c (stop c.io) (stop-Follows c.io))
          (fetched-OnWent c (submit w.requests w.held (order_of c body) c.io)
            (submit-Follows w.lib w.requests laws w.held (order_of c body) c.io))

    do_job-OnWent : (j : Job) (c : Client L) → OnWent c (do_job w j c)
    unfolding do_job connect fetch fetch_with_body
    do_job-OnWent connects c =
        if_both (OnWent c) c.io.stopped _ _
          (connected_client-OnWent w c (start_resolve w.lib w.fuel w.fresh w.net c.io)
            (start_resolve-Resolves w.lib w.fuel w.fresh w.net c.io))
          (same-Goes c)
    do_job-OnWent fetches c =
        if_both (OnWent c) c.io.stopped _ _ (same-Goes c) (impl_fetch-OnWent none c)
    do_job-OnWent fetches_with_body c = impl_fetch-OnWent (some c.body) c

    run_jobs-starved :
        (j : Job) (js : List Job) (c : Client L)
        → service_stopped c ≡ false
        → do_job w j c ≡ starved
        → run_jobs w (j ∷ js) c ≡ starved
    unfolding run_jobs
    run_jobs-starved j js c e d = rw (e, run_jobs) (rw (d, run_jobs) refl)

    jobs-Goes : (c : Client L) (js : List Job) → Goes c (record c { jobs = js })
    jobs-Goes c js = record {
      follows = Follows-refl c.io;
      session_kept = refl;
      callback_kept = refl;
    }

    finished-Goes : (c : Client L) → Goes c (finished c)
    unfolding finished
    finished-Goes c = record {
      follows = Follows-refl c.io;
      session_kept = refl;
      callback_kept = refl;
    }

    -- What is done behind one job.
    behind-OnWent :
        (j : Job) (js : List Job) (c : Client L) (r : Outcome L)
        → service_stopped c ≡ false
        → do_job w j c ≡ r
        → OnWent c r
        → ((d : Client L) → OnWent d (run_jobs w js d))
        → OnWent c (run_jobs w (j ∷ js) c)
    behind-OnWent j js c (went d) e found f again =
        subst (OnWent c) (sym (run_jobs-step w j js c d e found))
          (OnWent-from (run_jobs w js d) f (again d))
    behind-OnWent j js c waits_for_ever e found f again =
        subst (OnWent c) (sym (run_jobs-waits w j js c e found)) tt
    behind-OnWent j js c starved e found f again =
        subst (OnWent c) (sym (run_jobs-starved j js c e found)) tt

    run_jobs-OnWent : (js : List Job) (c : Client L) → OnWent c (run_jobs w js c)
    run_jobs-OnWent [] c = unfold run_jobs in finished-Goes c
    run_jobs-OnWent (j ∷ js) c = elim (Bool-cases (service_stopped c)) [
      | inl e ↦ subst (OnWent c) (sym (run_jobs-stopped w j js c e)) (jobs-Goes c (j ∷ js))
      | inr e ↦
          behind-OnWent j js c (do_job w j c) e refl (do_job-OnWent j c) (λ d. run_jobs-OnWent js d)
    ]

    post_jobs-OnWent : (j : Job) (c : Client L) → OnWent c (post_jobs w j c)
    unfolding post_jobs
    post_jobs-OnWent j c =
        let c1 : Client L = record c {
          xhr = record c.xhr { response = none };
          has_future = c.has_future || c.xhr.is_async;
        } in
        let start : Goes c c1 = record {
          follows = Follows-refl c.io;
          session_kept = refl;
          callback_kept = refl;
        } in
        let js = c.jobs ++ connects ∷ j ∷ [] in
        OnWent-from (run_jobs w js c1) start (run_jobs-OnWent js c1)

    send_as-OnWent : (method : Method) (d : Client L) → OnWent d (send_as w method d)
    unfolding send_as send_get send_post
    send_as-OnWent Method.get d =
        if_both (OnWent d) (not d.has_service || not d.xhr.has_session) _ _ (same-Goes d)
          (post_jobs-OnWent fetches d)
    send_as-OnWent Method.post d =
        let d1 : Client L = record d { body = [] } in
        let start : Goes d d1 = record {
          follows = Follows-refl d.io;
          session_kept = refl;
          callback_kept = refl;
        } in
        if_both (OnWent d) (not d.has_service || not d.xhr.has_session) _ _ (same-Goes d) (
          OnWent-from (post_jobs w fetches_with_body d1) start
            (post_jobs-OnWent fetches_with_body d1))
    send_as-OnWent Method.unknown d = same-Goes d

    -- `send`, whatever the method, and however far it gets.
    pub send-OnWent : (c : Client L) → OnWent c (send w c)
    unfolding send
    send-OnWent c = send_as-OnWent (method_from_string c.xhr.method) c
