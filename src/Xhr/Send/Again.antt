-- ===== src/Xhr/Send/Again.antt =====
-- Requests that are sent later, and `abort`.
use xmlhttp_request.Prelude.{
  [], arith, false, none, some, true, ◌≡◌, ap, if◌then◌else◌, refl, ◌++◌, ◌∙◌, ◌∷◌, List, ◌&&◌,
}
use xmlhttp_request.Io.{stop}
use xmlhttp_request.Io.Connect.{start_resolve}
use xmlhttp_request.Io.Connect.Laws.{reachable, start_resolve-unreachable}
use xmlhttp_request.Io.Submit.{submit}
use xmlhttp_request.Io.Submit.Laws.{submit-blocked}
use xmlhttp_request.Xhr.Send.{
  Client, World, Job, went, waits_for_ever, connects, fetches, abort, connect, connected_client,
  do_job, fetched, finished, has_work, order_of, post_jobs, run_jobs, send_get, service_stopped,
}
use xmlhttp_request.Xhr.Send.Laws.{
  Accepts, IsSendable, impl_fetch-submit, run_jobs-step, run_jobs-stopped, run_jobs-waits,
}
use xmlhttp_request.Io.Stop.{stop-stopped}
use xmlhttp_request.Xhr.Send.Delivery.{posted, finished-io, no_more_jobs}
use xmlhttp_request.Xhr.Send.First.{send_get-posts, fetch-halted, fetch-runs}

module _ {L : Type 0} where
  -- What a request comes to that is sent when the service has stopped.
  send_get-stopped :
      (w : World L) (c : Client L)
      → IsSendable c
      → service_stopped c ≡ true
      → c.jobs ≡ []
      → send_get w c ≡ went (record (posted c) { jobs = connects ∷ fetches ∷ [] })
  unfolding post_jobs
  send_get-stopped w c can down no_jobs =
      let c0 = posted c in
      send_get-posts w c can
      ∙ ap (λ js. run_jobs w (js ++ connects ∷ fetches ∷ []) c0) no_jobs
      ∙ run_jobs-stopped w connects (fetches ∷ []) c0 (unfold service_stopped in down)

  connect-unreachable :
      (w : World L) (c : Client L)
      → reachable w.net ≡ false
      → c.io.stopped ≡ true
      → do_job w connects c ≡ went c
  unfolding do_job connect connected_client
  connect-unreachable w c no_way st =
      ap
        (λ b.
          if b then connected_client c (start_resolve w.lib w.fuel w.fresh w.net c.io) else went c)
        st
      ∙ ap (connected_client c)
          (start_resolve-unreachable w.lib w.fuel w.fresh w.net c.io no_way st)

  -- A service that has no job and nothing else to wait for has stopped.
  finished-stopped : (c : Client L) → has_work c ≡ false → service_stopped (finished c) ≡ true
  unfolding service_stopped finished
  finished-stopped c rests = ground (arith, rests)

  -- A request by GET that is sent to a host that is not reached, where the session is stopped and
  -- neither its ping nor a write nor the timer of the request keeps the service running: `send_get`
  -- returns with the session and the state of the request as they were, so that the application is
  -- told nothing. Whatever the network does then, the same request sent again runs no job: both of
  -- its jobs are left waiting, since the service has run out of work and nothing resets it.
  pub send_get-unreachable :
      (w : World L) (c : Client L)
      → IsSendable c
      → reachable w.net ≡ false
      → c.io.stopped ≡ true
      → service_stopped c ≡ false
      → has_work c ≡ false
      → c.jobs ≡ []
      → (c' : Client L) × (send_get w c ≡ went c')
        × (c'.io ≡ c.io)
        × (c'.xhr.ready_state ≡ c.xhr.ready_state)
        × ((w' : World L)
            → send_get w' c' ≡ went (record (posted c') { jobs = connects ∷ fetches ∷ [] }))
  unfolding post_jobs
  send_get-unreachable w c can no_way st serves rests no_jobs =
      let c0 = posted c in
      let on : service_stopped c0 ≡ false = unfold service_stopped in serves in
      (
        finished c0,
        send_get-posts w c can
            ∙ ap (λ js. run_jobs w (js ++ connects ∷ fetches ∷ []) c0) no_jobs
            ∙ run_jobs-step w connects (fetches ∷ []) c0 c0 on (connect-unreachable w c0 no_way st)
            ∙ run_jobs-step w fetches [] c0 c0 on (fetch-halted w c0 st)
            ∙ no_more_jobs w c0,
        finished-io c0,
        (unfold finished in refl),
        λ w'.
            send_get-stopped w' (finished c0)
              (unfold finished in
                record { service = can.service; session = can.session; known = can.known })
              (finished-stopped c0 (unfold has_work in rests)) (unfold finished in refl),
      )

  connect-running :
      (w : World L) (c : Client L) → c.io.stopped ≡ false → do_job w connects c ≡ went c
  unfolding do_job connect
  connect-running w c runs =
      ap
        (λ b.
          if b then connected_client c (start_resolve w.lib w.fuel w.fresh w.net c.io) else went c)
        runs

  -- A further request by GET on a session that runs and is not writing, which nghttp2 accepts, waits
  -- for ever where no other thread is inside a callback: `submit` holds the mutex that `write` locks.
  pub send_get-waits :
      (w : World L) (c : Client L)
      → IsSendable c
      → Accepts w.requests (order_of c none)
      → service_stopped c ≡ false
      → c.jobs ≡ []
      → w.held ≡ false
      → c.io.stopped ≡ false
      → c.io.writing ≡ false
      → send_get w c ≡ waits_for_ever
  unfolding post_jobs order_of fetched
  send_get-waits w c can a serves no_jobs alone runs idle =
      let c0 = posted c in
      let can0 : IsSendable c0 = record {
        service = can.service;
        session = can.session;
        known = can.known;
      } in
      let on : service_stopped c0 ≡ false = unfold service_stopped in serves in
      send_get-posts w c can
      ∙ ap (λ js. run_jobs w (js ++ connects ∷ fetches ∷ []) c0) no_jobs
      ∙ run_jobs-step w connects (fetches ∷ []) c0 c0 on (connect-running w c0 runs)
      ∙ run_jobs-waits w fetches [] c0 on (
          fetch-runs w c0 runs
          ∙ impl_fetch-submit w none c0 can0
          ∙ ap (λ b. fetched c0 (submit w.requests b (order_of c0 none) c0.io)) alone
          ∙ ap (fetched c0) (
              submit-blocked w.requests (order_of c0 none) c0.io a.parts (a.id c0.io.session) runs
                idle a.parsed a.complete (a.given c0.io.session)))

  -- `abort` of an opened client stops its session, and no job that is posted then or waits runs.
  pub abort_lem :
      (w : World L) (j : Job) (js : List Job) (c : Client L)
      → c.has_service ≡ true
      → c.xhr.has_session ≡ true
      → (c' : Client L) × (abort c ≡ some c')
        × (c'.io.stopped ≡ true)
        × (run_jobs w (j ∷ js) c' ≡ went (record c' { jobs = j ∷ js }))
  unfolding abort
  abort_lem w j js c service session =
      let c' : Client L = record c { aborted = true; io = stop c.io } in
      let there : c.has_service && c.xhr.has_session ≡ true = ground (arith, service, session) in
      (
        c',
        ap (λ b. if b then some c' else none) there,
        stop-stopped c.io,
        run_jobs-stopped w j js c' (unfold service_stopped in refl),
      )
