-- ===== src/Xhr/Send/Delivery.antt =====
-- A request from the call of `send` to nghttp2.
use xmlhttp_request.Prelude.{
  Bytes, Option, [], arith, false, inr, length, none, some, true, ◌<◌, ◌||◌, ◌≡◌, ◌≢◌, Bool-cases,
  ap, if◌then◌else◌, inl, refl, ◌++◌, ◌∙◌, ◌∷◌,
}
use xmlhttp_request.Io.{Io}
use xmlhttp_request.Io.Laws.{InBounds, IsLawful}
use xmlhttp_request.Io.Write.{Written}
use xmlhttp_request.Io.Connect.{start_resolve}
use xmlhttp_request.Io.Connect.Mild.{ready}
use xmlhttp_request.Io.Connect.Laws.{reachable, start_resolve_lem, started_busy}
use xmlhttp_request.Io.Submit.{Order}
use xmlhttp_request.Xhr.Send.{
  Client, World, Outcome, Job, went, connects, connect, connected_client, do_job, impl_fetch,
  order_of, post_jobs, run_jobs, service_stopped, shuts_down, finished,
}
use xmlhttp_request.Xhr.Send.Laws.{
  Accepts, IsSendable, handed, impl_fetch-handed, run_jobs-step, run_jobs-stopped,
}

module _ {L : Type 0} where
  -- A client whose session has not connected yet, in a world where its host is reached.
  pub record IsFirst (w : World L) (laws : IsLawful w.lib) (l : L) (c : Client L) : Type 0 where
    pub fresh : w.fresh ≡ some l
    pub reached : reachable w.net ≡ true
    pub enough : length (laws.todo (w.lib.submit_settings l)) < w.fuel
    pub some_bytes : laws.todo (w.lib.submit_settings l) ≢ []
    pub stopped : c.io.stopped ≡ true
    pub unconnected : c.io.has_session ≡ false
    pub serves : service_stopped c ≡ false
    pub no_jobs : c.jobs ≡ []
    pub idle : c.io.writing ≡ false
    pub empty : c.io.wb_ ≡ []
    pub behind : c.io.data_pending_ ≡ none

  -- The client when its jobs are posted.
  abbrev pub posted : Client L → Client L
  posted c = record c {
    xhr = record c.xhr { response = none };
    has_future = c.has_future || c.xhr.is_async;
  }

  IsFirst-InBounds :
      (w : World L) (laws : IsLawful w.lib) (l : L) (c : Client L)
      → IsFirst w laws l c
      → InBounds c.io
  IsFirst-InBounds w laws l c h = record {
    buffer_fits = rw h.empty (omega arith);
    pending_fits = rw h.behind (omega arith);
    copy_fits = inr (rw (h.empty, h.behind) (omega arith));
  }

  -- What a request comes to: the connection was stopped while it started, or nghttp2 has the request
  -- and its stream is filed.
  pub data SentOrStopped (w : World L) (laws : IsLawful w.lib) (l : L) (before : Io L) (o : Order)
      (a : Accepts w.requests o) (result : Outcome L) : Type 0 where
    stopped :
        (s : Io L) (c' : Client L)
        → Written w.lib laws (ready w.lib l before) s
        → (s.stopped || shuts_down s.log) ≡ true
        → result ≡ went c'
        → c'.io ≡ s
        → SentOrStopped w laws l before o a result
    sent :
        (s : Io L) (c' : Client L)
        → Written w.lib laws (ready w.lib l before) s
        → result ≡ went c'
        → c'.io ≡ handed w.requests o a s
        → SentOrStopped w laws l before o a result

  connect-first :
      (w : World L) (laws : IsLawful w.lib) (l : L) (c : Client L)
      → IsFirst w laws l c
      → (s : Io L) × (do_job w connects (posted c) ≡ went (record (posted c) { io = s }))
        × Written w.lib laws (ready w.lib l c.io) s
  unfolding do_job connect connected_client
  connect-first w laws l c h =
      let (s, found, written) =
        start_resolve_lem w.lib laws w.fuel l w.net c.io h.reached h.stopped h.unconnected
          (IsFirst-InBounds w laws l c h) h.enough in
      (
        s,
        ap
              (λ b.
                if b
                then connected_client (posted c) (start_resolve w.lib w.fuel w.fresh w.net c.io)
                else went (posted c))
              h.stopped
            ∙ ap (λ o. connected_client (posted c) (start_resolve w.lib w.fuel o w.net c.io))
                h.fresh
            ∙ ap (connected_client (posted c)) found,
        written,
      )

  -- The client once its connection has started.
  abbrev pub at : Client L → Io L → Client L
  at c s = record (posted c) { io = s }

  pub no_more_jobs : (w : World L) (c : Client L) → run_jobs w [] c ≡ went (finished c)
  unfolding run_jobs
  no_more_jobs w c = refl

  pub finished-io : (c : Client L) → (finished c).io ≡ c.io
  unfolding finished
  finished-io c = refl

  serves-runs :
      (c : Client L) (s : Io L)
      → service_stopped c ≡ false
      → service_stopped (at c s) ≡ true
      → (s.stopped || shuts_down s.log) ≡ true
  unfolding service_stopped
  serves-runs c s before now = ground arith

  -- The job behind `connect`, where it leaves a stopped session alone, and else asks for the request.
  pub deliver :
      (w : World L) (laws : IsLawful w.lib) (l : L) (c : Client L) (j : Job) (body : Option Bytes)
      (a : Accepts w.requests (order_of c body))
      → IsSendable c
      → IsFirst w laws l c
      → ((s : Io L) → s.stopped ≡ true → do_job w j (at c s) ≡ went (at c s))
      → ((s : Io L) → s.stopped ≡ false → do_job w j (at c s) ≡ impl_fetch w body (at c s))
      → SentOrStopped w laws l c.io (order_of c body) a (post_jobs w j c)
  unfolding post_jobs order_of
  deliver w laws l c j body a can h halted fetches_it =
      let (s, found, written) = connect-first w laws l c h in
      let c1 = at c s in
      let start =
        ap (λ js. run_jobs w (js ++ connects ∷ j ∷ []) (posted c)) h.no_jobs
        ∙ run_jobs-step w connects (j ∷ []) (posted c) c1 (unfold service_stopped in h.serves)
            found in
      elim (Bool-cases (service_stopped c1)) [
        | inl e ↦
            stopped s (record c1 { jobs = j ∷ [] }) written (serves-runs c s h.serves e)
              (start ∙ run_jobs-stopped w j [] c1 e) refl
        | inr e ↦ elim (Bool-cases s.stopped) [
          | inl st ↦
              stopped s (finished c1) written (rw st refl)
                (start ∙ run_jobs-step w j [] c1 c1 e (halted s st) ∙ no_more_jobs w c1)
                (finished-io c1)
          | inr runs ↦
              let busy =
                started_busy w.lib laws l c.io s written h.idle h.empty h.behind h.some_bytes
                  runs in
              let c2 : Client L = record c1 { io = handed w.requests (order_of c body) a s } in
              sent s (finished c2) written
                (start
                  ∙ run_jobs-step w j [] c1 c2 e (
                      fetches_it s runs
                      ∙ impl_fetch-handed w body c1
                          (record {
                            service = can.service;
                            session = can.session;
                            known = can.known;
                          })
                          a runs busy)
                  ∙ no_more_jobs w c2)
                (finished-io c2)
        ]
      ]
