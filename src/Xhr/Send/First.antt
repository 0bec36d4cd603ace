-- ===== src/Xhr/Send/First.antt =====
-- The first request of a client, by GET and by POST.
use xmlhttp_request.Prelude.{
  arith, false, none, true, ◌||◌, ◌≡◌, ap, if◌then◌else◌, not, subst, sym,
}
use xmlhttp_request.Io.Laws.{IsLawful}
use xmlhttp_request.Xhr.Send.{
  Client, World, went, fetches, do_job, fetch, impl_fetch, order_of, post_jobs, send_get,
}
use xmlhttp_request.Xhr.Send.Laws.{Accepts, IsSendable}
use xmlhttp_request.Xhr.Send.Delivery.{IsFirst, SentOrStopped, at, deliver}

module _ {L : Type 0} where
  pub send_get-posts :
      (w : World L) (c : Client L) → IsSendable c → send_get w c ≡ post_jobs w fetches c
  unfolding send_get
  send_get-posts w c can =
      let guard : (not c.has_service || not c.xhr.has_session) ≡ false =
        ground (arith, can.service, can.session) in
      ap (λ b. if b then went c else post_jobs w fetches c) guard

  pub fetch-halted :
      (w : World L) (c : Client L) → c.io.stopped ≡ true → do_job w fetches c ≡ went c
  unfolding do_job fetch
  fetch-halted w c st = ap (λ b. if b then went c else impl_fetch w none c) st

  pub fetch-runs :
      (w : World L) (c : Client L) → c.io.stopped ≡ false → do_job w fetches c ≡ impl_fetch w none c
  unfolding do_job fetch
  fetch-runs w c runs = ap (λ b. if b then went c else impl_fetch w none c) runs

  pub send_get_lem :
      (w : World L) (laws : IsLawful w.lib) (l : L) (c : Client L)
      (a : Accepts w.requests (order_of c none))
      → IsSendable c
      → IsFirst w laws l c
      → SentOrStopped w laws l c.io (order_of c none) a (send_get w c)
  send_get_lem w laws l c a can h =
      subst (SentOrStopped w laws l c.io (order_of c none) a) (sym (send_get-posts w c can)) (
        deliver w laws l c fetches none a can h (λ s st. fetch-halted w (at c s) st)
          (λ s runs. fetch-runs w (at c s) runs))
