-- ===== src/Io/Stop.antt =====
-- `stop`: what it does once and what it leaves as it is.
use xmlhttp_request.Prelude.{
  refl, Bool-cases, [], ap, false, inl, inr, true, ◌++◌, ◌∙◌, ◌∷◌, ◌≡◌, if◌then◌else◌, sym, subst,
}
use xmlhttp_request.Io.{cancel_ping, shutdown_socket, cancel_deadline, Io, stop}
use xmlhttp_request.Io.Laws.{InBounds, Same, Same-refl, Same-InBounds, log-Same}

module _ {L : Type 0} where
  -- The state that a session which runs is stopped in.
  abbrev pub down : Io L → Io L
  down s = record s {
    stopped = true;
    ping_is_started = false;
    log = s.log ++ cancel_ping ∷ shutdown_socket ∷ cancel_deadline ∷ [];
  }

  pub stop_same : (s : Io L) → s.stopped ≡ true → stop s ≡ s
  unfolding stop
  stop_same s e = ap (λ b. if b then s else down s) e

  pub stop-down : (s : Io L) → s.stopped ≡ false → stop s ≡ down s
  unfolding stop
  stop-down s e = ap (λ b. if b then s else down s) e

  pub stop-stopped : (s : Io L) → (stop s).stopped ≡ true
  stop-stopped s = elim (Bool-cases s.stopped) [
    | inl e ↦ ap (λ x. x.stopped) (stop_same s e) ∙ e
    | inr e ↦ ap (λ x. x.stopped) (stop-down s e)
  ]

  pub stop-Same : (s : Io L) → Same s (stop s)
  stop-Same s = elim (Bool-cases s.stopped) [
    | inl e ↦ subst (Same s) (sym (stop_same s e)) (Same-refl s)
    | inr e ↦
        let quiet = log-Same s (cancel_ping ∷ shutdown_socket ∷ cancel_deadline ∷ []) refl in
        subst (Same s) (sym (stop-down s e))
          (record { wb = refl; pending = refl; session = refl; writing = refl; sent = quiet.sent })
  ]

  pub stop-InBounds : (s : Io L) → InBounds s → InBounds (stop s)
  stop-InBounds s b = Same-InBounds (stop-Same s) b

  -- Stopping a session that runs cancels the ping timer, shuts the socket down and cancels the
  -- deadline, once and in this order, and marks it stopped; stopping it again does nothing, so the
  -- socket is not shut down twice.
  pub stop_lem :
      (s : Io L)
      → s.stopped ≡ false
      → ((stop s).stopped ≡ true)
        × ((stop s).log ≡ s.log ++ cancel_ping ∷ shutdown_socket ∷ cancel_deadline ∷ [])
        × (stop (stop s) ≡ stop s)
  stop_lem s e =
      (stop-stopped s, ap (λ x. x.log) (stop-down s e), stop_same (stop s) (stop-stopped s))
