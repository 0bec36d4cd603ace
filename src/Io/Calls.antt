-- ===== src/Io/Calls.antt =====
-- What the handlers that nghttp2 calls leave of the connection.
use xmlhttp_request.Prelude.{
  Bool-cases, List, [], inl, inr, refl, ◌++◌, ◌∷◌, ◌≡◌, ap, ◌&&◌, if◌then◌else◌, sym, subst, Bool,
  ◌⊎◌, ◌∙◌,
}
use xmlhttp_request.Callbacks.Trace.{Call, run, step}
use xmlhttp_request.Io.{Io, stop, reports, after_call, apply_calls, called}
use xmlhttp_request.Io.Laws.{Same, Same-refl, Same-trans, log-Same}
use xmlhttp_request.Io.Stop.{stop-Same, stop-down, stop_same}

module _ {L : Type 0} where
  -- The state behind the handler itself.
  abbrev pub handled : Call → Io L → Io L
  handled c s = record s { app = step s.app c; log = s.log ++ called c ∷ [] }

  handled-Same : (c : Call) (s : Io L) → Same s (handled c s)
  handled-Same c s =
      let quiet = log-Same s (called c ∷ []) refl in
      record { wb = refl; pending = refl; session = refl; writing = refl; sent = quiet.sent }

  -- A handler stops the session or does not.
  pub after_call-cases :
      (c : Call) (s : Io L) → (after_call c s ≡ handled c s) ⊎ (after_call c s ≡ stop (handled c s))
  unfolding after_call
  after_call-cases c s =
      let ends = λ (b : Bool). if b then stop (handled c s) else handled c s in
      elim (Bool-cases (s.stops_on_ready && reports c s.app)) [
        | inl e ↦ inr (ap ends e)
        | inr e ↦ inl (ap ends e)
      ]

  pub after_call-Same : (c : Call) (s : Io L) → Same s (after_call c s)
  after_call-Same c s = elim (after_call-cases c s) [
    | inl e ↦ subst (Same s) (sym e) (handled-Same c s)
    | inr e ↦ subst (Same s) (sym e) (Same-trans (handled-Same c s) (stop-Same (handled c s)))
  ]

  pub apply_calls-Same : (cs : List Call) (s : Io L) → Same s (apply_calls cs s)
  unfolding apply_calls
  apply_calls-Same [] s = Same-refl s
  apply_calls-Same (c ∷ cs) s =
      Same-trans (after_call-Same c s) (apply_calls-Same cs (after_call c s))

  -- What changes neither the settings of a connection nor whether nghttp2 has a session.
  pub record Steady (s s' : Io L) : Type 0 where
    pub setting : s'.stops_on_ready ≡ s.stops_on_ready
    pub had : s'.has_session ≡ s.has_session

  pub Steady-refl : (s : Io L) → Steady s s
  Steady-refl s = record { setting = refl; had = refl }

  pub Steady-trans : {s t u : Io L} → Steady s t → Steady t u → Steady s u
  Steady-trans a b = record { setting = b.setting ∙ a.setting; had = b.had ∙ a.had }

  pub stop-Steady : (s : Io L) → Steady s (stop s)
  stop-Steady s = elim (Bool-cases s.stopped) [
    | inl e ↦ subst (Steady s) (sym (stop_same s e)) (Steady-refl s)
    | inr e ↦ subst (Steady s) (sym (stop-down s e)) (record { setting = refl; had = refl })
  ]

  after_call-Steady : (c : Call) (s : Io L) → Steady s (after_call c s)
  after_call-Steady c s =
      let h : Steady s (handled c s) = record { setting = refl; had = refl } in
      elim (after_call-cases c s) [
        | inl e ↦ subst (Steady s) (sym e) h
        | inr e ↦ subst (Steady s) (sym e) (Steady-trans h (stop-Steady (handled c s)))
      ]

  pub apply_calls-Steady : (cs : List Call) (s : Io L) → Steady s (apply_calls cs s)
  unfolding apply_calls
  apply_calls-Steady [] s = Steady-refl s
  apply_calls-Steady (c ∷ cs) s =
      Steady-trans (after_call-Steady c s) (apply_calls-Steady cs (after_call c s))

  -- What the handlers make of the streams.
  stop-app : (s : Io L) → (stop s).app ≡ s.app
  stop-app s = elim (Bool-cases s.stopped) [
    | inl e ↦ ap (λ t. t.app) (stop_same s e)
    | inr e ↦ ap (λ t. t.app) (stop-down s e)
  ]

  after_call-app : (c : Call) (s : Io L) → (after_call c s).app ≡ step s.app c
  after_call-app c s = elim (after_call-cases c s) [
    | inl e ↦ ap (λ t. t.app) e
    | inr e ↦ ap (λ t. t.app) e ∙ stop-app (handled c s)
  ]

  pub apply_calls-app : (cs : List Call) (s : Io L) → (apply_calls cs s).app ≡ run s.app cs
  unfolding apply_calls run
  apply_calls-app [] s = refl
  apply_calls-app (c ∷ cs) s =
      apply_calls-app cs (after_call c s) ∙ ap (λ t. run t cs) (after_call-app c s)

  pub apply_calls-append :
      (xs ys : List Call) (s : Io L) → apply_calls (xs ++ ys) s ≡ apply_calls ys (apply_calls xs s)
  unfolding apply_calls
  apply_calls-append [] ys s = refl
  apply_calls-append (c ∷ xs) ys s = apply_calls-append xs ys (after_call c s)
