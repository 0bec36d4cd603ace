-- ===== src/Io/Replay/Reach.antt =====
-- Whole runs of a connection: what holds of the handlers in any order holds of its streams.
use xmlhttp_request.Prelude.{
  Bool, Option, [], if_both, refl, some, subst, sym, ℕ, ◌++◌, ◌||◌, ◌∷◌, ◌≡◌,
}
use xmlhttp_request.Stream.{new_stream}
use xmlhttp_request.Session.{add_stream}
use xmlhttp_request.Callbacks.Trace.{step}
use xmlhttp_request.Io.{Io, Nghttp2, filed, on_ping, on_read, on_written, submit_ping, write}
use xmlhttp_request.Io.Laws.{IsLawful}
use xmlhttp_request.Io.Submit.{Library, Order, submit}
use xmlhttp_request.Io.Submit.Laws.{OnReturn, submit-OnReturn}
use xmlhttp_request.Io.Submit.Laws.{asked as asked_of}
use xmlhttp_request.Io.Connect.Follows.{Resolves, start_ping_of-Leads, start_resolve-Resolves}
use xmlhttp_request.Io.Replay.{
  Follows, Follows-refl, Follows-trans, Follows-same, replay, stop-Follows,
}
use xmlhttp_request.Io.Replay.Write.{
  Leads, write-Leads, write-Leads_from, on_written-Leads, on_read-Leads,
}
use xmlhttp_request.Io.Reach.{
  Step, resolved, asked, written, received, pinged, submitted, stopped, Reach, here, next,
}

module _ {L : Type 0} (lib : Nghttp2 L) (requests : Library L) (laws : IsLawful lib) where
  at-end : (s s' : Io L) (r : Option (Io L)) → r ≡ some s' → Leads s r → Follows s s'
  at-end s s' r e h = subst (Leads s) e h

  submit_ping-Follows : (aborted : Bool) (s : Io L) → Follows s (submit_ping lib aborted s)
  unfolding submit_ping
  submit_ping-Follows aborted s =
      if_both (Follows s) (s.stopped || aborted) _ _ (Follows-refl s)
        (Follows-same s (record s { session = lib.submit_ping_frame s.session }) refl refl)

  filed-Follows :
      (s : Io L) (l : L) (n : ℕ)
      → Follows s (record s {
        session = l;
        app = (add_stream s.app (new_stream n)).0;
        log = s.log ++ filed n ∷ [];
      })
  unfolding replay
  filed-Follows s l n = record { new = filed n ∷ []; grown = refl; replays = refl }

  pub submit-Follows :
      (held : Bool) (o : Order) (s : Io L) → OnReturn (Follows s) (submit requests held o s)
  submit-Follows held o s =
      submit-OnReturn requests (Follows s) held o s (Follows-refl s)
        (λ u. Follows-same s (record s { session = (asked_of requests s u o).0 }) refl refl)
        (λ u n. filed-Follows s (asked_of requests s u o).0 n)

  Step-Follows : (s s' : Io L) → Step lib requests laws s s' → Follows s s'
  Step-Follows s s' (resolved fuel fresh net failed h e) =
      subst (Resolves lib s) e (start_resolve-Resolves lib fuel fresh net s)
  Step-Follows s s' (asked fuel h e) = at-end s s' (write lib fuel s) e (write-Leads lib fuel s)
  Step-Follows s s' (written fuel ec w h e) =
      at-end s s' (on_written lib fuel ec s) e (on_written-Leads lib fuel ec s)
  Step-Follows s s' (received fuel ec bytes h e) =
      at-end s s' (on_read lib fuel ec bytes s) e (on_read-Leads lib fuel ec bytes s)
  Step-Follows s s' (pinged fuel aborted h e) = at-end s s' (on_ping lib fuel aborted s) e (
      unfold on_ping in
      start_ping_of-Leads s (write lib fuel (submit_ping lib aborted s))
        (write-Leads_from lib fuel s (submit_ping lib aborted s) (submit_ping-Follows aborted s)))
  Step-Follows s s' (submitted held o ec id e) =
      subst (OnReturn (Follows s)) e (submit-Follows held o s)
  Step-Follows s s' (stopped e) = subst (Follows s) (sym e) (stop-Follows s)

  -- However a connection goes on, its streams and what was reported to the application are what the
  -- log tells: each entry of a handler has run it, and each entry of a request has added its stream.
  pub Reach-Follows : (s s' : Io L) → Reach lib requests laws s s' → Follows s s'
  Reach-Follows s s' here = Follows-refl s
  Reach-Follows s s' (next r step) = Follows-trans (Reach-Follows s _ r) (Step-Follows _ s' step)
