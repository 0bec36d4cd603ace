-- ===== src/Io/Replay.antt =====
-- The streams of a connection against the handlers that nghttp2 calls: whatever happens, they are what
-- the handlers make of them, in the order of their calls.
pub mod Write
pub mod Reach
pub mod Streams
pub mod Closing
pub mod Sample
pub mod Tests
use xmlhttp_request.Prelude.{
  Bool, Bool-cases, List, [], ap, append-nil, append_assoc, inl, inr, refl, subst, sym, ◌++◌, ◌∙◌,
  ◌∷◌, ◌≡◌,
}
use xmlhttp_request.Stream.{new_stream}
use xmlhttp_request.Session.{Session, add_stream}
use xmlhttp_request.Callbacks.Trace.{Call, step}
use xmlhttp_request.Io.{
  Action, called, filed, Io, stop, after_call, apply_calls, cancel_ping, shutdown_socket,
  cancel_deadline,
}
use xmlhttp_request.Io.Stop.{down, stop_same, stop-down}
use xmlhttp_request.Io.Calls.{handled, after_call-cases}

-- The handlers of a log and the streams that `submit` files, run in their order.
unfoldable pub replay : Session → List Action → Session
replay a [] = a
replay a (called c ∷ log) = replay (step a c) log
replay a (filed id ∷ log) = replay (add_stream a (new_stream id)).0 log
replay a (_ ∷ log) = replay a log

pub replay-append :
    (a : Session) (xs ys : List Action) → replay a (xs ++ ys) ≡ replay (replay a xs) ys
unfolding replay
replay-append a [] ys = refl
replay-append a (called c ∷ xs) ys = replay-append (step a c) xs ys
replay-append a (filed id ∷ xs) ys = replay-append (add_stream a (new_stream id)).0 xs ys
replay-append a (_ ∷ xs) ys = replay-append a xs ys

-- What was done between two states: the log has grown by `new`, and the streams are what it makes.
pub record Follows {L : Type 0} (s s' : Io L) : Type 0 where
  pub new : List Action
  pub grown : s'.log ≡ s.log ++ new
  pub replays : s'.app ≡ replay s.app new

module _ {L : Type 0} where
  pub Follows-refl : (s : Io L) → Follows s s
  unfolding replay
  Follows-refl s = record { new = []; grown = sym (append-nil s.log); replays = refl }

  pub Follows-trans : {s t u : Io L} → Follows s t → Follows t u → Follows s u
  Follows-trans {s} f g = record {
    new = f.new ++ g.new;
    grown = g.grown ∙ ap (λ l. l ++ g.new) f.grown ∙ append_assoc s.log f.new g.new;
    replays =
        g.replays ∙ ap (λ a. replay a g.new) f.replays ∙ sym (replay-append s.app f.new g.new);
  }

  -- A state with the same log and the same streams.
  pub Follows-same : (s t : Io L) → t.log ≡ s.log → t.app ≡ s.app → Follows s t
  unfolding replay
  Follows-same s t l a = record { new = []; grown = l ∙ sym (append-nil s.log); replays = a }

  pub stop-Follows : (s : Io L) → Follows s (stop s)
  unfolding replay
  stop-Follows s = elim (Bool-cases s.stopped) [
    | inl e ↦ subst (Follows s) (sym (stop_same s e)) (Follows-refl s)
    | inr e ↦ subst (Follows s) (sym (stop-down s e)) (record {
      new = cancel_ping ∷ shutdown_socket ∷ cancel_deadline ∷ [];
      grown = refl;
      replays = refl;
    })
  ]

  handled-Follows : (c : Call) (s : Io L) → Follows s (handled c s)
  unfolding replay
  handled-Follows c s = record { new = called c ∷ []; grown = refl; replays = refl }

  after_call-Follows : (c : Call) (s : Io L) → Follows s (after_call c s)
  after_call-Follows c s = elim (after_call-cases c s) [
    | inl e ↦ subst (Follows s) (sym e) (handled-Follows c s)
    | inr e ↦
        subst (Follows s) (sym e) (Follows-trans (handled-Follows c s) (stop-Follows (handled c s)))
  ]

  pub apply_calls-Follows : (cs : List Call) (s : Io L) → Follows s (apply_calls cs s)
  unfolding apply_calls
  apply_calls-Follows [] s = Follows-refl s
  apply_calls-Follows (c ∷ cs) s =
      Follows-trans (after_call-Follows c s) (apply_calls-Follows cs (after_call c s))
