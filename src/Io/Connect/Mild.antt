-- ===== src/Io/Connect/Mild.antt =====
-- What stands behind a write when a connection starts: the next read, the ping and the callback.
use xmlhttp_request.Prelude.{
  Bool, Bool-cases, List, Option, [], ap, false, if◌then◌else◌, inl, inr, length, refl, some, subst,
  sym, true, ℕ, ◌++◌, ◌<◌, ◌∷◌, ◌≡◌, append-nil,
}
use xmlhttp_request.Io.{
  Action, Io, Nghttp2, connect_callback, on_socket_connected, read, read_of, read_socket,
  set_no_delay, start_ping, start_ping_of, wait_ping, write,
}
use xmlhttp_request.Io.Laws.{InBounds, IsLawful, Same, Same-refl, log-Same, wire}
use xmlhttp_request.Io.Write.{Writes, Written, Written-Same, write_lem}
use xmlhttp_request.Io.Connect.{connected_of, notify_connect}

-- What only asks for other things than writing, and does not stop the session.
pub record Mild {L : Type 0} (s s' : Io L) : Type 0 where
  pub same : Same s s'
  pub still : s'.stopped ≡ s.stopped

module _ {L : Type 0} where
  log-Mild :
      (s : Io L) (new : List Action) → wire new ≡ [] → Mild s (record s { log = s.log ++ new })
  log-Mild s new e = record { same = log-Same s new e; still = refl }

  pub read-Mild : (s : Io L) → Mild s (read s)
  unfolding read
  read-Mild s = elim (Bool-cases s.stopped) [
    | inl e ↦
        subst (Mild s) (sym (ap (λ c. if c then s else asked s) e))
          (record { same = Same-refl s; still = refl })
    | inr e ↦
        subst (Mild s) (sym (ap (λ c. if c then s else asked s) e))
          (log-Mild s (read_socket ∷ []) refl)
  ]
    where
      asked : Io L → Io L
      asked s = record s { log = s.log ++ read_socket ∷ [] }

  pub start_ping-Mild : (s : Io L) → Mild s (start_ping s)
  unfolding start_ping
  start_ping-Mild s =
      let quiet = log-Same s (wait_ping ∷ []) refl in
      record {
        same = record {
          wb = refl;
          pending = refl;
          session = refl;
          writing = refl;
          sent = quiet.sent;
        };
        still = refl;
      }

  pub notify_connect-Mild : (s : Io L) → Mild s (notify_connect s)
  unfolding notify_connect
  notify_connect-Mild s =
      let called =
        λ (c : Bool). if c then record s { log = s.log ++ connect_callback ∷ [] } else s in
      elim (Bool-cases s.has_start_callback) [
        | inl e ↦ subst (Mild s) (sym (ap called e)) (log-Mild s (connect_callback ∷ []) refl)
        | inr e ↦ subst (Mild s) (sym (ap called e)) (record { same = Same-refl s; still = refl })
      ]

  pub notify_connect-log :
      (s : Io L)
      → (notify_connect s).log
        ≡ s.log ++ (if s.has_start_callback then connect_callback ∷ [] else [])
  unfolding notify_connect
  notify_connect-log s =
      let logged = λ (b c : Bool).
        (if b then record s { log = s.log ++ connect_callback ∷ [] } else s).log
        ≡ s.log ++ (if c then connect_callback ∷ [] else []) in
      elim (Bool-cases s.has_start_callback) [
        | inl e ↦ subst (λ b. logged b b) (sym e) refl
        | inr e ↦ subst (λ b. logged b b) (sym e) (sym (append-nil s.log))
      ]

  -- The state that the first write of a connection starts in.
  abbrev pub ready : Nghttp2 L → L → Io L → Io L
  ready lib l s = record s {
    stopped = false;
    session = lib.submit_settings l;
    has_session = true;
    log = s.log ++ set_no_delay ∷ [];
  }

module _ {L : Type 0} (lib : Nghttp2 L) (laws : IsLawful lib) where
  pub Written-Mild : (s t u : Io L) → Mild t u → Written lib laws s t → Written lib laws s u
  Written-Mild s t u m w = Written-Same lib laws s t u m.same m.still w

  pub read_of-Writes :
      (r : Option (Io L)) (s : Io L) → Writes lib laws r s → Writes lib laws (read_of r) s
  unfolding read_of
  read_of-Writes r s (t, found, w) =
      (read t, rw found refl, Written-Mild s t (read t) (read-Mild t) w)

  pub start_ping_of-Writes :
      (r : Option (Io L)) (s : Io L) → Writes lib laws r s → Writes lib laws (start_ping_of r) s
  unfolding start_ping_of
  start_ping_of-Writes r s (t, found, w) =
      (start_ping t, rw found refl, Written-Mild s t (start_ping t) (start_ping-Mild t) w)

  pub ready-InBounds : (l : L) (s : Io L) → InBounds s → InBounds (ready lib l s)
  ready-InBounds l s b = record {
    buffer_fits = b.buffer_fits;
    pending_fits = b.pending_fits;
    copy_fits = b.copy_fits;
  }

  -- A first connection: the settings are written, then the next bytes are asked for.
  pub on_socket_connected-Writes :
      (fuel : ℕ) (l : L) (s : Io L)
      → s.has_session ≡ false
      → InBounds s
      → length (laws.todo (lib.submit_settings l)) < fuel
      → Writes lib laws (on_socket_connected lib fuel (some l) s) (ready lib l s)
  unfolding on_socket_connected
  on_socket_connected-Writes fuel l s first b h =
      let s1 : Io L = record s { stopped = false } in
      let running = λ (c : Bool).
        if c then some s1 else start_ping_of (read_of (write lib fuel (ready lib l s))) in
      subst (λ r. Writes lib laws r (ready lib l s)) (sym (ap running first))
        (start_ping_of-Writes (read_of (write lib fuel (ready lib l s))) (ready lib l s) (
          read_of-Writes (write lib fuel (ready lib l s)) (ready lib l s)
            (write_lem lib laws fuel (ready lib l s) (ready-InBounds l s b) h)))

  pub connected_of-Writes :
      (r : Option (Io L)) (s : Io L)
      → Writes lib laws r s
      → (s' : Io L) × (connected_of r ≡ some (s', false)) × Written lib laws s s'
  unfolding connected_of
  connected_of-Writes r s (t, found, w) = (
    notify_connect t,
    rw found refl,
    Written-Mild s t (notify_connect t) (notify_connect-Mild t) w,
  )
