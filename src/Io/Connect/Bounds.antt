-- ===== src/Io/Connect/Bounds.antt =====
-- The bounds of the write buffer while a connection starts.
use xmlhttp_request.Prelude.{
  Bool, Bool-cases, Option, false, if◌then◌else◌, inl, inr, length, refl, some, subst, sym, true, ℕ,
  ◌<◌, ◌≡◌, arith, none, ◌⊎◌,
}
use xmlhttp_request.Io.{stop, Io, Nghttp2, on_socket_connected}
use xmlhttp_request.Io.Laws.{InBounds, IsLawful}
use xmlhttp_request.Io.Connect.{start_connect, start_resolve, Network, connected_of, notify_connect}
use xmlhttp_request.Io.Connect.Mild.{notify_connect-Mild, on_socket_connected-Writes}
use xmlhttp_request.Io.Stop.{stop-InBounds}
use xmlhttp_request.Io.Laws.{Same-InBounds}
use xmlhttp_request.Io.Connect.Laws.{again-connected}

module _ {L : Type 0} (lib : Nghttp2 L) (laws : IsLawful lib) where
  -- A call that ends, within the bounds.
  abbrev Ends : Option (Io L) → Type 0
  Ends result = (t : Io L) × (result ≡ some t) × InBounds t

  running-InBounds : (s : Io L) → InBounds s → InBounds (record s { stopped = false })
  running-InBounds s b = record {
    buffer_fits = b.buffer_fits;
    pending_fits = b.pending_fits;
    copy_fits = b.copy_fits;
  }

  on_socket_connected-Ends :
      (fuel : ℕ) (fresh : Option L) (s : Io L)
      → InBounds s
      → ((l : L) → fresh ≡ some l → length (laws.todo (lib.submit_settings l)) < fuel)
      → Ends (on_socket_connected lib fuel fresh s)
  on_socket_connected-Ends fuel none s b h = (
    record s { stopped = false },
    unfold on_socket_connected in ground arith,
    running-InBounds s b,
  )
  on_socket_connected-Ends fuel (some l) s b h = elim (Bool-cases s.has_session) [
    | inl e ↦ (
      record s { stopped = false },
      again-connected lib laws fuel (some l) s e,
      running-InBounds s b,
    )
    | inr e ↦
        let (t, found, w) = on_socket_connected-Writes lib laws fuel l s e b (h l refl) in
        (t, found, w.bounds)
  ]

  -- How `startConnect` ends.
  start_connect-cases :
      (net : Network) (s : Io L)
      → (start_connect net s ≡ (s, false))
        ⊎ ((start_connect net s ≡ (s, true)) ⊎ (start_connect net s ≡ (stop s, true)))
  unfolding start_connect
  start_connect-cases net s = elim (Bool-cases s.stopped) [
    | inr e ↦ inl (ground arith)
    | inl e ↦ elim (Bool-cases net.connects) [
      | inr f ↦ inr (inl (ground arith))
      | inl f ↦ elim (Bool-cases net.shakes_hands) [
        | inr g ↦ inr (inr (ground arith))
        | inl g ↦ inl (ground arith)
      ]
    ]
  ]

  -- What is behind `startConnect`.
  abbrev behind : ℕ → Option L → Io L × Bool → Option (Io L × Bool)
  behind fuel fresh (s1, failed) =
      if failed then some (stop s1, true) else connected_of (on_socket_connected lib fuel fresh s1)

  abbrev pub Stays : Option (Io L × Bool) → Type 0
  Stays result = (r : Io L × Bool) × (result ≡ some r) × InBounds r.0

  connected_of-Stays : (r : Option (Io L)) → Ends r → Stays (connected_of r)
  unfolding connected_of
  connected_of-Stays r (t, found, b) =
      let mild = notify_connect-Mild t in
      ((notify_connect t, false), rw found refl, Same-InBounds mild.same b)

  -- However `startResolve` ends, it ends within the bounds.
  pub start_resolve-Ends :
      (fuel : ℕ) (fresh : Option L) (net : Network) (s : Io L)
      → InBounds s
      → ((l : L) → fresh ≡ some l → length (laws.todo (lib.submit_settings l)) < fuel)
      → Stays (start_resolve lib fuel fresh net s)
  unfolding start_resolve
  start_resolve-Ends fuel fresh net s b h = elim (Bool-cases net.resolves) [
    | inr e ↦ rw e ((stop s, true), refl, stop-InBounds s b)
    | inl e ↦ rw e (elim (start_connect-cases net s) [
      | inl c ↦
          subst (λ x. Stays (behind fuel fresh x)) (sym c)
            (connected_of-Stays (on_socket_connected lib fuel fresh s)
              (on_socket_connected-Ends fuel fresh s b h))
      | inr (inl c) ↦
          subst (λ x. Stays (behind fuel fresh x)) (sym c) ((stop s, true), refl, stop-InBounds s b)
      | inr (inr c) ↦
          subst (λ x. Stays (behind fuel fresh x)) (sym c)
            ((stop (stop s), true), refl, stop-InBounds (stop s) (stop-InBounds s b))
    ])
  ]
