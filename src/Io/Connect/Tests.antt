-- ===== src/Io/Connect/Tests.antt =====
-- The sample connection before it starts, and after it was stopped.
use xmlhttp_request.Prelude.{
  [], arith, codes, false, if◌then◌else◌, inr, none, refl, some, true, ℕ, ◌++◌, ◌∷◌, ◌≡◌,
}
use xmlhttp_request.Io.{Io, connect_callback}
use xmlhttp_request.Io.Laws.{InBounds}
use xmlhttp_request.Io.Write.{Written}
use xmlhttp_request.Io.Sample.{queue, queue-IsLawful, connected}
use xmlhttp_request.Io.Connect.{Network, start_resolve}
use xmlhttp_request.Io.Connect.Mild.{ready}
use xmlhttp_request.Io.Connect.Laws.{start_resolve_lem, start_resolve-again}

abbrev idle : Io ℕ
idle = record connected { stopped = true; has_session = false; session = 0 }

idle-InBounds : InBounds idle
idle-InBounds = record {
  buffer_fits = omega arith;
  pending_fits = omega arith;
  copy_fits = inr (omega arith);
}

-- A host that agrees on HTTP/1.1.
abbrev open_network : Network
open_network = record {
  resolves = true;
  connects = true;
  shakes_hands = true;
  next_proto = none;
  alpn = some (codes "http/1.1");
}

abbrev no_network : Network
no_network = record open_network { resolves = false }

start_resolve_lem_example :
    (s' : Io ℕ) × (start_resolve queue 9 (some 0) open_network idle ≡ some (s', false))
    × Written queue queue-IsLawful (ready queue 0 idle) s'
start_resolve_lem_example =
    start_resolve_lem queue queue-IsLawful 9 0 open_network idle refl refl refl idle-InBounds
      (omega arith)

abbrev used : Io ℕ
used = record connected { stopped = true }

start_resolve-again_example :
    (s' : Io ℕ) × (start_resolve queue 9 none open_network used ≡ some (s', false))
    × (s'.stopped ≡ false)
    × (s'.session ≡ used.session)
    × (s'.log ≡ used.log ++ (if used.has_start_callback then connect_callback ∷ [] else []))
start_resolve-again_example =
    start_resolve-again queue queue-IsLawful 9 none open_network used refl refl refl
