-- ===== src/Tls/Body/Tests.antt =====
-- A body of three bytes in buffers of two.
use xmlhttp_request.Prelude.{List, [], arith, codes, refl, true, ℕ, ◌∷◌, ◌≡◌}
use xmlhttp_request.Tls.Body.{read_all}
use xmlhttp_request.Tls.Body.Laws.{join, read_all_lem}

abbrev sizes : List ℕ
sizes = 2 ∷ 2 ∷ 2 ∷ 2 ∷ []

read_abc : (read_all (codes "abc") sizes).0 ≡ codes "ab" ∷ codes "c" ∷ []
unfolding read_all
read_abc = refl

read_all_lem_example :
    (join (read_all (codes "abc") sizes).0 ≡ codes "abc")
    × ((read_all (codes "abc") sizes).1 ≡ [])
    × ((read_all (codes "abc") sizes).2 ≡ true)
read_all_lem_example =
    read_all_lem (codes "abc") sizes (omega arith, (omega arith, (omega arith, (omega arith, tt))))
      (omega arith)
