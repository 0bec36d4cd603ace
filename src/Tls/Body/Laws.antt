-- ===== src/Tls/Body/Laws.antt =====
-- A body is sent whole.
use xmlhttp_request.Prelude.{
  All, Bytes, List, [], length, true, ℕ, ◌++◌, ◌<◌, ◌∷◌, ◌≡◌, ap, arith, drop, ltb, suc, take,
  take-append-drop, zero, ◌-◌, ◌∙◌, false, refl,
}
use xmlhttp_request.Tls.Body.{min, recive_callback, read_all}

abbrev pub join : List Bytes → Bytes
join [] = []
join (chunk ∷ chunks) = chunk ++ join chunks

length-drop : (k : ℕ) (s : Bytes) → length (drop k s) ≡ length s - k
length-drop zero s = omega arith
length-drop (suc k) [] = omega arith
length-drop (suc k) (c ∷ s) = omega (arith, length-drop k s)

min-pos : (c len : ℕ) (s : Bytes) → 0 < len → ltb 0 (min (length (c ∷ s)) len) ≡ true
min-pos c len s h = ground arith

min-none : (len : ℕ) → ltb 0 (min 0 len) ≡ false
min-none len = ground arith

min-below : (a b : ℕ) → 0 < a → 0 < b → 0 < min a b
min-below a b h k = ground arith

-- Buffers with room, one more than the body has bytes, receive the body whole, in order, and then
-- the end of the data.
pub read_all_lem :
    (body : Bytes) (sizes : List ℕ)
    → All (λ len. 0 < len) sizes
    → length body < length sizes
    → (join (read_all body sizes).0 ≡ body)
      × ((read_all body sizes).1 ≡ [])
      × ((read_all body sizes).2 ≡ true)
unfolding read_all recive_callback
read_all_lem body [] p h = absurd (omega arith)
read_all_lem [] (len ∷ sizes) p h = rw (min-none len) (refl, refl, refl)
read_all_lem (c ∷ body) (len ∷ sizes) (p, ps) h =
    let k = min (length (c ∷ body)) len in
    let (whole, none_left, ended) = read_all_lem (drop k (c ∷ body)) sizes ps (
      omega (arith, length-drop k (c ∷ body), min-below (length (c ∷ body)) len (omega arith) p)) in
    rw (min-pos c len body p)
      (ap (λ t. take k (c ∷ body) ++ t) whole ∙ take-append-drop k (c ∷ body), none_left, ended)
