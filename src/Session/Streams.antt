-- ===== src/Session/Streams.antt =====
-- The laws of the map of streams.
use xmlhttp_request.Prelude.{
  All, List, [], arith, if◌then◌else◌, none, refl, some, ℕ, ◌==◌, ◌∷◌, ◌≡◌, ◌≢◌, Bool-cases, inl,
  inr, ◌∙◌,
}
use xmlhttp_request.Stream.{Stream}
use xmlhttp_request.Session.{Streams, find_in, try_emplace, erase_in, update_in}

pub find_in-try_emplace :
    (id other : ℕ) (strm : Stream) (m : Streams)
    → find_in other (try_emplace id strm m).0 ≡ elim (find_in id m) [
      | none ↦ if id == other then some strm else find_in other m
      | some _ ↦ find_in other m
    ]
unfolding find_in try_emplace
find_in-try_emplace id other strm [] = refl
find_in-try_emplace id other strm ((k, u) ∷ m) = ground (arith, find_in-try_emplace id other strm m)

pub find_in-update_in :
    (id other : ℕ) (f : Stream → Stream) (m : Streams)
    → find_in other (update_in id f m) ≡ (
        if id == other
        then elim (find_in id m) [ none ↦ none | some u ↦ some (f u) ]
        else find_in other m)
unfolding find_in update_in
find_in-update_in id other f [] = ground arith
find_in-update_in id other f ((k, u) ∷ m) = ground (arith, find_in-update_in id other f m)

-- The keys of the map.
abbrev pub keys : Streams → List ℕ
keys [] = []
keys ((k, strm) ∷ m) = k ∷ keys m

abbrev pub Lacks : ℕ → List ℕ → Type 0
Lacks id = All (λ k. k ≢ id)

abbrev pub AllDistinct : List ℕ → Type 0
AllDistinct [] = Unit
AllDistinct (k ∷ ks) = Lacks k ks × AllDistinct ks

-- Each stream is filed under its own id, and under no other.
abbrev pub Filed : Streams → Type 0
Filed = All (λ e. e.1.stream_id_ ≡ e.0)

pub record IsValid (m : Streams) : Type 0 where
  pub distinct : AllDistinct (keys m)
  pub filed : Filed m

keys-update_in : (id : ℕ) (f : Stream → Stream) (m : Streams) → keys (update_in id f m) ≡ keys m
unfolding update_in
keys-update_in id f [] = refl
keys-update_in id f ((k, u) ∷ m) = ground (arith, keys-update_in id f m)

Lacks-try_emplace :
    (j id : ℕ) (strm : Stream) (m : Streams)
    → id ≢ j
    → Lacks j (keys m)
    → Lacks j (keys (try_emplace id strm m).0)
unfolding try_emplace
Lacks-try_emplace j id strm [] ne h = (ne, tt)
Lacks-try_emplace j id strm ((k, u) ∷ m) ne h = ground (arith, Lacks-try_emplace j id strm m ne h.1)

Lacks-erase_in : (j id : ℕ) (m : Streams) → Lacks j (keys m) → Lacks j (keys (erase_in id m))
unfolding erase_in
Lacks-erase_in j id [] h = tt
Lacks-erase_in j id ((k, u) ∷ m) h = ground (arith, Lacks-erase_in j id m h.1)

find_in-Lacks : (id : ℕ) (m : Streams) → Lacks id (keys m) → find_in id m ≡ none
unfolding find_in
find_in-Lacks id [] h = refl
find_in-Lacks id ((k, u) ∷ m) h = ground (arith, find_in-Lacks id m h.1)

pub find_in-erase_in :
    (id other : ℕ) (m : Streams)
    → AllDistinct (keys m)
    → find_in other (erase_in id m) ≡ (if id == other then none else find_in other m)
unfolding find_in erase_in
find_in-erase_in id other [] d = ground arith
find_in-erase_in id other ((k, u) ∷ m) (l, d) =
    ground (arith, find_in-Lacks k m l, find_in-erase_in id other m d)

AllDistinct-try_emplace :
    (id : ℕ) (strm : Stream) (m : Streams)
    → AllDistinct (keys m)
    → AllDistinct (keys (try_emplace id strm m).0)
unfolding try_emplace
AllDistinct-try_emplace id strm [] d = (tt, tt)
AllDistinct-try_emplace id strm ((k, u) ∷ m) (l, d) = elim (Bool-cases (k == id)) [
  | inl e ↦ rw e (l, d)
  | inr e ↦
      rw e (Lacks-try_emplace k id strm m (ground arith) l, AllDistinct-try_emplace id strm m d)
]

AllDistinct-erase_in :
    (id : ℕ) (m : Streams) → AllDistinct (keys m) → AllDistinct (keys (erase_in id m))
unfolding erase_in
AllDistinct-erase_in id [] d = tt
AllDistinct-erase_in id ((k, u) ∷ m) (l, d) = elim (Bool-cases (k == id)) [
  | inl e ↦ rw e d
  | inr e ↦ rw e (Lacks-erase_in k id m l, AllDistinct-erase_in id m d)
]

Filed-try_emplace :
    (id : ℕ) (strm : Stream) (m : Streams)
    → strm.stream_id_ ≡ id
    → Filed m
    → Filed (try_emplace id strm m).0
unfolding try_emplace
Filed-try_emplace id strm [] e h = (e, tt)
Filed-try_emplace id strm ((k, u) ∷ m) e (hk, h) = elim (Bool-cases (k == id)) [
  | inl t ↦ rw t (hk, h)
  | inr t ↦ rw t (hk, Filed-try_emplace id strm m e h)
]

Filed-erase_in : (id : ℕ) (m : Streams) → Filed m → Filed (erase_in id m)
unfolding erase_in
Filed-erase_in id [] h = tt
Filed-erase_in id ((k, u) ∷ m) (hk, h) = elim (Bool-cases (k == id)) [
  | inl t ↦ rw t h
  | inr t ↦ rw t (hk, Filed-erase_in id m h)
]

Filed-update_in :
    (id : ℕ) (f : Stream → Stream) (m : Streams)
    → ((u : Stream) → (f u).stream_id_ ≡ u.stream_id_)
    → Filed m
    → Filed (update_in id f m)
unfolding update_in
Filed-update_in id f [] e h = tt
Filed-update_in id f ((k, u) ∷ m) e (hk, h) = elim (Bool-cases (k == id)) [
  | inl t ↦ rw t (e u ∙ hk, h)
  | inr t ↦ rw t (hk, Filed-update_in id f m e h)
]

pub try_emplace-IsValid :
    (strm : Stream) (m : Streams) → IsValid m → IsValid (try_emplace strm.stream_id_ strm m).0
try_emplace-IsValid strm m v = record {
  distinct = AllDistinct-try_emplace strm.stream_id_ strm m v.distinct;
  filed = Filed-try_emplace strm.stream_id_ strm m refl v.filed;
}

pub erase_in-IsValid : (id : ℕ) (m : Streams) → IsValid m → IsValid (erase_in id m)
erase_in-IsValid id m v = record {
  distinct = AllDistinct-erase_in id m v.distinct;
  filed = Filed-erase_in id m v.filed;
}

pub update_in-IsValid :
    (id : ℕ) (f : Stream → Stream) (m : Streams)
    → ((u : Stream) → (f u).stream_id_ ≡ u.stream_id_)
    → IsValid m
    → IsValid (update_in id f m)
update_in-IsValid id f m e v = record {
  distinct = rw (keys-update_in id f m) v.distinct;
  filed = Filed-update_in id f m e v.filed;
}
