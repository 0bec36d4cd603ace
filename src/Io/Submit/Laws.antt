-- ===== src/Io/Submit/Laws.antt =====
-- How `submit` ends.
use xmlhttp_request.Prelude.{
  Bool, Bytes, codes, drop, length, take, false, none, pos, some, true, ℕ, ◌&&◌, ◌≡◌, ==_self, ap,
  arith, if◌then◌else◌, refl, ◌∙◌, [], ℤ, ◌++◌, ◌∷◌, Bool-cases, inl, inr, negsuc, Option, subst,
  sym, List,
}
use xmlhttp_request.Stream.{new_stream}
use xmlhttp_request.Session.{Session, add_stream, find_stream}
use xmlhttp_request.Session.Streams.{find_in-try_emplace}
use xmlhttp_request.Io.{Io, filed}
use xmlhttp_request.Io.Submit.{
  Submitted, Url, Nv, header_nvs, path_of, Library, Order, ErrorCode, returned, blocked,
  request_nva, is_set, waits, after_request, submit_url, submit,
}

-- The characters of the URL that are its scheme.
abbrev pub scheme_in : Option (ℕ × ℕ) → Bytes → Bytes
scheme_in none url = []
scheme_in (some (off, len)) url = take len (drop off url)

-- The pairs that nghttp2 is handed: the text of the method is gone.
abbrev pub pairs_of : Url → Order → List Nv
pairs_of u o =
    record { name = codes ":method"; value = none; valuelen = length o.method; flags = 2 }
    ∷ record {
      name = codes ":scheme";
      value = some (scheme_in u.schema o.url);
      valuelen = length (scheme_in u.schema o.url);
      flags = 2;
    }
    ∷ record {
      name = codes ":path";
      value = some (path_of u o.url);
      valuelen = length (path_of u o.url);
      flags = 2;
    }
    ∷ header_nvs o.header_

-- A new stream is found under its id, if that was free.
pub find-added :
    (id : ℕ) (a : Session)
    → find_stream a id ≡ none
    → find_stream (add_stream a (new_stream id)).0 id ≡ some (new_stream id)
unfolding find_stream add_stream new_stream
find-added id a free =
    find_in-try_emplace id id (new_stream id) a.streams ∙ rw (free, ==_self id) refl

module _ {L : Type 0} where
  -- What is asked of nghttp2.
  abbrev pub asked : Library L → Io L → Url → Order → L × ℤ
  asked lib s u o = lib.submit_request s.session (request_nva u o.url o.method o.header_) o.body

  waits-busy : (held : Bool) (s : Io L) → s.writing ≡ true → waits held s ≡ false
  unfolding waits
  waits-busy held s busy = ground arith

  waits-idle : (s : Io L) → s.stopped ≡ false → s.writing ≡ false → waits false s ≡ true
  unfolding waits
  waits-idle s runs idle = ground arith

  submit_url_lem :
      (lib : Library L) (held : Bool) (o : Order) (s : Io L) (u : Url) (id : ℕ)
      → is_set u.schema && is_set u.host ≡ true
      → (asked lib s u o).1 ≡ pos id
      → submit_url lib held o s (some u)
        ≡ after_request held (record s { session = (asked lib s u o).0 }) (pos id)
  unfolding submit_url
  submit_url_lem lib held o s u id set_fields given = rw (set_fields, given) refl

  pub after_request-busy :
      (held : Bool) (s : Io L) (id : ℕ)
      → s.writing ≡ true
      → after_request held s (pos id)
        ≡ returned
            (record s { app = (add_stream s.app (new_stream id)).0; log = s.log ++ filed id ∷ [] })
            ErrorCode.success
            (pos id)
  unfolding after_request
  after_request-busy held s id busy =
      ap
        (λ b.
          if b
          then blocked
          else returned
              (record s {
                app = (add_stream s.app (new_stream id)).0;
                log = s.log ++ filed id ∷ [];
              })
              ErrorCode.success (pos id))
        (waits-busy held s busy)

  after_request-idle :
      (s : Io L) (id : ℕ)
      → s.stopped ≡ false
      → s.writing ≡ false
      → after_request false s (pos id) ≡ blocked
  unfolding after_request
  after_request-idle s id runs idle =
      ap
        (λ b.
          if b
          then blocked
          else returned
              (record s {
                app = (add_stream s.app (new_stream id)).0;
                log = s.log ++ filed id ∷ [];
              })
              ErrorCode.success (pos id))
        (waits-idle s runs idle)

  -- The call up to nghttp2.
  pub submit-after_request :
      (lib : Library L) (held : Bool) (o : Order) (s : Io L) (u : Url) (id : ℕ)
      → s.stopped ≡ false
      → lib.parse_url o.url ≡ some u
      → is_set u.schema && is_set u.host ≡ true
      → (asked lib s u o).1 ≡ pos id
      → submit lib held o s
        ≡ after_request held (record s { session = (asked lib s u o).0 }) (pos id)
  unfolding submit
  submit-after_request lib held o s u id runs parsed set_fields given =
      ap
        (λ b.
          if b
          then returned s ErrorCode.success (pos 0)
          else submit_url lib held o s (lib.parse_url o.url))
        runs
      ∙ ap (submit_url lib held o s) parsed
      ∙ submit_url_lem lib held o s u id set_fields given

  -- On a session that runs and is not writing, where no other thread is inside a callback, such a
  -- request waits for ever: `submit` holds the mutex that `write` locks.
  pub submit-blocked :
      (lib : Library L) (o : Order) (s : Io L) (u : Url) (id : ℕ)
      → s.stopped ≡ false
      → s.writing ≡ false
      → lib.parse_url o.url ≡ some u
      → is_set u.schema && is_set u.host ≡ true
      → (asked lib s u o).1 ≡ pos id
      → submit lib false o s ≡ blocked
  submit-blocked lib o s u id runs idle parsed set_fields given =
      let l = (asked lib s u o).0 in
      submit-after_request lib false o s u id runs parsed set_fields given
      ∙ after_request-idle (record s { session = l }) id runs idle

  -- On a stopped session nothing is done, and no error is returned.
  pub submit-stopped :
      (lib : Library L) (held : Bool) (o : Order) (s : Io L)
      → s.stopped ≡ true
      → submit lib held o s ≡ returned s ErrorCode.success (pos 0)
  unfolding submit
  submit-stopped lib held o s st =
      ap
        (λ b.
          if b
          then returned s ErrorCode.success (pos 0)
          else submit_url lib held o s (lib.parse_url o.url))
        st

  -- What holds of the state that a call returns, if it returns.
  abbrev pub OnReturn {ℓ} : (Io L → Type ℓ) → Submitted L → Type ℓ
  OnReturn P (returned s ec id) = P s
  OnReturn P blocked = Unit

  after_request-OnReturn {ℓ} :
      (P : Io L → Type ℓ) (held : Bool) (s : Io L) (id : ℤ)
      → P s
      → ((n : ℕ)
          → P (record s { app = (add_stream s.app (new_stream n)).0; log = s.log ++ filed n ∷ [] }))
      → OnReturn P (after_request held s id)
  unfolding after_request
  after_request-OnReturn P held s (negsuc k) p files = p
  after_request-OnReturn P held s (pos n) p files = elim (Bool-cases (waits held s)) [
    | inl e ↦ rw e tt
    | inr e ↦ rw e (files n)
  ]

  submit_url-OnReturn {ℓ} :
      (lib : Library L) (P : Io L → Type ℓ) (held : Bool) (o : Order) (s : Io L) (u : Option Url)
      → P s
      → ((v : Url) → P (record s { session = (asked lib s v o).0 }))
      → ((v : Url) (n : ℕ)
          → P (record s {
            session = (asked lib s v o).0;
            app = (add_stream s.app (new_stream n)).0;
            log = s.log ++ filed n ∷ [];
          }))
      → OnReturn P (submit_url lib held o s u)
  unfolding submit_url
  submit_url-OnReturn lib P held o s none p changes files = p
  submit_url-OnReturn lib P held o s (some u) p changes files =
      let l = (asked lib s u o).0 in
      elim (Bool-cases (is_set u.schema && is_set u.host)) [
        | inl e ↦ rw e (
            after_request-OnReturn P held (record s { session = l }) (asked lib s u o).1 (changes u)
              (files u))
        | inr e ↦ rw e p
      ]

  -- A property of the state before holds of the state behind, if it allows for what nghttp2 makes of
  -- its session and for a new stream.
  pub submit-OnReturn {ℓ} :
      (lib : Library L) (P : Io L → Type ℓ) (held : Bool) (o : Order) (s : Io L)
      → P s
      → ((v : Url) → P (record s { session = (asked lib s v o).0 }))
      → ((v : Url) (n : ℕ)
          → P (record s {
            session = (asked lib s v o).0;
            app = (add_stream s.app (new_stream n)).0;
            log = s.log ++ filed n ∷ [];
          }))
      → OnReturn P (submit lib held o s)
  unfolding submit
  submit-OnReturn lib P held o s p changes files =
      let ends = λ (b : Bool).
        if b
        then returned s ErrorCode.success (pos 0)
        else submit_url lib held o s (lib.parse_url o.url) in
      elim (Bool-cases s.stopped) [
        | inl e ↦ subst (λ b. OnReturn P (ends b)) (sym e) p
        | inr e ↦
            subst (λ b. OnReturn P (ends b)) (sym e)
              (submit_url-OnReturn lib P held o s (lib.parse_url o.url) p changes files)
      ]
