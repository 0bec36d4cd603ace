-- ===== src/Http2/Status/Laws.antt =====
-- The status code functions against the three digit form of RFC 9110.
use xmlhttp_request.Prelude.{
  ap, str_eq_refl, str_eq_sound, switch_on-test, ℕ, ◌+◌, ◌-◌, ◌*◌, ◌≤◌, ◌≡◌, ◌≢◌, refl, ◌↔◌, [],
  ◌∷◌, Bytes, codes, ℤ, pos, negsuc, length, All, IsDigit, decimal_from, ◌==◌, ◌&&◌, ◌||◌, not,
  Bool, true, false, str_eq, all_of, arith,
}
use xmlhttp_request.Http2.Status.{
  reason_phrases, get_reason_phrase, status_texts, stringify_status, status_loop,
  parse_http_status_code,
}

status_loop_sound :
    (s : Bytes) (n r : ℕ)
    → status_loop s n ≡ pos r
    → All IsDigit s × (r ≡ decimal_from n s) × (100 ≤ r)
unfolding status_loop
status_loop_sound [] n r h = ground arith
status_loop_sound (c ∷ s) n r h = ground (arith, status_loop_sound s (n * 10 + (c - b'0')) r)

status_loop_complete :
    (s : Bytes) (n : ℕ)
    → All IsDigit s
    → 100 ≤ decimal_from n s
    → status_loop s n ≡ pos (decimal_from n s)
unfolding status_loop
status_loop_complete [] n h k = ground arith
status_loop_complete (c ∷ s) n h k =
    ground (arith, status_loop_complete s (n * 10 + (c - b'0')) h.1)

-- A code is returned exactly for three digits that spell it, of which the first is not zero.
pub parse_http_status_code-eq-pos_iff :
    (src : Bytes) (n : ℕ)
    → (parse_http_status_code src ≡ pos n)
      ↔ ((length src ≡ 3) × All IsDigit src × (decimal_from 0 src ≡ n) × (100 ≤ n))
unfolding parse_http_status_code
parse_http_status_code-eq-pos_iff src n = (
  λ e. ground (arith, status_loop_sound src 0 n),
  λ h. ground (arith, status_loop_complete src 0 h.1),
)

-- A status code that `stringify_status` knows.
abbrev pub Known : ℕ → Type 0
Known c = stringify_status c ≢ codes "Unknown"

abbrev is_code : ℤ → ℕ → Bool
is_code (pos n) c = n == c
is_code (negsuc n) c = false

is_code-eq : (z : ℤ) (c : ℕ) → is_code z c ≡ true → z ≡ pos c
is_code-eq z c h = ground arith

-- The tests that each row of the two tables passes.
reads_back : ℕ → Bytes → Bool
reads_back c s = str_eq s (codes "Unknown") || is_code (parse_http_status_code s) c

has_phrase : ℕ → Bytes → Bool
has_phrase c s =
    str_eq s (codes "Unknown") || (not (c == 425) && not (str_eq (get_reason_phrase c) []))

has_text : ℕ → Bytes → Bool
has_text c s = str_eq s [] || (c == 425) || not (str_eq (stringify_status c) (codes "Unknown"))

status_texts_read_back : (c : ℕ) → reads_back c (stringify_status c) ≡ true
unfolding reads_back str_eq status_texts parse_http_status_code all_of stringify_status
status_texts_read_back c = switch_on-test reads_back c status_texts (codes "Unknown") refl refl

status_texts_have_phrases : (c : ℕ) → has_phrase c (stringify_status c) ≡ true
unfolding has_phrase str_eq status_texts get_reason_phrase all_of stringify_status
status_texts_have_phrases c = switch_on-test has_phrase c status_texts (codes "Unknown") refl refl

phrases_have_texts : (c : ℕ) → has_text c (get_reason_phrase c) ≡ true
unfolding has_text str_eq reason_phrases get_reason_phrase all_of stringify_status
phrases_have_texts c = switch_on-test has_text c reason_phrases [] refl refl

-- The text of a known code is read back as that code.
pub parse_http_status_code-stringify_status :
    (c : ℕ) → Known c → parse_http_status_code (stringify_status c) ≡ pos c
unfolding reads_back
parse_http_status_code-stringify_status c k = ground (
  arith,
  status_texts_read_back c,
  str_eq_sound (stringify_status c) (codes "Unknown"),
  is_code-eq (parse_http_status_code (stringify_status c)) c,
)

-- The two functions know the same codes, but for 425, which has a reason phrase and no text.
pub Known-iff_phrase : (c : ℕ) → Known c ↔ ((get_reason_phrase c ≢ []) × (c ≢ 425))
unfolding has_phrase has_text
Known-iff_phrase c =
    let text = status_texts_have_phrases c in
    let phrase = phrases_have_texts c in
    (
      λ k. ground (
        arith,
        text,
        str_eq_sound (stringify_status c) (codes "Unknown"),
        str_eq_refl (get_reason_phrase c),
      ),
      λ k e. ground (
        arith,
        phrase,
        str_eq_sound (get_reason_phrase c) [],
        ap (λ s. str_eq s (codes "Unknown")) e,
        str_eq_refl (codes "Unknown"),
      ),
    )
