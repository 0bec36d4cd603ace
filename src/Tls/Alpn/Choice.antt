-- ===== src/Tls/Alpn/Choice.antt =====
-- The answer of the client to what the peer offers, and the test of the handshake on it.
use xmlhttp_request.Prelude.{
  Bool, Bool-cases, Bytes, List, Option, Option-cases, ap, codes, false, if◌then◌else◌, inl, inr,
  none, refl, some, str_eq, true, ◌∙◌, ◌≡◌,
}
use xmlhttp_request.Tls.Alpn.{
  Answer, client_select_next_proto_cb, select_h2, tls_h2_negotiated, check_h2_is_selected,
}
use xmlhttp_request.Tls.Alpn.Laws.{offer, offers, select_proto-offer}

-- The first of the three protocols, in the order in which the client likes them, that is offered.
abbrev pub best : List Bytes → Option Bytes
best names =
    if offers (codes "h2") names
    then some (codes "h2")
    else if offers (codes "h2-16") names
    then some (codes "h2-16")
    else if offers (codes "h2-14") names
    then some (codes "h2-14")
    else none

abbrev pub answer : Option Bytes → Answer × Option Bytes
answer none = (Answer.noack, none)
answer (some name) = (Answer.ok, some name)

abbrev pub is_some : Option Bytes → Bool
is_some none = false
is_some (some name) = true

select_h2-offer : (names : List Bytes) → select_h2 (offer names) ≡ best names
unfolding select_h2
select_h2-offer names =
    rw
      (
        select_proto-offer (codes "h2") names,
        select_proto-offer (codes "h2-16") names,
        select_proto-offer (codes "h2-14") names,
      )
      (elim (Bool-cases (offers (codes "h2") names)) [
        | inl e ↦ rw e refl
        | inr e ↦ elim (Bool-cases (offers (codes "h2-16") names)) [
          | inl f ↦ rw (e, f) refl
          | inr f ↦ rw (e, f) refl
        ]
      ])

client_select-answer :
    (input : Bytes) → client_select_next_proto_cb input ≡ answer (select_h2 input)
unfolding client_select_next_proto_cb
client_select-answer input = elim (Option-cases (select_h2 input)) [
  | inl e ↦ rw (e, client_select_next_proto_cb) refl
  | inr (name, e) ↦ rw (e, client_select_next_proto_cb) refl
]

answer-name : (found : Option Bytes) → (answer found).1 ≡ found
answer-name none = refl
answer-name (some name) = refl

best-negotiated : (names : List Bytes) → tls_h2_negotiated (best names) none ≡ is_some (best names)
unfolding tls_h2_negotiated check_h2_is_selected str_eq
best-negotiated names = elim (Bool-cases (offers (codes "h2") names)) [
  | inl e ↦ rw e refl
  | inr e ↦ elim (Bool-cases (offers (codes "h2-16") names)) [
    | inl f ↦ rw (e, f) refl
    | inr f ↦ elim (Bool-cases (offers (codes "h2-14") names)) [
      | inl g ↦ rw (e, f, g) refl
      | inr g ↦ rw (e, f, g) refl
    ]
  ]
]

-- On the offer of any list of names, the client takes the first of h2, h2-16 and h2-14 that is
-- offered, and refuses where none is; and what it takes is what the handshake then counts as HTTP/2.
pub client_select-offer :
    (names : List Bytes)
    → (client_select_next_proto_cb (offer names) ≡ answer (best names))
      × (tls_h2_negotiated (client_select_next_proto_cb (offer names)).1 none
          ≡ is_some (best names))
client_select-offer names =
    let taken : client_select_next_proto_cb (offer names) ≡ answer (best names) =
      client_select-answer (offer names) ∙ ap answer (select_h2-offer names) in
    (
      taken,
      ap (λ a. tls_h2_negotiated a.1 none) taken
          ∙ ap (λ found. tls_h2_negotiated found none) (answer-name (best names))
          ∙ best-negotiated names,
    )
