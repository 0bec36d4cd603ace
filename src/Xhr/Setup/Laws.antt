-- ===== src/Xhr/Setup/Laws.antt =====
-- What a session is set up with.
use xmlhttp_request.Prelude.{
  Bool, Bytes, Option, false, if◌then◌else◌, none, not, some, true, ◌&&◌, ◌≡◌, Bool-cases, inl, inr,
  refl,
}
use xmlhttp_request.Tls.Alpn.{get_default_alpn}
use xmlhttp_request.Xhr.Uri.{is_empty}
use xmlhttp_request.Xhr.Setup.{
  TlsLibrary, Context, Setup, load_certificate, configure_tls_context, set_cipher_list, configured,
  setup_session, new_context,
}

-- The library refuses the certificate that was set.
abbrev pub refuses : TlsLibrary → Setup → Bool
refuses tls s = not (is_empty s.ssl_certificate) && not (tls.takes_authority s.ssl_certificate)

-- The certificate that a context trusts, where one was set.
abbrev pub trusted : Bytes → Option Bytes
trusted cert = if is_empty cert then none else some cert

abbrev pub full_context : TlsLibrary → Bytes → Bytes → Context
full_context tls ciphers cert = record {
  authority = trusted cert;
  alpn_protos = get_default_alpn;
  has_select_callback = true;
  ciphers = if tls.knows_ciphers ciphers then some ciphers else none;
}

-- Setting up makes a session exactly where no certificate is refused. The session has a context that
-- offers the protocols of the client and trusts the certificate, where one is set, whether or not the
-- list of ciphers is known. Where the certificate is refused, the service is new and the session is
-- the one that was there before.
pub setup_session_lem :
    (tls : TlsLibrary) (ciphers : Bytes) (s : Setup)
    → setup_session tls ciphers s ≡ (
        if refuses tls s
        then (record s { has_service = true; context_ssl = some new_context }, false)
        else (
          record s {
            has_service = true;
            context_ssl = some (full_context tls ciphers s.ssl_certificate);
            session = some (full_context tls ciphers s.ssl_certificate);
          },
          true,
        ))
unfolding setup_session load_certificate configured configure_tls_context set_cipher_list
    new_context
setup_session_lem tls ciphers s = elim (Bool-cases (is_empty s.ssl_certificate)) [
  | inl e ↦ elim (Bool-cases (tls.knows_ciphers ciphers)) [
    | inl k ↦ rw (e, k) refl
    | inr k ↦ rw (e, k) refl
  ]
  | inr e ↦ elim (Bool-cases (tls.takes_authority s.ssl_certificate)) [
    | inr f ↦ rw (e, f) refl
    | inl f ↦ elim (Bool-cases (tls.knows_ciphers ciphers)) [
      | inl k ↦ rw (e, f, k) refl
      | inr k ↦ rw (e, f, k) refl
    ]
  ]
]
