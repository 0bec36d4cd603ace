-- ===== src/Xhr/Setup.antt =====
-- source/xmlhttprequest_impl.cpp: `setupSession` and the certificate; include/utilities.h:
-- `loadCertificate`, `configureTlsContext` and `setCipherList`. What the TLS library answers is a
-- parameter.
pub mod Laws
pub mod Tests
use xmlhttp_request.Prelude.{
  Bool, Bytes, Option, [], false, if◌then◌else◌, none, not, some, true, ◌&&◌, ◌∷◌,
}
use xmlhttp_request.Tls.Alpn.{get_default_alpn}
use xmlhttp_request.Xhr.Uri.{is_empty}

-- The TLS library: whether it takes a certificate, and whether it knows the list of ciphers.
pub record TlsLibrary : Type 0 where
  pub takes_authority : Bytes → Bool
  pub knows_ciphers : Bytes → Bool

-- The TLS context, as far as the code sets it.
pub record Context : Type 0 where
  pub authority : Option Bytes
  pub alpn_protos : Bytes
  pub has_select_callback : Bool
  pub ciphers : Option Bytes

-- The members of `Impl` that `setupSession` sets. A session keeps the context that it was made with.
pub record Setup : Type 0 where
  pub has_service : Bool
  pub context_ssl : Option Context
  pub session : Option Context
  pub ssl_certificate : Bytes

pub new_context : Context
new_context = record {
  authority = none;
  alpn_protos = [];
  has_select_callback = false;
  ciphers = none;
}

-- `loadCertificate`, with whether it fails.
pub load_certificate : TlsLibrary → Bytes → Context → Context × Bool
load_certificate tls cert context =
    if is_empty cert
    then (context, false)
    else if tls.takes_authority cert
    then (record context { authority = some cert }, false)
    else (context, true)

-- `configureTlsContext`, which clears the error and never sets one.
pub configure_tls_context : Context → Context × Bool
configure_tls_context context =
    (record context { has_select_callback = true; alpn_protos = get_default_alpn }, false)

-- `setCipherList`; a list that the library does not know leaves the ciphers.
pub set_cipher_list : TlsLibrary → Bytes → Context → Context × Bool
set_cipher_list tls list context =
    if tls.knows_ciphers list
    then (record context { ciphers = some list }, true)
    else (context, false)

-- `certificate_ssl(cert)`.
pub certificate_ssl : Bytes → Setup → Setup
certificate_ssl cert s = record s { ssl_certificate = cert }

-- What stands behind the certificate: a failure returns, and a list of ciphers that is not loaded is
-- only logged.
pub configured : TlsLibrary → Bytes → Context → Setup → Setup × Bool
unfolding configure_tls_context set_cipher_list
configured tls ciphers context s =
    let (context1, failed) = configure_tls_context context in
    let (context2, loaded) = set_cipher_list tls ciphers context1 in
    if failed
    then (record s { context_ssl = some context1 }, false)
    else (record s { context_ssl = some context2; session = some context2 }, true)

-- `setupSession`, with `ciphers` for `defaults::default_cipher_list`.
pub setup_session : TlsLibrary → Bytes → Setup → Setup × Bool
unfolding load_certificate configured new_context
setup_session tls ciphers s =
    let s1 : Setup = record s { has_service = true; context_ssl = some new_context } in
    let (context, failed) = load_certificate tls s.ssl_certificate new_context in
    if not (is_empty s.ssl_certificate) && failed
    then (record s1 { context_ssl = some context }, false)
    else configured tls ciphers context s1
