-- ===== src/Xhr/Setup/Tests.antt =====
-- A certificate that the library refuses.
use xmlhttp_request.Prelude.{[], codes, false, none, refl, some, str_eq, true, ◌≡◌}
use xmlhttp_request.Xhr.Setup.{TlsLibrary, Setup, certificate_ssl, new_context, setup_session}

-- It takes nothing but the text x.
abbrev pub strict : TlsLibrary
strict = record { takes_authority = λ cert. str_eq cert (codes "x"); knows_ciphers = λ list. true }

abbrev pub unset : Setup
unset = record { has_service = false; context_ssl = none; session = none; ssl_certificate = [] }

abbrev pub bad : Setup
bad = record unset { ssl_certificate = codes "y" }

sets-bad : certificate_ssl (codes "y") unset ≡ bad
unfolding certificate_ssl
sets-bad = refl

refused :
    setup_session strict [] bad
    ≡ (record bad { has_service = true; context_ssl = some new_context }, false)
unfolding setup_session str_eq
refused = refl
