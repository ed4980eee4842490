-- ===== src/Tls/Tests.antt =====
-- tls/: the providers with a library whose contexts are their settings.
use mathlib.Core.Option.{some-injective, none-ne-some}
use vectro.Common.{◌≡◌, refl, sym, true, map, ◌++◌, none, some, [], ◌∷◌}
use vectro.Tls.Ssl.{tlsv12_client, verify_peer, Settings, fresh, Contexts, Ssl}
use vectro.Tls.ClientContext.{
  ca_verified, expected as asked, get_context as client_context, settings-get_context,
}
use vectro.Tls.ServerContext.{expected, load, settings-reload_all}
use vectro.Tls.{Provider, construct, get_context, reload_all}

-- A library whose contexts are their settings.
abbrev contexts : Contexts
contexts = record { Context = Settings; settings = λ s. s }

held : {c d : Settings} → some c ≡ some d → d ≡ c
held {c} {d} e = sym (some-injective c d e)

-- All calls succeed.
abbrev working : Ssl contexts
working = record {
  make = λ m. some (fresh m);
  set_verify_mode = λ v c. some (record c { verify_mode = v });
  load_verify_file = λ path c. some (record c { authorities = c.authorities ++ path ∷ [] });
  use_certificate_chain_file = λ path c. some (record c { certificate_chain = some path });
  use_private_key_file = λ path c. some (record c { private_key = some path });
  set_workarounds = λ c. some c;
  settings-make = λ m d e. held e;
  settings-set_verify_mode = λ v c d e. held e;
  settings-load_verify_file = λ path c d e. held e;
  settings-use_certificate_chain_file = λ path c d e. held e;
  settings-use_private_key_file = λ path c d e. held e;
  settings-set_workarounds = λ c d e. held e;
}

-- The files cannot be read.
abbrev unreadable : Ssl contexts
unreadable = record working {
  use_certificate_chain_file = λ path c. none;
  settings-use_certificate_chain_file = λ path c d e. absurd (none-ne-some d e);
}

settings-get_context_example :
    record (fresh tlsv12_client) { verify_mode = verify_peer; authorities = "ca.pem" ∷ [] }
    ≡ asked (ca_verified "ca.pem")
unfolding client_context
settings-get_context_example =
    settings-get_context working (ca_verified "ca.pem") (asked (ca_verified "ca.pem")) refl

abbrev served : Provider Settings
served = record { current = some (expected "cert.pem" "key.pem"); initialized = true }

settings-reload_all_example :
    (c : Settings) × (get_context
        (reload_all served (map (load "cert.pem" "key.pem") (unreadable ∷ working ∷ []))).0
      ≡ some c)
    × (c ≡ expected "cert.pem" "key.pem")
unfolding construct load
settings-reload_all_example =
    settings-reload_all "cert.pem" "key.pem" working (unreadable ∷ working ∷ []) served refl
