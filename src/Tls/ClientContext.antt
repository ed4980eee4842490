-- ===== src/Tls/ClientContext.antt =====
-- tls/ca_verified_tls_client_context_provider.cc, tls/default_tls_client_context_provider.cc and
-- tls/self_signed_tls_client_context_provider.cc: the providers of a client's TLS context. A
-- constructor that throws is `none`.
use Prim.Native.String.{String}
use vectro.Common.{◌≡◌, ◌∙◌, ap, Option, some, [], ◌∷◌, ◌++◌, ◌>>=◌, bind-some}
use vectro.Tls.Ssl.{tlsv12_client, verify_none, verify_peer, Settings, fresh, Contexts, Ssl}

-- The three classes, with the argument of their constructor.
pub data ClientContext : Type 0 where
  ca_verified : (ca_bundle_path : String) → ClientContext
  verifies_none : ClientContext
  self_signed : (trusted_cert_path : String) → ClientContext

-- What the context is to be set to.
abbrev pub expected : ClientContext → Settings
expected (ca_verified path) = record (fresh tlsv12_client) {
  verify_mode = verify_peer;
  authorities = path ∷ [];
}
expected verifies_none = fresh tlsv12_client
expected (self_signed path) = record (fresh tlsv12_client) {
  verify_mode = verify_peer;
  authorities = path ∷ [];
}

module _ {X : Contexts} where
  open X use {Context, settings}

  ca_verified_context : Ssl X → String → Option Context
  ca_verified_context ssl ca_bundle_path = do
    ctx ← ssl.make tlsv12_client
    ctx ← ssl.set_verify_mode verify_peer ctx
    ctx ← ssl.load_verify_file ca_bundle_path ctx
    ssl.set_workarounds ctx

  default_context : Ssl X → Option Context
  default_context ssl = do
    ctx ← ssl.make tlsv12_client
    ctx ← ssl.set_verify_mode verify_none ctx
    ssl.set_workarounds ctx

  self_signed_context : Ssl X → String → Option Context
  self_signed_context ssl trusted_cert_path = do
    ctx ← ssl.make tlsv12_client
    ctx ← ssl.set_verify_mode verify_peer ctx
    ctx ← ssl.load_verify_file trusted_cert_path ctx
    ssl.set_workarounds ctx

  -- What `GetContext` answers of the provider that was constructed.
  unfoldable pub get_context : Ssl X → ClientContext → Option Context
  unfolding ca_verified_context default_context self_signed_context
  get_context ssl (ca_verified path) = ca_verified_context ssl path
  get_context ssl verifies_none = default_context ssl
  get_context ssl (self_signed path) = self_signed_context ssl path

  settings-verify_peer :
      (ssl : Ssl X) (path : String) (d : Context)
      → (ssl.make tlsv12_client >>= λ c. ssl.set_verify_mode verify_peer c >>= λ c.
          ssl.load_verify_file path c >>= λ c. ssl.set_workarounds c)
        ≡ some d
      → settings d ≡ expected (ca_verified path)
  settings-verify_peer ssl path d e =
      let (c0, e0, r0) = bind-some (ssl.make tlsv12_client) _ d e in
      let (c1, e1, r1) = bind-some (ssl.set_verify_mode verify_peer c0) _ d r0 in
      let (c2, e2, r2) = bind-some (ssl.load_verify_file path c1) _ d r1 in
      let verifying =
        ssl.settings-set_verify_mode verify_peer c0 c1 e1
        ∙ ap {A = Settings} {B = Settings} (λ s. record s { verify_mode = verify_peer })
            (ssl.settings-make tlsv12_client c0 e0) in
      ssl.settings-set_workarounds c2 d r2
      ∙ ssl.settings-load_verify_file path c1 c2 e2
      ∙ ap {A = Settings} {B = Settings}
          (λ s. record s { authorities = s.authorities ++ path ∷ [] }) verifying

  settings-verify_none :
      (ssl : Ssl X) (d : Context)
      → (ssl.make tlsv12_client >>= λ c.
          ssl.set_verify_mode verify_none c >>= λ c. ssl.set_workarounds c)
        ≡ some d
      → settings d ≡ expected verifies_none
  settings-verify_none ssl d e =
      let (c0, e0, r0) = bind-some (ssl.make tlsv12_client) _ d e in
      let (c1, e1, r1) = bind-some (ssl.set_verify_mode verify_none c0) _ d r0 in
      ssl.settings-set_workarounds c1 d r1
      ∙ ssl.settings-set_verify_mode verify_none c0 c1 e1
      ∙ ap {A = Settings} {B = Settings} (λ s. record s { verify_mode = verify_none })
          (ssl.settings-make tlsv12_client c0 e0)

  -- Where a client provider's constructor does not throw, its context verifies the peer, and trusts
  -- the constructor's file and no other authority; but the context of the default provider verifies
  -- no peer and trusts no authority.
  pub settings-get_context :
      (ssl : Ssl X) (k : ClientContext) (d : Context)
      → get_context ssl k ≡ some d
      → settings d ≡ expected k
  unfolding get_context
  settings-get_context ssl (ca_verified path) d e = settings-verify_peer ssl path d e
  settings-get_context ssl verifies_none d e = settings-verify_none ssl d e
  settings-get_context ssl (self_signed path) d e = settings-verify_peer ssl path d e
