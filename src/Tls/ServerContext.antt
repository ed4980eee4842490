-- ===== src/Tls/ServerContext.antt =====
-- tls/reloadable_tls_context_provider.cc: the calls of the library in ReloadContext, each with the files
-- as they are at that time.
use Prim.Native.String.{String}
use vectro.Common.{
  ◌≡◌, ◌∙◌, ap, Option, some, List, [], ◌∷◌, map, ◌>>=◌, bind-some, Option-cases, inl, inr,
}
use vectro.Tls.Ssl.{tlsv12_server, Settings, fresh, Contexts, Ssl}
use vectro.Tls.{Provider, construct, get_context, reload_all, last_loaded, construct-reload_all}

-- What the context is to be set to.
abbrev pub expected : (cert_path key_path : String) → Settings
expected cert_path key_path = record (fresh tlsv12_server) {
  certificate_chain = some cert_path;
  private_key = some key_path;
}

module _ {X : Contexts} (cert_path key_path : String) where
  open X use {Context, settings}

  unfoldable pub load : Ssl X → Option Context
  load ssl = do
    ctx ← ssl.make tlsv12_server
    ctx ← ssl.use_certificate_chain_file cert_path ctx
    ctx ← ssl.use_private_key_file key_path ctx
    ssl.set_workarounds ctx

  settings-load :
      (ssl : Ssl X) (d : Context) → load ssl ≡ some d → settings d ≡ expected cert_path key_path
  unfolding load
  settings-load ssl d e =
      let (c0, e0, r0) = bind-some (ssl.make tlsv12_server) _ d e in
      let (c1, e1, r1) = bind-some (ssl.use_certificate_chain_file cert_path c0) _ d r0 in
      let (c2, e2, r2) = bind-some (ssl.use_private_key_file key_path c1) _ d r1 in
      let chained =
        ssl.settings-use_certificate_chain_file cert_path c0 c1 e1
        ∙ ap {A = Settings} {B = Settings} (λ s. record s { certificate_chain = some cert_path })
            (ssl.settings-make tlsv12_server c0 e0) in
      ssl.settings-set_workarounds c2 d r2
      ∙ ssl.settings-use_private_key_file key_path c1 c2 e2
      ∙ ap {A = Settings} {B = Settings} (λ s. record s { private_key = some key_path }) chained

  settings-last_loaded :
      (c : Context) (times : List (Ssl X))
      → settings c ≡ expected cert_path key_path
      → settings (last_loaded c (map load times)) ≡ expected cert_path key_path
  settings-last_loaded c [] e = e
  settings-last_loaded c (ssl ∷ times) e = elim (Option-cases (load ssl)) [
    | inl thrown ↦ rw thrown (settings-last_loaded c times e)
    | inr (d, loaded) ↦ rw loaded (settings-last_loaded d times (settings-load ssl d loaded))
  ]

  -- Where the constructor does not throw: after any calls of `ReloadContext`, whether their loads
  -- succeed or fail, `GetContext` answers a context for a server, set to the provider's certificate
  -- chain and private key, and to nothing else.
  pub settings-reload_all :
      (now : Ssl X) (times : List (Ssl X)) (p : Provider Context)
      → construct (load now) ≡ some p
      → (c : Context) × (get_context (reload_all p (map load times)).0 ≡ some c)
        × (settings c ≡ expected cert_path key_path)
  settings-reload_all now times p e =
      let (c, loaded, answers, _) = construct-reload_all (load now) p (map load times) e in
      (
        last_loaded c (map load times),
        answers,
        settings-last_loaded c times (settings-load now c loaded),
      )
