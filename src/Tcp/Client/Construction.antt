-- ===== src/Tcp/Client/Construction.antt =====
-- tcp/tcp_client.h: the constructor. A pointer is an `Option`, with `none` for nullptr; a provider is
-- what its `GetContext` answers.
use vectro.Common.{ℕ, Bool, true, false, Option, none, some, nat_key}
use vectro.HashMap.{HashMap}
use vectro.Tcp.Client.{TcpClient, create}

module _ (hm : HashMap ℕ (Option ℕ)) (B M : Type 0) where
  pub data Constructed : Type 0 where
    made : TcpClient hm B M → Constructed
    -- "TlsClientContextProvider required"
    throws : Constructed
    -- a null pointer to a context has been used
    uses_null : Constructed

  unfoldable pub construct :
      {C : Type 0} (tls : Bool) → Option (Option C) → (max_queue_size : ℕ) → Constructed
  construct true none max_queue_size = throws
  construct true (some none) max_queue_size = uses_null
  construct true (some (some ctx)) max_queue_size = made (create hm true max_queue_size)
  construct false provider max_queue_size = made (create hm false max_queue_size)
