-- ===== src/Tls/Ssl.antt =====
-- asio::ssl::context, which the files of tls/ use and the repository does not hold: an interface of
-- the calls that the code makes, with the behaviour that the library documents. What a call answers
-- depends on the files at that time; `none` is an exception.
use Prim.Native.String.{String}
use vectro.Common.{◌≡◌, Option, none, some, List, [], ◌∷◌, ◌++◌}

pub data Method : Type 0 where
  tlsv12_client tlsv12_server : Method

pub data VerifyMode : Type 0 where
  verify_none verify_peer : VerifyMode

-- What a context has been set to.
pub record Settings : Type 0 where
  pub method : Method
  pub verify_mode : VerifyMode
  -- the files of trusted authorities
  pub authorities : List String
  pub certificate_chain : Option String
  pub private_key : Option String

-- A new context verifies no peer and trusts no authority.
abbrev pub fresh : Method → Settings
fresh method = record {
  method = method;
  verify_mode = verify_none;
  authorities = [];
  certificate_chain = none;
  private_key = none;
}

pub record Contexts : Type 1 where
  pub Context : Type 0
  pub settings : Context → Settings

module _ (X : Contexts) where
  open X use {Context, settings}

  -- The library at one time.
  pub record Ssl : Type 0 where
    pub make : Method → Option Context
    pub set_verify_mode : VerifyMode → Context → Option Context
    pub load_verify_file : String → Context → Option Context
    pub use_certificate_chain_file : String → Context → Option Context
    pub use_private_key_file : String → Context → Option Context
    -- `set_options(default_workarounds)`
    pub set_workarounds : Context → Option Context
    pub settings-make : (m : Method) (d : Context) → make m ≡ some d → settings d ≡ fresh m
    pub settings-set_verify_mode :
        (v : VerifyMode) (c d : Context)
        → set_verify_mode v c ≡ some d
        → settings d ≡ record (settings c) { verify_mode = v }
    pub settings-load_verify_file :
        (path : String) (c d : Context)
        → load_verify_file path c ≡ some d
        → settings d ≡ record (settings c) { authorities = (settings c).authorities ++ path ∷ [] }
    pub settings-use_certificate_chain_file :
        (path : String) (c d : Context)
        → use_certificate_chain_file path c ≡ some d
        → settings d ≡ record (settings c) { certificate_chain = some path }
    pub settings-use_private_key_file :
        (path : String) (c d : Context)
        → use_private_key_file path c ≡ some d
        → settings d ≡ record (settings c) { private_key = some path }
    pub settings-set_workarounds :
        (c d : Context) → set_workarounds c ≡ some d → settings d ≡ settings c
