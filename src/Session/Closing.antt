-- ===== src/Session/Closing.antt =====
-- session.h: Close called again.
use vectro.Common.{◌≡◌, Bool, true, false, arith}
use vectro.Session.{Session, close}

module _ {B M : Type 0} where
  pub close-close :
      (force : Bool) (s : Session B M)
      → s.use_write_queue ≡ false
      → close force (close force s) ≡ close force s
  unfolding close
  close-close true s q = grind (arith, q)
  close-close false s q = grind (arith, q)
