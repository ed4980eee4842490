-- ===== src/Tcp/Server.antt =====
-- tcp/tcp_server.h: the server over the loops that accept at its ports. A step is one call, which
-- holds the one lock. A loop is the module Acceptor's, and is named by its place in `loops`, where it
-- stays when the map forgets it, since its handlers keep it alive. The source gives the constructor of
-- a loop other arguments than tcp/tcp_acceptor_loop.h declares, and hooks that are not there: here a
-- loop has its port and no filter. The hash map is a parameter; `closings` records the calls of the
-- controller's `ShutdownAllSessions`.
pub mod Told
pub mod Telling
pub mod Tests
use vectro.Common.{
  ℕ, Bool, true, false, not, ◌&&◌, Option, none, some, List, [], ◌∷◌, ◌++◌, length, get_elem?, set,
  nat_beq, nat_key, if◌then◌else◌,
}
use vectro.HashMap.{HashMap}
use vectro.Tcp.Acceptor.{AcceptorLoop, starts, stops, enables_draining}
use vectro.Tcp.Acceptor

-- The parts of `PortConfig` that the server reads.
pub record PortConfig : Type 0 where
  pub port : ℕ
  pub has_tls_provider : Bool

pub data Call : Type 0 where
  adds_port : (port : ℕ) → (has_tls_provider : Bool) → Call
  removes_port : (port : ℕ) → Call
  starts_all : Call
  stops_all : (force : Bool) → Call
  enables : Bool → Call

abbrev remove_port_from : ℕ → List PortConfig → List PortConfig
remove_port_from port [] = []
remove_port_from port (c ∷ cs) =
    if nat_beq c.port port then remove_port_from port cs else c ∷ remove_port_from port cs

module _ {E : Type 0} where
  -- A call of the loop at this place.
  abbrev pub tell : Acceptor.Action E → ℕ → List (AcceptorLoop E) → List (AcceptorLoop E)
  tell a i loops = elim (get_elem? loops i) [
    | none ↦ loops
    | some l ↦ set loops i (Acceptor.step l a)
  ]

  abbrev pub tell_all :
      Acceptor.Action E → List (ℕ × ℕ) → List (AcceptorLoop E) → List (AcceptorLoop E)
  tell_all a [] loops = loops
  tell_all a ((port, i) ∷ kvs) loops = tell_all a kvs (tell a i loops)

  -- A loop as `Start` makes it.
  abbrev pub make_loop : Bool → ℕ → AcceptorLoop E
  make_loop draining port =
      let l = Acceptor.create port none in
      Acceptor.step (if draining then Acceptor.step l (enables_draining true) else l) starts

module _ (E : Type 0) (hm : HashMap ℕ ℕ) where
  open hm use {Map, empty, find, assign, erase, entries}

  pub record TcpServer : Type 0 where
    -- the stream is a TLS stream
    pub tls : Bool
    pub ports : List PortConfig
    pub acceptors : Map
    pub loops : List (AcceptorLoop E)
    pub shutting_down : Bool
    pub closings : List Bool
    -- `Start` has thrown
    pub threw : Bool

  abbrev pub create : Bool → TcpServer
  create tls = record {
    tls = tls;
    ports = [];
    acceptors = empty;
    loops = [];
    shutting_down = false;
    closings = [];
    threw = false;
  }

  -- `AddPort`
  abbrev add_port : ℕ → Bool → TcpServer → TcpServer
  add_port port has_tls_provider s = record s {
    ports = s.ports ++ record { port = port; has_tls_provider = has_tls_provider } ∷ [];
  }

  -- `RemovePort`
  pub remove_port : ℕ → TcpServer → TcpServer
  remove_port port s =
      let ports' = remove_port_from port s.ports in
      elim (find port s.acceptors) [
        | none ↦ record s { ports = ports' }
        | some i ↦ record s {
          ports = ports';
          acceptors = erase port s.acceptors;
          loops = tell stops i s.loops;
        }
      ]

  -- The rounds of `Start`
  pub start_each : List PortConfig → TcpServer → TcpServer
  start_each [] s = s
  start_each (c ∷ cs) s =
      let rest = start_each cs (record s {
        loops = s.loops ++ make_loop s.shutting_down c.port ∷ [];
        acceptors = assign c.port (length s.loops) s.acceptors;
      }) in
      if s.tls && not c.has_tls_provider then record s { threw = true } else rest

  abbrev pub start : TcpServer → TcpServer
  start s = start_each s.ports s

  pub stop : Bool → TcpServer → TcpServer
  stop force s = record s {
    loops = tell_all stops (entries s.acceptors) s.loops;
    shutting_down = true;
    closings = s.closings ++ force ∷ [];
  }

  -- `EnableDrainingMode`
  pub enable_draining_mode : Bool → TcpServer → TcpServer
  enable_draining_mode enable s = record s {
    shutting_down = enable;
    loops = tell_all (enables_draining enable) (entries s.acceptors) s.loops;
  }

  pub call : TcpServer → Call → TcpServer
  unfolding remove_port start_each stop enable_draining_mode
  call s (adds_port port has_tls_provider) = add_port port has_tls_provider s
  call s (removes_port port) = remove_port port s
  call s starts_all = start s
  call s (stops_all force) = stop force s
  call s (enables enable) = enable_draining_mode enable s

  pub run : TcpServer → List Call → TcpServer
  unfolding call
  run s [] = s
  run s (c ∷ calls) = run (call s c) calls
