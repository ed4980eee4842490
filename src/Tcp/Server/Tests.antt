-- ===== src/Tcp/Server/Tests.antt =====
-- tcp/tcp_server.h: runs of a server over lists of pairs, and its theorem at one of them.
use vectro.Common.{ℕ, ◌≡◌, refl, true, false, List, [], ◌∷◌, map, nat_key, arith, All}
use vectro.HashMap.{HashMap}
use vectro.HashMap.Assoc.{assoc_map}
use vectro.Tcp.Acceptor.{AcceptorLoop, Post, accepts_next, shuts}
use vectro.Tcp.Acceptor
use vectro.Tcp.Server.{
  PortConfig, Call, adds_port, removes_port, starts_all, stops_all, enables, TcpServer, create,
  start, stop, call, run,
}
use vectro.Tcp.Server.Told.{IsTold}
use vectro.Tcp.Server.Telling.{run-stop}

abbrev places : HashMap ℕ ℕ
places = assoc_map ℕ ℕ

abbrev two_ports : List PortConfig
two_ports =
    record { port = 80; has_tls_provider = false }
    ∷ record { port = 81; has_tls_provider = false }
    ∷ []

abbrev posts : TcpServer ℕ places → List (List Post)
posts s = map (λ (l : AcceptorLoop ℕ). l.posts) s.loops

-- A second `Start` makes a second loop for the port; `Stop` reaches only that one.
twice_started :
    posts (
      run ℕ places
        (create ℕ places false)
        (adds_port 80 false ∷ starts_all ∷ starts_all ∷ stops_all true ∷ []))
    ≡ (accepts_next ∷ []) ∷ (accepts_next ∷ shuts ∷ []) ∷ []
unfolding run call Acceptor.step
twice_started = refl

abbrev later : List Call
later = enables true ∷ removes_port 80 ∷ adds_port 82 false ∷ []

run-stop_example :
    All IsTold
      (stop ℕ places true (
        run ℕ places
          (start ℕ places (record (create ℕ places false) { ports = two_ports }))
          later)).loops
run-stop_example =
    run-stop ℕ places false true two_ports later (((λ e. omega arith), tt), (tt, tt))
      (tt, (tt, (tt, tt)))
