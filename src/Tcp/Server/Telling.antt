-- ===== src/Tcp/Server/Telling.antt =====
-- tcp/tcp_server.h: which of the loops have been told to stop.
use vectro.Common.{
  ℕ, ◌<◌, ◌≡◌, ◌≢◌, ◌⊎◌, inl, inr, sym, ap, ◌∙◌, Bool, not, ◌&&◌, none, some, List, [], ◌∷◌, ◌++◌,
  length, nat_beq, nat_key, arith, All, Option-cases, Bool-cases,
}
use vectro.HashMap.{HashMap, lookup}
use vectro.Tcp.Acceptor.{stops, enables_draining}
use vectro.Tcp.Server.{
  PortConfig, Call, adds_port, removes_port, starts_all, stops_all, enables, TcpServer, create,
  remove_port, make_loop, start_each, start, stop, enable_draining_mode, call, run,
}
use vectro.Tcp.Server.Told.{
  shuts_at, IsTold, shuts_at-IsTold, stops-KeepsTold, enables_draining-KeepsTold, tell-shuts_at,
  tell_stops, tell_all-shuts_at, tell_all_stops, shuts_at-append,
}

-- `Start` is not called.
abbrev pub IsLater : Call → Type 0
IsLater starts_all = ⊥
IsLater _ = Unit

abbrev AreDistinct : List PortConfig → Type 0
AreDistinct [] = Unit
AreDistinct (c ∷ cs) = All (λ (d : PortConfig). d.port ≢ c.port) cs × AreDistinct cs

module _ (E : Type 0) (hm : HashMap ℕ ℕ) where
  open hm use {find, assign, erase, entries, find-assign, find-erase, find-entries, entries-empty}

  -- Each loop has been told to stop, or stands in the map.
  abbrev IsKnown : TcpServer E hm → Type 0
  IsKnown s = (i : ℕ) → (0 < shuts_at i s.loops) ⊎ ((port : ℕ) × (find port s.acceptors ≡ some i))

  remove_port-IsKnown :
      (port : ℕ) (s : TcpServer E hm) → IsKnown s → IsKnown (remove_port E hm port s)
  unfolding remove_port
  remove_port-IsKnown port s known i = elim (Option-cases (find port s.acceptors)) [
    | inl out ↦ rw (out, remove_port) (known i)
    | inr (k, e) ↦
        rw (e, remove_port)
          (elim (known i) [
            | inl told ↦ inl (omega (arith, told, tell-shuts_at stops k i s.loops stops-KeepsTold))
            | inr (q, e') ↦ elim (Bool-cases (nat_beq port q)) [
              | inl here ↦
                  let same : k ≡ i = ground (arith, here, e, e') in
                  inl (rw same (tell_stops i s.loops))
              | inr other ↦ inr (q, ground (arith, find-erase q port s.acceptors, other, e'))
            ]
          ])
  ]

  call-IsKnown : (s : TcpServer E hm) (c : Call) → IsLater c → IsKnown s → IsKnown (call E hm s c)
  unfolding call stop enable_draining_mode
  call-IsKnown s (adds_port port tls) p known i = known i
  call-IsKnown s (removes_port port) p known i = remove_port-IsKnown port s known i
  call-IsKnown s starts_all p known i = absurd p
  call-IsKnown s (stops_all force) p known i = elim (known i) [
    | inl told ↦ inl (
        omega
          (arith, told, tell_all-shuts_at stops (entries s.acceptors) i s.loops stops-KeepsTold))
    | inr at ↦ inr at
  ]
  call-IsKnown s (enables b) p known i = elim (known i) [
    | inl told ↦ inl (
        omega (
          arith,
          told,
          tell_all-shuts_at (enables_draining b) (entries s.acceptors) i s.loops
              (enables_draining-KeepsTold b),
        ))
    | inr at ↦ inr at
  ]

  run-IsKnown :
      (calls : List Call) (s : TcpServer E hm)
      → All IsLater calls
      → IsKnown s
      → IsKnown (run E hm s calls)
  unfolding run
  run-IsKnown [] s p known i = known i
  run-IsKnown (c ∷ calls) s p known i =
      run-IsKnown calls (call E hm s c) p.1 (call-IsKnown s c p.0 known) i

  stop-told :
      (force : Bool) (s : TcpServer E hm)
      → IsKnown s
      → (i : ℕ) → 0 < shuts_at i (stop E hm force s).loops
  unfolding stop
  stop-told force s known i = elim (known i) [
    | inl told ↦
        omega (arith, told, tell_all-shuts_at stops (entries s.acceptors) i s.loops stops-KeepsTold)
    | inr (port, e) ↦
        tell_all_stops (entries s.acceptors) port i s.loops
          (sym (find-entries port s.acceptors) ∙ e)
  ]

  -- No loop is there yet for these ports.
  abbrev AreNew : List PortConfig → TcpServer E hm → Type 0
  AreNew cs s = All (λ (c : PortConfig). find c.port s.acceptors ≡ none) cs

  -- A round of `Start` that does not throw.
  abbrev add_loop : PortConfig → TcpServer E hm → TcpServer E hm
  add_loop c s = record s {
    loops = s.loops ++ make_loop s.shutting_down c.port ∷ [];
    acceptors = assign c.port (length s.loops) s.acceptors;
  }

  add_loop-AreNew :
      (c : PortConfig) (cs : List PortConfig) (s : TcpServer E hm)
      → All (λ (d : PortConfig). d.port ≢ c.port) cs
      → AreNew cs s
      → AreNew cs (add_loop c s)
  add_loop-AreNew c [] s p new = tt
  add_loop-AreNew c (d ∷ cs) s p new = (
    ground (arith, find-assign d.port c.port (length s.loops) s.acceptors, p.0, new.0),
    add_loop-AreNew c cs s p.1 new.1,
  )

  add_loop-IsKnown :
      (c : PortConfig) (s : TcpServer E hm)
      → find c.port s.acceptors ≡ none
      → IsKnown s
      → IsKnown (add_loop c s)
  add_loop-IsKnown c s new known i =
      elim (shuts_at-append i s.loops (make_loop s.shutting_down c.port)) [
        | inl last ↦
            inr
              (c.port, ground (arith, find-assign c.port c.port (length s.loops) s.acceptors, last))
        | inr le ↦ elim (known i) [
          | inl told ↦ inl (omega (arith, told, le))
          | inr (q, e) ↦
              inr (q, ground (arith, find-assign q c.port (length s.loops) s.acceptors, new, e))
        ]
      ]

  start_each-IsKnown :
      (cs : List PortConfig) (s : TcpServer E hm)
      → AreDistinct cs
      → AreNew cs s
      → IsKnown s
      → IsKnown (start_each E hm cs s)
  unfolding start_each
  start_each-IsKnown [] s d new known i = known i
  start_each-IsKnown (c ∷ cs) s d new known i =
      elim (Bool-cases (s.tls && not c.has_tls_provider)) [
        | inl bad ↦ simp (bad, start_each) (known i)
        | inr fine ↦
            simp (fine, start_each)
              (start_each-IsKnown cs (add_loop c s) d.1 (add_loop-AreNew c cs s d.0 new.1)
                (add_loop-IsKnown c s new.0 known) i)
      ]

  find-empty : (k : ℕ) → find k hm.empty ≡ none
  find-empty k = find-entries k hm.empty ∙ ap (lookup k) entries-empty

  create-AreNew :
      (tls : Bool) (ports cs : List PortConfig)
      → AreNew cs (record (create E hm tls) { ports = ports })
  create-AreNew tls ports [] = tt
  create-AreNew tls ports (c ∷ cs) = (find-empty c.port, create-AreNew tls ports cs)

  -- For a server with any configured ports, no two of them equal, which is started once, and any calls
  -- after that other than `Start`: `Stop` leaves no loop, of all that were ever made, without a call of
  -- its `Stop`.
  pub run-stop :
      (tls force : Bool) (ports : List PortConfig) (calls : List Call)
      → AreDistinct ports
      → All IsLater calls
      → All IsTold
          (stop E hm force
            (run E hm (start E hm (record (create E hm tls) { ports = ports })) calls)).loops
  run-stop tls force ports calls d p =
      let s : TcpServer E hm = record (create E hm tls) { ports = ports } in
      let t = run E hm (start E hm s) calls in
      shuts_at-IsTold (stop E hm force t).loops (
        stop-told force t (
          run-IsKnown calls (start E hm s) p (
            start_each-IsKnown ports s d (create-AreNew tls ports ports) (λ j. inl (omega arith)))))
