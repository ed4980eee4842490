-- ===== src/Tcp/Client/Tests.antt =====
-- tcp/tcp_client.h: runs of a client over a registry of pairs, and the theorems at them.
use vectro.Common.{
  ℕ, ◌+◌, ◌≤◌, ◌≡◌, refl, true, false, Option, none, some, List, [], ◌∷◌, ◌++◌, nat_key, arith,
}
use vectro.HashMap.{HashMap}
use vectro.HashMap.Assoc.{assoc_map}
use vectro.Tcp.Client.{
  connects, messages, responds, TcpClient, create, Action, opens, resolved, connected, requests,
  request_times_out, reads, handles, step, run, snapshot_metrics,
}
use vectro.Tcp.Client.Counted.{waiting_ids}
use vectro.Tcp.Client.Pending.{run-pending_requests}
use vectro.Tcp.Client.Construction.{construct, made, throws, uses_null}
use vectro.Tcp.Client.Keeps.{called, waiting}
use vectro.Tcp.Client.Requests.{run_asked, run-called}

abbrev registry : HashMap ℕ (Option ℕ)
registry = assoc_map ℕ (Option ℕ)

abbrev Client : Type 0
Client = TcpClient registry ℕ ℕ

-- A connection is made, and two requests are sent with the handlers 7 and 8.
abbrev opening : List (Action ℕ ℕ)
opening =
    handles true true
    ∷ opens true
    ∷ resolved false
    ∷ connected false
    ∷ requests 100 (some 7)
    ∷ requests 101 (some 8)
    ∷ []

abbrev opened : Client
opened = run registry (create registry false 1024) opening

-- The second request is answered, a message without a request comes, and the first times out.
abbrev answers : List (Action ℕ ℕ)
answers = reads false (some ((2, 55) ∷ (2, 56) ∷ [])) ∷ request_times_out 0 ∷ []

answered :
    ((run registry opened answers).events
      ≡ connects true ∷ responds 2 8 (some 55) ∷ messages 56 ∷ responds 1 7 none ∷ [])
    × ((run registry opened answers).pending_requests ≡ 0)
unfolding run step
answered = (refl, refl)

-- A response without a handler is not counted off.
abbrev unhandled : List (Action ℕ ℕ)
unhandled =
    opens true
    ∷ resolved false
    ∷ connected false
    ∷ requests 100 none
    ∷ reads false (some ((1, 55) ∷ []))
    ∷ []

unhandled_stays : (run registry (create registry false 1024) unhandled).pending_requests ≡ 1
unfolding run step
unhandled_stays = refl

run-called_example :
    (called registry 2 (run registry (create registry false 1024) (opening ++ answers))
        + waiting registry 2 (run registry (create registry false 1024) (opening ++ answers))
      ≡ run_asked registry 2 (create registry false 1024) (opening ++ answers))
    × (run_asked registry 2 (create registry false 1024) (opening ++ answers) ≤ 1)
run-called_example = run-called registry 2 false 1024 (opening ++ answers) (omega arith)

run-pending_requests_example :
    (snapshot_metrics registry
      (run registry (create registry false 1024) (opening ++ answers))).pending_requests
    ≡ waiting_ids registry (run registry (create registry false 1024) (opening ++ answers))
run-pending_requests_example =
    run-pending_requests registry false 1024 (opening ++ answers)
      (tt, (tt, (tt, (tt, (tt, (tt, (tt, (tt, tt)))))))) (omega arith)

-- Two requests wait after the opening.
two_waiting : waiting_ids registry opened ≡ 2
unfolding run step
two_waiting = refl

-- A client with TLS needs a provider, and one whose context is there.
constructions :
    (construct registry ℕ ℕ {C = ℕ} true none 1024 ≡ throws)
    × (construct registry ℕ ℕ {C = ℕ} true (some none) 1024 ≡ uses_null)
    × (construct registry ℕ ℕ {C = ℕ} false none 1024 ≡ made (create registry false 1024))
unfolding construct
constructions = (refl, refl, refl)
