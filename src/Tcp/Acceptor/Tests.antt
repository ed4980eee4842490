-- ===== src/Tcp/Acceptor/Tests.antt =====
-- tcp/tcp_acceptor_loop.h: runs of a loop whose endpoints are numbers, and its theorems at them.
use vectro.Common.{ℕ, ◌≡◌, refl, Bool, Option, none, some, List, [], ◌∷◌, ◌++◌, ltb, arith, All}
use vectro.Tcp.Acceptor.{
  failed, connected, Action, starts, stops, runs, completes, expires, accepts_at, times_out, create,
  step, run,
}
use vectro.Tcp.Acceptor.Outstanding.{slots, start_calls, run-slots}
use vectro.Tcp.Acceptor.Ids.{IsIncreasing, ids, IsAdmitted, run-ids}

abbrev low : Option (ℕ → Bool)
low = some (λ remote. ltb remote 100)

-- Two connections are accepted and one is refused by the filter, at port 80.
abbrev three : List (Action ℕ)
three =
    starts
    ∷ runs 0 0
    ∷ completes 0 (connected (some 7))
    ∷ accepts_at 0
    ∷ completes 0 (connected (some 700))
    ∷ accepts_at 0
    ∷ completes 0 (connected (some 8))
    ∷ accepts_at 0
    ∷ []

three_sessions :
    (run (create 80 low) three).sessions
    ≡ record { id = 1; remote = 7; port = 80 } ∷ record { id = 2; remote = 8; port = 80 } ∷ []
unfolding run step
three_sessions = refl

-- The timer of an accept ends while its handler waits: the next accept is cancelled by it.
abbrev late_timer : List (Action ℕ)
late_timer =
    starts
    ∷ runs 0 0
    ∷ completes 0 (connected (some 7))
    ∷ expires 0
    ∷ accepts_at 0
    ∷ times_out 0
    ∷ []

late_timer_cancels :
    (run (create 80 low) late_timer).accepts ≡ record { timer = 1; outcome = some failed } ∷ []
unfolding run step
late_timer_cancels = refl

-- A second `Start` starts a second accept.
two_starts :
    (run (create 80 low) (starts ∷ starts ∷ runs 0 0 ∷ runs 0 0 ∷ [])).accepts
    ≡ record { timer = 0; outcome = none } ∷ record { timer = 1; outcome = none } ∷ []
unfolding run step
two_starts = refl

abbrev closing : List (Action ℕ)
closing = three ++ stops ∷ runs 0 0 ∷ []

run-slots_example : slots (run (create 80 low) three) ≡ start_calls three
unfolding run step
run-slots_example = run-slots 80 low three refl

run-ids_example :
    IsIncreasing (ids (run (create 80 low) three))
    × All (IsAdmitted 80 low) (run (create 80 low) three).sessions
run-ids_example = run-ids 80 low three (omega arith)
