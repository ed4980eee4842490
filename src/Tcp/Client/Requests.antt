-- ===== src/Tcp/Client/Requests.antt =====
-- tcp/tcp_client.h: the handlers of the requests over a run.
use mathlib.Core.Path.{subst}
use vectro.Common.{
  ℕ, ◌+◌, ◌^◌, ◌≤◌, ◌<◌, ◌≡◌, refl, Bool, Option, none, some, List, [], ◌∷◌, nat_beq, if◌then◌else◌,
  length, nat_key, arith,
}
use vectro.HashMap.{HashMap}
use vectro.Tcp.Client.{
  TcpClient, create, Action, opens, connect_times_out, resolved, connected, shaken, sends, requests,
  request_times_out, reads, read_times_out, idle_times_out, closes, handles, queue_writes, step,
  run,
}
use vectro.Tcp.Client.Keeps.{called, waiting, Keeps, Keeps-refl, step-Keeps}

module _ (hm : HashMap ℕ (Option ℕ)) {B M : Type 0} (j : ℕ) where
  open hm use {find, emplace, erase, find-emplace, find-erase, find-entries, entries-empty}

  -- Whether the step begins the request `j`, with a handler.
  abbrev asked : TcpClient hm B M → Action B M → ℕ
  asked s (requests b none) = 0
  asked s (requests b (some h)) = if nat_beq s.next_correlation_id j then 1 else 0
  asked s _ = 0

  abbrev pub run_asked : TcpClient hm B M → List (Action B M) → ℕ
  run_asked s [] = 0
  run_asked s (a ∷ actions) = asked s a + run_asked (step hm s a) actions

  -- With `a` requests begun under the id `j`: none before the counter has reached it.
  record Inv (a : ℕ) (s : TcpClient hm B M) : Type 0 where
    counted : called hm j s + waiting hm j s ≡ a
    once : a ≤ 1
    unborn : s.next_correlation_id ≤ j → (a ≡ 0) × (find j s.pending_responses ≡ none)

  Keeps-Inv : (a : ℕ) (s t : TcpClient hm B M) → Keeps hm j s t → Inv a s → Inv (a + 0) t
  Keeps-Inv a s t k v = record {
    counted = omega (arith, k.same, v.counted);
    once = omega (arith, v.once);
    unborn = λ le.
        let before = v.unborn (omega (arith, le, k.next)) in
        (omega (arith, before.0), k.gone before.1);
  }

  requests-Inv :
      (a : ℕ) (s : TcpClient hm B M) (b : B) (cb : Option ℕ)
      → s.next_correlation_id + 1 < 2 ^ 64
      → Inv a s
      → Inv (a + asked s (requests b cb)) (step hm s (requests b cb))
  unfolding step
  requests-Inv a s b none small v = ground (
    arith,
    find-emplace j s.next_correlation_id none s.pending_responses,
    v.unborn,
    v.counted,
    v.once,
  )
  requests-Inv a s b (some h) small v = ground (
    arith,
    find-emplace j s.next_correlation_id (some h) s.pending_responses,
    v.unborn,
    v.counted,
    v.once,
  )

  Keeps-next :
      (a : ℕ) (s t : TcpClient hm B M)
      → Keeps hm j s t
      → Inv a s
      → Inv (a + 0) t × (t.next_correlation_id ≤ s.next_correlation_id + 1)
  Keeps-next a s t k v = (Keeps-Inv a s t k v, omega (arith, k.next))

  requests-next :
      (s : TcpClient hm B M) (b : B) (cb : Option ℕ)
      → (step hm s (requests b cb)).next_correlation_id ≤ s.next_correlation_id + 1
  unfolding step
  requests-next s b cb = omega arith

  step-Inv :
      (a : ℕ) (s : TcpClient hm B M) (act : Action B M)
      → s.next_correlation_id + 1 < 2 ^ 64
      → Inv a s
      → Inv (a + asked s act) (step hm s act)
        × ((step hm s act).next_correlation_id ≤ s.next_correlation_id + 1)
  step-Inv a s (opens c) small v = Keeps-next a s _ (step-Keeps hm j s (opens c) tt) v
  step-Inv a s connect_times_out small v =
      Keeps-next a s _ (step-Keeps hm j s connect_times_out tt) v
  step-Inv a s (resolved failed) small v =
      Keeps-next a s _ (step-Keeps hm j s (resolved failed) tt) v
  step-Inv a s (connected failed) small v =
      Keeps-next a s _ (step-Keeps hm j s (connected failed) tt) v
  step-Inv a s (shaken failed) small v = Keeps-next a s _ (step-Keeps hm j s (shaken failed) tt) v
  step-Inv a s (sends buffers) small v = Keeps-next a s _ (step-Keeps hm j s (sends buffers) tt) v
  step-Inv a s (request_times_out place) small v =
      Keeps-next a s _ (step-Keeps hm j s (request_times_out place) tt) v
  step-Inv a s (reads failed msgs) small v =
      Keeps-next a s _ (step-Keeps hm j s (reads failed msgs) tt) v
  step-Inv a s read_times_out small v = Keeps-next a s _ (step-Keeps hm j s read_times_out tt) v
  step-Inv a s idle_times_out small v = Keeps-next a s _ (step-Keeps hm j s idle_times_out tt) v
  step-Inv a s (closes force) small v = Keeps-next a s _ (step-Keeps hm j s (closes force) tt) v
  step-Inv a s (handles m d) small v = Keeps-next a s _ (step-Keeps hm j s (handles m d) tt) v
  step-Inv a s (queue_writes place failed) small v =
      Keeps-next a s _ (step-Keeps hm j s (queue_writes place failed) tt) v
  step-Inv a s (requests b cb) small v = (requests-Inv a s b cb small v, requests-next s b cb)

  run-Inv :
      (a : ℕ) (s : TcpClient hm B M) (actions : List (Action B M))
      → s.next_correlation_id + length actions < 2 ^ 64
      → Inv a s
      → Inv (a + run_asked s actions) (run hm s actions)
  unfolding run
  run-Inv a s [] small v = Keeps-Inv a s s (Keeps-refl hm j s) v
  run-Inv a s (act ∷ actions) small v =
      let next = step-Inv a s act (omega (arith, small)) v in
      subst (λ (n : ℕ). Inv n (run hm (step hm s act) actions)) (omega arith)
        (run-Inv (a + asked s act) (step hm s act) actions (omega (arith, small, next.1)) next.0)

-- In any run of fewer than `2 ^ 64 - 1` steps, for every correlation id: at most one request with a
-- handler is given it, and the handler either waits or has been called exactly once.
pub run-called :
    (hm : HashMap ℕ (Option ℕ)) {B M : Type 0} (j : ℕ) (tls : Bool) (max_queue_size : ℕ)
    (actions : List (Action B M))
    → length actions + 1 < 2 ^ 64
    → (called hm j (run hm (create hm tls max_queue_size) actions)
          + waiting hm j (run hm (create hm tls max_queue_size) actions)
        ≡ run_asked hm j (create hm tls max_queue_size) actions)
      × (run_asked hm j (create hm tls max_queue_size) actions ≤ 1)
run-called hm {B} {M} j tls n actions small = (omega (arith, v.counted), omega (arith, v.once))
  where
    none_yet : hm.find j hm.empty ≡ none
    none_yet = rw (hm.find-entries j hm.empty, hm.entries-empty) refl

    v :
        Inv hm j
          (0 + run_asked hm j (create hm {B = B} {M = M} tls n) actions)
          (run hm (create hm tls n) actions)
    v = run-Inv hm j 0 (create hm tls n) actions (omega (arith, small)) (record {
      counted = rw (none_yet) refl;
      once = omega arith;
      unborn = λ le. (refl, none_yet);
    })
