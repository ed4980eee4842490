-- ===== src/Tcp/Client/Pending.antt =====
-- tcp/tcp_client.h: what each handler does to the count of the pending requests.
use vectro.Common.{
  ℕ, ◌+◌, ◌^◌, ◌≤◌, ◌<◌, ◌≡◌, ◌∙◌, refl, ap, Bool, true, false, Option, none, some, List, [], ◌∷◌,
  if◌then◌else◌, without, get_elem?, length, nat_key, arith, Option-cases, inl, inr, All,
}
use vectro.HashMap.{lookup, HashMap}
use vectro.Tcp.Client.{
  TcpClient, create, Event, cancels, emit, messages, start_read, on_resolved, on_connected,
  on_handshake, on_request_timeout, close, deliver, deliver_all, on_read, Action, opens,
  connect_times_out, resolved, connected, shaken, sends, requests, request_times_out, reads,
  read_times_out, idle_times_out, closes, handles, queue_writes, step, run, snapshot_metrics,
}
use vectro.Tcp.Client.Counted.{
  has_empty, waiting_ids, IsCounted, IsSame, IsSame-IsCounted, erase-IsCounted, emplace-IsCounted,
}

module _ (hm : HashMap ℕ (Option ℕ)) {B M : Type 0} where
  open hm use {find, emplace, erase, find-emplace, find-erase, find-entries, entries-empty}

  -- The count holds on, and no id is given out.
  record IsKept (s t : TcpClient hm B M) : Type 0 where
    counted : IsCounted hm s → s.next_correlation_id < 2 ^ 64 → IsCounted hm t
    next : t.next_correlation_id ≡ s.next_correlation_id

  IsKept-trans : (s t u : TcpClient hm B M) → IsKept s t → IsKept t u → IsKept s u
  IsKept-trans s t u p q = record {
    counted = λ i small. q.counted (p.counted i small) (omega (arith, small, p.next));
    next = q.next ∙ p.next;
  }

  IsSame-IsKept : (s t : TcpClient hm B M) → IsSame hm s t → IsKept s t
  IsSame-IsKept s t e = record { counted = λ i small. IsSame-IsCounted hm s t e i; next = e.next }

  emit-IsKept :
      (handled : Bool) (ev : Event M) (s : TcpClient hm B M) → IsKept s (emit hm handled ev s)
  emit-IsKept true ev s = IsSame-IsKept s _ (record { pending = refl; next = refl; map = refl })
  emit-IsKept false ev s = IsSame-IsKept s s (record { pending = refl; next = refl; map = refl })

  start_read-IsSame : (s : TcpClient hm B M) → IsSame hm s (start_read hm s)
  unfolding start_read
  start_read-IsSame s = ground arith

  close-IsSame : (force : Bool) (s : TcpClient hm B M) → IsSame hm s (close hm force s)
  unfolding close
  close-IsSame force s = ground arith

  on_resolved-IsSame :
      (failed : Bool) (s : TcpClient hm B M) → IsSame hm s (on_resolved hm failed s)
  unfolding on_resolved
  on_resolved-IsSame failed s = ground arith

  on_connected-IsSame :
      (failed : Bool) (s : TcpClient hm B M) → IsSame hm s (on_connected hm failed s)
  unfolding on_connected
  on_connected-IsSame failed s = ground arith

  on_handshake-IsSame :
      (failed : Bool) (s : TcpClient hm B M) → IsSame hm s (on_handshake hm failed s)
  unfolding on_handshake
  on_handshake-IsSame failed s = ground arith

  on_request_timeout-IsKept :
      (cid : ℕ) (s : TcpClient hm B M) → IsKept s (on_request_timeout hm cid s)
  unfolding on_request_timeout
  on_request_timeout-IsKept cid s = elim (Option-cases (find cid s.pending_responses)) [
    | inl out ↦ rw (out, on_request_timeout) (emit-IsKept false cancels s)
    | inr (none, at) ↦ record {
      counted = λ i small. absurd (ground (arith, at, i.handled cid));
      next = ground (arith, at);
    }
    | inr (some h, at) ↦
        rw (at, on_request_timeout)
          (record {
            counted = λ i small. erase-IsCounted hm s _ cid h at small refl refl refl i;
            next = refl;
          })
  ]

  deliver-IsKept : (m : ℕ × M) (s : TcpClient hm B M) → IsKept s (deliver hm m s)
  unfolding deliver
  deliver-IsKept (cid, m) s = elim (Option-cases (find cid s.pending_responses)) [
    | inl out ↦ rw (out, deliver) (emit-IsKept s.on_message (messages m) s)
    | inr (none, at) ↦ record {
      counted = λ i small. absurd (ground (arith, at, i.handled cid));
      next = ground (arith, at);
    }
    | inr (some h, at) ↦
        rw (at, deliver)
          (record {
            counted = λ i small. erase-IsCounted hm s _ cid h at small refl refl refl i;
            next = refl;
          })
  ]

  deliver_all-IsKept : (ms : List (ℕ × M)) (s : TcpClient hm B M) → IsKept s (deliver_all hm ms s)
  unfolding deliver_all
  deliver_all-IsKept [] s = emit-IsKept false cancels s
  deliver_all-IsKept (m ∷ ms) s =
      IsKept-trans s (deliver hm m s) (deliver_all hm ms (deliver hm m s)) (deliver-IsKept m s)
        (deliver_all-IsKept ms (deliver hm m s))

  on_read-IsKept :
      (failed : Bool) (msgs : Option (List (ℕ × M))) (s : TcpClient hm B M)
      → IsKept s (on_read hm failed msgs s)
  unfolding on_read
  on_read-IsKept true msgs s =
      IsKept-trans s (record s { reading = false }) _
        (IsSame-IsKept s _ (record { pending = refl; next = refl; map = refl }))
        (IsSame-IsKept _ _ (close-IsSame true (record s { reading = false })))
  on_read-IsKept false none s =
      IsSame-IsKept s _ (record { pending = refl; next = refl; map = refl })
  on_read-IsKept false (some ms) s =
      let t : TcpClient hm B M = record s {
        reading = false;
        read_wait = false;
        idle_wait = false;
      } in
      IsKept-trans s t _ (IsSame-IsKept s t (record { pending = refl; next = refl; map = refl })) (
        IsKept-trans t (deliver_all hm ms t) _ (deliver_all-IsKept ms t)
          (IsSame-IsKept _ _ (start_read-IsSame (deliver_all hm ms t))))

  -- The handler of a request is not empty.
  abbrev HasHandler : Action B M → Type 0
  HasHandler (requests b none) = ⊥
  HasHandler _ = Unit

  record IsNext (s t : TcpClient hm B M) : Type 0 where
    counted : IsCounted hm t
    next : t.next_correlation_id ≤ s.next_correlation_id + 1

  kept-IsNext :
      (s t : TcpClient hm B M)
      → s.next_correlation_id + 1 < 2 ^ 64
      → IsCounted hm s
      → IsKept s t
      → IsNext s t
  kept-IsNext s t small i k = record {
    counted = k.counted i (omega (arith, small));
    next = omega (arith, k.next);
  }

  IsKept-refl : (s : TcpClient hm B M) → IsKept s s
  IsKept-refl s = IsSame-IsKept s s (record { pending = refl; next = refl; map = refl })

  if-IsKept : (b : Bool) (s t : TcpClient hm B M) → IsKept s t → IsKept s (if b then t else s)
  if-IsKept true s t k = k
  if-IsKept false s t k = IsKept-refl s

  -- A state that differs elsewhere only.
  from-IsKept : (s t u : TcpClient hm B M) → IsSame hm s t → IsKept t u → IsKept s u
  from-IsKept s t u e k = IsKept-trans s t u (IsSame-IsKept s t e) k

  step-IsNext :
      (s : TcpClient hm B M) (a : Action B M)
      → HasHandler a
      → s.next_correlation_id + 1 < 2 ^ 64
      → IsCounted hm s
      → IsNext s (step hm s a)
  unfolding step
  step-IsNext s (opens c) p small i = kept-IsNext s _ small i (IsSame-IsKept s _ (ground arith))
  step-IsNext s connect_times_out p small i =
      kept-IsNext s _ small i (IsSame-IsKept s _ (ground arith))
  step-IsNext s (resolved failed) p small i = kept-IsNext s _ small i (
      if-IsKept s.resolving s (on_resolved hm failed s)
        (IsSame-IsKept s _ (on_resolved-IsSame failed s)))
  step-IsNext s (connected failed) p small i = kept-IsNext s _ small i (
      if-IsKept s.connecting s (on_connected hm failed s)
        (IsSame-IsKept s _ (on_connected-IsSame failed s)))
  step-IsNext s (shaken failed) p small i = kept-IsNext s _ small i (
      if-IsKept s.handshaking s (on_handshake hm failed s)
        (IsSame-IsKept s _ (on_handshake-IsSame failed s)))
  step-IsNext s (sends buffers) p small i =
      kept-IsNext s _ small i (IsSame-IsKept s _ (ground arith))
  step-IsNext s (requests b none) p small i = absurd p
  step-IsNext s (requests b (some h)) p small i = record {
    counted = emplace-IsCounted hm s _ h small refl refl refl i;
    next = omega arith;
  }
  step-IsNext s (request_times_out place) p small i =
      elim (Option-cases (get_elem? s.timers place)) [
        | inl out ↦ rw (out, step) (kept-IsNext s s small i (IsKept-refl s))
        | inr (cid, at) ↦
            rw (at, step)
              (kept-IsNext s _ small i (
                from-IsKept s (record s { timers = without place s.timers }) _ (ground arith)
                  (on_request_timeout-IsKept cid (record s { timers = without place s.timers }))))
      ]
  step-IsNext s (reads failed msgs) p small i =
      kept-IsNext s _ small i
        (if-IsKept s.reading s (on_read hm failed msgs s) (on_read-IsKept failed msgs s))
  step-IsNext s read_times_out p small i = kept-IsNext s _ small i (
      if-IsKept s.read_wait s _ (
        from-IsKept s (record s { read_wait = false }) _ (ground arith)
          (IsSame-IsKept _ _ (close-IsSame true (record s { read_wait = false })))))
  step-IsNext s idle_times_out p small i = kept-IsNext s _ small i (
      if-IsKept s.idle_wait s _ (
        from-IsKept s (record s { idle_wait = false }) _ (ground arith)
          (IsSame-IsKept _ _ (close-IsSame true (record s { idle_wait = false })))))
  step-IsNext s (closes force) p small i =
      kept-IsNext s _ small i (IsSame-IsKept s _ (close-IsSame force s))
  step-IsNext s (handles m d) p small i = kept-IsNext s _ small i (IsSame-IsKept s _ (ground arith))
  step-IsNext s (queue_writes place failed) p small i =
      kept-IsNext s _ small i (IsSame-IsKept s _ (ground arith))

  run-IsCounted :
      (s : TcpClient hm B M) (actions : List (Action B M))
      → All HasHandler actions
      → s.next_correlation_id + length actions < 2 ^ 64
      → IsCounted hm s
      → IsCounted hm (run hm s actions)
  unfolding run
  run-IsCounted s [] p small i = i
  run-IsCounted s (a ∷ actions) p small i =
      let n = step-IsNext s a p.0 (omega (arith, small)) i in
      run-IsCounted (step hm s a) actions p.1 (omega (arith, small, n.next)) n.counted

  -- In any run of fewer than `2 ^ 64 - 1` steps in which no request has an empty handler: the count of
  -- the pending requests, which `SnapshotMetrics` answers, is the number of correlation ids whose
  -- handler waits.
  pub run-pending_requests :
      (tls : Bool) (max_queue_size : ℕ) (actions : List (Action B M))
      → All HasHandler actions
      → length actions + 1 < 2 ^ 64
      → (snapshot_metrics hm (run hm (create hm tls max_queue_size) actions)).pending_requests
        ≡ waiting_ids hm (run hm (create hm tls max_queue_size) actions)
  run-pending_requests tls n actions p small =
      let none_yet = λ (j : ℕ). (find-entries j hm.empty ∙ ap (lookup j) entries-empty) in
      (run-IsCounted (create hm tls n) actions p (omega (arith, small)) (record {
        count = ground (arith, none_yet 0);
        handled = λ j. ap has_empty (none_yet j);
        unborn = λ j le. none_yet j;
      })).count
