-- ===== src/Tcp/Client/Keeps.antt =====
-- tcp/tcp_client.h: each handler and the requests that wait.

use vectro.Common.{
  without, ℕ, ◌+◌, ◌≡◌, refl, ◌∙◌, Bool, true, false, Option, none, some, List, [], ◌∷◌, nat_beq,
  if◌then◌else◌, get_elem?, nat_key, total, total-append, arith, Option-cases, inl, inr,
}
use vectro.HashMap.{HashMap}
use vectro.Tcp.Client.{
  Event, connects, cancels, messages, responds, disconnects, TcpClient, emit, start_read,
  on_resolved, on_connected, on_handshake, on_request_timeout, close, deliver, deliver_all, on_read,
  Action, opens, connect_times_out, resolved, connected, shaken, sends, requests, request_times_out,
  reads, read_times_out, idle_times_out, closes, handles, queue_writes, step,
}

-- A call of a handler of the request `j`.
abbrev pub is_response : {M : Type 0} → ℕ → Event M → ℕ
is_response j (responds cid cb m) = if nat_beq cid j then 1 else 0
is_response j _ = 0

abbrev pub handlers : Option (Option ℕ) → ℕ
handlers none = 0
handlers (some none) = 0
handlers (some (some h)) = 1

module _ (hm : HashMap ℕ (Option ℕ)) {B M : Type 0} (j : ℕ) where
  open hm use {find, emplace, erase, find-emplace, find-erase, find-entries, entries-empty}

  -- How often a handler of the request `j` has been called.
  abbrev pub called : TcpClient hm B M → ℕ
  called s = total (is_response j) s.events

  -- Whether a handler of the request `j` waits.
  abbrev pub waiting : TcpClient hm B M → ℕ
  waiting s = handlers (find j s.pending_responses)

  pub record Keeps (s t : TcpClient hm B M) : Type 0 where
    pub same : called t + waiting t ≡ called s + waiting s
    pub next : t.next_correlation_id ≡ s.next_correlation_id
    pub gone : find j s.pending_responses ≡ none → find j t.pending_responses ≡ none

  pub Keeps-refl : (s : TcpClient hm B M) → Keeps s s
  Keeps-refl s = record { same = refl; next = refl; gone = λ e. e }

  Keeps-trans : (s t u : TcpClient hm B M) → Keeps s t → Keeps t u → Keeps s u
  Keeps-trans s t u p q = record {
    same = q.same ∙ p.same;
    next = q.next ∙ p.next;
    gone = λ e. q.gone (p.gone e);
  }

  emit-Keeps :
      (handled : Bool) (ev : Event M) (s : TcpClient hm B M)
      → is_response j ev ≡ 0
      → Keeps s (emit hm handled ev s)
  emit-Keeps true ev s e = record {
    same = omega (arith, e, total-append (is_response j) s.events (ev ∷ []));
    next = refl;
    gone = λ h. h;
  }
  emit-Keeps false ev s e = Keeps-refl s

  start_read-Keeps : (s : TcpClient hm B M) → Keeps s (start_read hm s)
  unfolding start_read
  start_read-Keeps s = ground arith

  close-Keeps : (force : Bool) (s : TcpClient hm B M) → Keeps s (close hm force s)
  unfolding close
  close-Keeps force s = ground (arith, total-append (is_response j) s.events (disconnects ∷ []))

  on_resolved-Keeps : (failed : Bool) (s : TcpClient hm B M) → Keeps s (on_resolved hm failed s)
  unfolding on_resolved
  on_resolved-Keeps failed s =
      ground (arith, total-append (is_response j) s.events (connects false ∷ []))

  on_connected-Keeps : (failed : Bool) (s : TcpClient hm B M) → Keeps s (on_connected hm failed s)
  unfolding on_connected
  on_connected-Keeps failed s = ground (
    arith,
    total-append (is_response j) s.events (connects false ∷ []),
    total-append (is_response j) s.events (connects true ∷ []),
  )

  on_handshake-Keeps : (failed : Bool) (s : TcpClient hm B M) → Keeps s (on_handshake hm failed s)
  unfolding on_handshake
  on_handshake-Keeps failed s = ground (
    arith,
    total-append (is_response j) s.events (connects false ∷ []),
    total-append (is_response j) s.events (connects true ∷ []),
  )

  on_request_timeout-Keeps :
      (cid : ℕ) (s : TcpClient hm B M) → Keeps s (on_request_timeout hm cid s)
  unfolding on_request_timeout
  on_request_timeout-Keeps cid s = elim (Option-cases (find cid s.pending_responses)) [
    | inl out ↦ rw (out, on_request_timeout) (Keeps-refl s)
    | inr (none, at) ↦ ground (arith, at, find-erase j cid s.pending_responses)
    | inr (some h, at) ↦ ground (
      arith,
      at,
      find-erase j cid s.pending_responses,
      total-append (is_response j) s.events (responds cid h none ∷ []),
    )
  ]

  deliver-Keeps : (m : ℕ × M) (s : TcpClient hm B M) → Keeps s (deliver hm m s)
  unfolding deliver
  deliver-Keeps (cid, m) s = elim (Option-cases (find cid s.pending_responses)) [
    | inl out ↦ rw (out, deliver) (emit-Keeps s.on_message (messages m) s refl)
    | inr (none, at) ↦ ground (
      arith,
      at,
      find-erase j cid s.pending_responses,
      total-append (is_response j) s.events (messages m ∷ []),
    )
    | inr (some h, at) ↦ ground (
      arith,
      at,
      find-erase j cid s.pending_responses,
      total-append (is_response j) s.events (responds cid h (some m) ∷ []),
    )
  ]

  deliver_all-Keeps : (ms : List (ℕ × M)) (s : TcpClient hm B M) → Keeps s (deliver_all hm ms s)
  unfolding deliver_all
  deliver_all-Keeps [] s = Keeps-refl s
  deliver_all-Keeps (m ∷ ms) s =
      Keeps-trans s (deliver hm m s) (deliver_all hm ms (deliver hm m s)) (deliver-Keeps m s)
        (deliver_all-Keeps ms (deliver hm m s))

  on_read-Keeps :
      (failed : Bool) (msgs : Option (List (ℕ × M))) (s : TcpClient hm B M)
      → Keeps s (on_read hm failed msgs s)
  unfolding on_read
  on_read-Keeps true msgs s =
      let k = close-Keeps true (record s { reading = false }) in
      record { same = k.same; next = k.next; gone = k.gone }
  on_read-Keeps false none s = ground arith
  on_read-Keeps false (some ms) s =
      let t = record s { reading = false; read_wait = false; idle_wait = false } in
      let k =
        Keeps-trans t (deliver_all hm ms t) (start_read hm (deliver_all hm ms t))
          (deliver_all-Keeps ms t) (start_read-Keeps (deliver_all hm ms t)) in
      record { same = k.same; next = k.next; gone = k.gone }

  if-Keeps : (b : Bool) (s t : TcpClient hm B M) → Keeps s t → Keeps s (if b then t else s)
  if-Keeps true s t k = k
  if-Keeps false s t k = Keeps-refl s

  abbrev IsOther : Action B M → Type 0
  IsOther (requests b cb) = ⊥
  IsOther _ = Unit

  -- Whatever is no new request.
  pub step-Keeps : (s : TcpClient hm B M) (a : Action B M) → IsOther a → Keeps s (step hm s a)
  unfolding step on_read
  step-Keeps s (opens on_connect) other = ground arith
  step-Keeps s connect_times_out other =
      ground (arith, total-append (is_response j) s.events (cancels ∷ []))
  step-Keeps s (resolved failed) other =
      if-Keeps s.resolving s (on_resolved hm failed s) (on_resolved-Keeps failed s)
  step-Keeps s (connected failed) other =
      if-Keeps s.connecting s (on_connected hm failed s) (on_connected-Keeps failed s)
  step-Keeps s (shaken failed) other =
      if-Keeps s.handshaking s (on_handshake hm failed s) (on_handshake-Keeps failed s)
  step-Keeps s (sends buffers) other = ground arith
  step-Keeps s (requests b cb) other = absurd other
  step-Keeps s (request_times_out place) other = elim (Option-cases (get_elem? s.timers place)) [
    | inl none_left ↦ rw (none_left, step) (Keeps-refl s)
    | inr (cid, at) ↦
        rw (at, step)
          (let k = on_request_timeout-Keeps cid (record s { timers = without place s.timers }) in
            record { same = k.same; next = k.next; gone = k.gone })
  ]
  step-Keeps s (reads failed msgs) other =
      if-Keeps s.reading s (on_read hm failed msgs s) (on_read-Keeps failed msgs s)
  step-Keeps s read_times_out other =
      ground (arith, close-Keeps true (record s { read_wait = false }))
  step-Keeps s idle_times_out other =
      ground (arith, close-Keeps true (record s { idle_wait = false }))
  step-Keeps s (closes force) other = close-Keeps force s
  step-Keeps s (handles m d) other = ground arith
  step-Keeps s (queue_writes place failed) other = ground arith
