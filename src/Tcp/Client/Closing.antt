-- ===== src/Tcp/Client/Closing.antt =====
-- tcp/tcp_client.h: what the end of a request's timer and a close leave behind.
use vectro.Common.{
  ℕ, ◌+◌, ◌≡◌, Bool, true, Option, none, some, List, [], ◌∷◌, ◌++◌, get_elem?, nat_key, total,
  total-append, arith, Option-cases, inl, inr,
}
use vectro.HashMap.{HashMap}
use vectro.Tcp.Client.{
  Event, responds, disconnects, TcpClient, on_request_timeout, close, on_read, request_times_out,
  reads, closes, step, run,
}
use vectro.Tcp.Client.Keeps.{is_response, called, waiting}

abbrev is_disconnect : {M : Type 0} → Event M → ℕ
is_disconnect disconnects = 1
is_disconnect _ = 0

module _ (hm : HashMap ℕ (Option ℕ)) {B M : Type 0} where
  open hm use {find, find-erase}

  -- How often the disconnect handler has been called.
  abbrev pub disconnections : TcpClient hm B M → ℕ
  disconnections s = total is_disconnect s.events

  -- When the timer of a request ends, no handler of the request waits any more; one that waited has been
  -- called, and one that did not is not called.
  request_times_out_lem :
      (s : TcpClient hm B M) (place cid : ℕ)
      → get_elem? s.timers place ≡ some cid
      → (waiting hm cid (step hm s (request_times_out place)) ≡ 0)
        × (called hm cid (step hm s (request_times_out place)) ≡ called hm cid s + waiting hm cid s)
  unfolding step on_request_timeout
  request_times_out_lem s place cid e = elim (Option-cases (find cid s.pending_responses)) [
    | inl out ↦ rw (e, step) (ground (arith, out))
    | inr (none, at) ↦ rw (e, step) (ground (arith, at, find-erase cid cid s.pending_responses))
    | inr (some h, at) ↦
        rw (e, step)
          (ground (
            arith,
            at,
            find-erase cid cid s.pending_responses,
            total-append (is_response cid) s.events (responds cid h none ∷ []),
          ))
  ]

  -- For a client with a read outstanding and a disconnect handler: a close and then the end of the read
  -- that it aborts call the disconnect handler twice.
  closes-reads :
      (s : TcpClient hm B M) (force : Bool) (msgs : Option (List (ℕ × M)))
      → s.reading ≡ true
      → s.on_disconnect ≡ true
      → disconnections (run hm s (closes force ∷ reads true msgs ∷ [])) ≡ disconnections s + 2
  unfolding run step close on_read
  closes-reads s force msgs r d = ground (
    arith,
    total-append is_disconnect s.events (disconnects ∷ []),
    total-append is_disconnect (s.events ++ disconnects ∷ []) (disconnects ∷ []),
  )
