-- ===== src/Tcp/Server/Told.antt =====
-- tcp/tcp_server.h: what the loops of a server have been told.
use vectro.Common.{
  ℕ, zero, suc, ◌+◌, ◌≤◌, ◌<◌, ◌≡◌, ◌⊎◌, inl, inr, refl, ap, Bool, some, List, [], ◌∷◌, ◌++◌,
  length, nat_beq, nat_key, total, total-append, arith, All, Bool-cases,
}
use vectro.HashMap.{lookup}
use vectro.Tcp.Acceptor.{AcceptorLoop, Post, shuts, starts, stops, enables_draining, step}
use vectro.Tcp.Acceptor
use vectro.Tcp.Server.{tell, tell_all}

abbrev is_shut : Post → ℕ
is_shut shuts = 1
is_shut _ = 0

module _ {E : Type 0} where
  -- How often the loop at this place has been told to stop; 1 where there is no loop.
  abbrev pub shuts_at : ℕ → List (AcceptorLoop E) → ℕ
  shuts_at i [] = 1
  shuts_at zero (l ∷ ls) = total is_shut l.posts
  shuts_at (suc i) (l ∷ ls) = shuts_at i ls

  abbrev pub IsTold : AcceptorLoop E → Type 0
  IsTold l = 0 < total is_shut l.posts

  pub shuts_at-IsTold : (ls : List (AcceptorLoop E)) → ((i : ℕ) → 0 < shuts_at i ls) → All IsTold ls
  shuts_at-IsTold [] h = tt
  shuts_at-IsTold (l ∷ ls) h = (h 0, shuts_at-IsTold ls (λ i. h (suc i)))

  -- A call that leaves what the loop was told.
  abbrev KeepsTold : Acceptor.Action E → Type 0
  KeepsTold a = (l : AcceptorLoop E) → total is_shut l.posts ≤ total is_shut (step l a).posts

  stops-told : (l : AcceptorLoop E) → total is_shut (step l stops).posts ≡ total is_shut l.posts + 1
  unfolding step
  stops-told l = omega (arith, total-append is_shut l.posts (shuts ∷ []))

  pub stops-KeepsTold : KeepsTold stops
  stops-KeepsTold l = omega (arith, stops-told l)

  pub enables_draining-KeepsTold : (b : Bool) → KeepsTold (enables_draining b)
  unfolding step
  enables_draining-KeepsTold b l =
      omega (arith, total-append is_shut l.posts (Acceptor.drains b ∷ []))

  tell-cons :
      (a : Acceptor.Action E) (i : ℕ) (l : AcceptorLoop E) (ls : List (AcceptorLoop E))
      → tell a (suc i) (l ∷ ls) ≡ l ∷ tell a i ls
  tell-cons a i l ls = ground arith

  pub tell-shuts_at :
      (a : Acceptor.Action E) (i j : ℕ) (ls : List (AcceptorLoop E))
      → KeepsTold a
      → shuts_at j ls ≤ shuts_at j (tell a i ls)
  tell-shuts_at a i j [] h = omega arith
  tell-shuts_at a zero zero (l ∷ ls) h = h l
  tell-shuts_at a zero (suc j) (l ∷ ls) h = omega arith
  tell-shuts_at a (suc i) zero (l ∷ ls) h = rw (tell-cons a i l ls) (omega arith)
  tell-shuts_at a (suc i) (suc j) (l ∷ ls) h = rw (tell-cons a i l ls) (tell-shuts_at a i j ls h)

  pub tell_stops : (i : ℕ) (ls : List (AcceptorLoop E)) → 0 < shuts_at i (tell stops i ls)
  tell_stops i [] = omega arith
  tell_stops zero (l ∷ ls) = omega (arith, stops-told l)
  tell_stops (suc i) (l ∷ ls) = rw (tell-cons stops i l ls) (tell_stops i ls)

  pub tell_all-shuts_at :
      (a : Acceptor.Action E) (kvs : List (ℕ × ℕ)) (j : ℕ) (ls : List (AcceptorLoop E))
      → KeepsTold a
      → shuts_at j ls ≤ shuts_at j (tell_all a kvs ls)
  tell_all-shuts_at a [] j ls h = omega arith
  tell_all-shuts_at a ((port, i) ∷ kvs) j ls h =
      omega (arith, tell-shuts_at a i j ls h, tell_all-shuts_at a kvs j (tell a i ls) h)

  pub tell_all_stops :
      (kvs : List (ℕ × ℕ)) (port i : ℕ) (ls : List (AcceptorLoop E))
      → lookup port kvs ≡ some i
      → 0 < shuts_at i (tell_all stops kvs ls)
  tell_all_stops [] port i ls e = ground arith
  tell_all_stops ((q, k) ∷ kvs) port i ls e = elim (Bool-cases (nat_beq q port)) [
    | inl here ↦
        let same : k ≡ i = ground (arith, here, e) in
        let told : 0 < shuts_at i (tell stops k ls) = rw same (tell_stops i ls) in
        omega (arith, told, tell_all-shuts_at stops kvs i (tell stops k ls) stops-KeepsTold)
    | inr other ↦ tell_all_stops kvs port i (tell stops k ls) (ground (arith, other, e))
  ]

  pub shuts_at-append :
      (i : ℕ) (ls : List (AcceptorLoop E)) (l : AcceptorLoop E)
      → (i ≡ length ls) ⊎ (shuts_at i ls ≤ shuts_at i (ls ++ l ∷ []))
  shuts_at-append zero [] l = inl refl
  shuts_at-append (suc i) [] l = inr (omega arith)
  shuts_at-append zero (k ∷ ls) l = inr (omega arith)
  shuts_at-append (suc i) (k ∷ ls) l = elim (shuts_at-append i ls l) [
    | inl e ↦ inl (ap suc e)
    | inr le ↦ inr le
  ]
