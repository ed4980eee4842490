-- ===== src/Tcp/Client/Counted.antt =====
-- tcp/tcp_client.h: the count of the pending requests against the handlers that wait.
use vectro.Common.{
  ℕ, zero, suc, ◌+◌, ◌-◌, ◌%◌, ◌^◌, ◌≤◌, ◌<◌, ◌≡◌, ◌∙◌, refl, sym, ap, Bool, true, false, Option,
  none, some, nat_beq, ltb, if◌then◌else◌, nat_key, arith,
}
use vectro.HashMap.{HashMap}
use vectro.Tcp.Client.{TcpClient}

-- The sum of `f` over the numbers below `n`.
abbrev sum_below : (ℕ → ℕ) → ℕ → ℕ
sum_below f zero = 0
sum_below f (suc n) = sum_below f n + f n

sum_below-same :
    (f g : ℕ → ℕ) (n : ℕ) → ((i : ℕ) → i < n → g i ≡ f i) → sum_below g n ≡ sum_below f n
sum_below-same f g zero h = refl
sum_below-same f g (suc n) h =
    omega (arith, sum_below-same f g n (λ i lt. h i (omega (arith, lt))), h n (omega arith))

sum_below-less :
    (f g : ℕ → ℕ) (j n : ℕ)
    → ((i : ℕ) → g i + (if nat_beq j i then 1 else 0) ≡ f i)
    → sum_below g n + (if ltb j n then 1 else 0) ≡ sum_below f n
sum_below-less f g j zero h = ground arith
sum_below-less f g j (suc n) h = ground (arith, sum_below-less f g j n h, h n)

sum_below_le : (f : ℕ → ℕ) (n : ℕ) → ((i : ℕ) → f i ≤ 1) → sum_below f n ≤ n
sum_below_le f zero h = omega arith
sum_below_le f (suc n) h = omega (arith, sum_below_le f n h, h n)

-- How many handlers an entry of the map has, and whether it has an empty one.
abbrev pub waits : Option (Option ℕ) → ℕ
waits none = 0
waits (some none) = 0
waits (some (some h)) = 1

abbrev pub has_empty : Option (Option ℕ) → Bool
has_empty (some none) = true
has_empty _ = false

waits_le : (o : Option (Option ℕ)) → waits o ≤ 1
waits_le none = omega arith
waits_le (some none) = omega arith
waits_le (some (some h)) = omega arith

module _ (hm : HashMap ℕ (Option ℕ)) where
  open hm use {find, erase, find-erase}

  waits_erased :
      (m : hm.Map) (cid h i : ℕ)
      → find cid m ≡ some (some h)
      → waits (find i (erase cid m)) + (if nat_beq cid i then 1 else 0) ≡ waits (find i m)
  waits_erased m cid h i at = ground (arith, find-erase i cid m, at)

module _ (hm : HashMap ℕ (Option ℕ)) {B M : Type 0} where
  open hm use {find, emplace, erase, find-emplace, find-erase, find-entries, entries-empty}

  -- The correlation ids whose handler waits.
  abbrev pub waiting_ids : TcpClient hm B M → ℕ
  waiting_ids s = sum_below (λ i. waits (find i s.pending_responses)) s.next_correlation_id

  pub record IsCounted (s : TcpClient hm B M) : Type 0 where
    pub count : s.pending_requests ≡ waiting_ids s
    pub handled : (i : ℕ) → has_empty (find i s.pending_responses) ≡ false
    pub unborn : (i : ℕ) → s.next_correlation_id ≤ i → find i s.pending_responses ≡ none

  -- What the count depends on is left alone.
  pub record IsSame (s t : TcpClient hm B M) : Type 0 where
    pub pending : t.pending_requests ≡ s.pending_requests
    pub next : t.next_correlation_id ≡ s.next_correlation_id
    pub map : t.pending_responses ≡ s.pending_responses

  pub IsSame-IsCounted : (s t : TcpClient hm B M) → IsSame s t → IsCounted s → IsCounted t
  IsSame-IsCounted s t e i = record {
    count =
        e.pending
        ∙ i.count
        ∙ ap (λ m. sum_below (λ j. waits (find j m)) s.next_correlation_id) (sym e.map)
        ∙ ap (sum_below (λ j. waits (find j t.pending_responses))) (sym e.next);
    handled = λ j. ap (λ m. has_empty (find j m)) e.map ∙ i.handled j;
    unborn = λ j le. ap (λ m. find j m) e.map ∙ i.unborn j (omega (arith, le, e.next));
  }

  is_below :
      (s : TcpClient hm B M) (cid h : ℕ)
      → IsCounted s
      → find cid s.pending_responses ≡ some (some h)
      → cid < s.next_correlation_id
  is_below s cid h i at = ground (arith, at, i.unborn cid)

  -- A handler taken out of the map, and counted off.
  pub erase-IsCounted :
      (s t : TcpClient hm B M) (cid h : ℕ)
      → find cid s.pending_responses ≡ some (some h)
      → s.next_correlation_id < 2 ^ 64
      → t.pending_responses ≡ erase cid s.pending_responses
      → t.pending_requests ≡ (s.pending_requests + (2 ^ 64 - 1)) % 2 ^ 64
      → t.next_correlation_id ≡ s.next_correlation_id
      → IsCounted s
      → IsCounted t
  erase-IsCounted s t cid h at small m p n i =
      let below = is_below s cid h i at in
      let less =
        sum_below-less (λ j. waits (find j s.pending_responses))
          (λ j. waits (find j (erase cid s.pending_responses))) cid s.next_correlation_id
          (λ j. waits_erased hm s.pending_responses cid h j at) in
      let most =
        sum_below_le (λ j. waits (find j s.pending_responses)) s.next_correlation_id
          (λ j. waits_le (find j s.pending_responses)) in
      let moved : waiting_ids t
          ≡ sum_below (λ j. waits (find j (erase cid s.pending_responses))) s.next_correlation_id =
        ap (λ m. sum_below (λ j. waits (find j m)) t.next_correlation_id) m
        ∙ ap (sum_below (λ j. waits (find j (erase cid s.pending_responses)))) n in
      record {
        count = ground (arith, p, moved, less, most, i.count, below, small);
        handled = λ j.
            ap (λ m. has_empty (find j m)) m
            ∙ ground (arith, find-erase j cid s.pending_responses, i.handled j);
        unborn = λ j le.
            ap (λ m. find j m) m
            ∙ ground
                (arith, find-erase j cid s.pending_responses, i.unborn j (omega (arith, le, n)));
      }

  -- A request with the handler `h`.
  pub emplace-IsCounted :
      (s t : TcpClient hm B M) (h : ℕ)
      → s.next_correlation_id + 1 < 2 ^ 64
      → t.pending_responses ≡ emplace s.next_correlation_id (some h) s.pending_responses
      → t.pending_requests ≡ (s.pending_requests + 1) % 2 ^ 64
      → t.next_correlation_id ≡ (s.next_correlation_id + 1) % 2 ^ 64
      → IsCounted s
      → IsCounted t
  emplace-IsCounted s t h small m p n i =
      let cid = s.next_correlation_id in
      let grown = emplace cid (some h) s.pending_responses in
      let fresh = i.unborn cid (omega arith) in
      let same =
        sum_below-same (λ j. waits (find j s.pending_responses)) (λ j. waits (find j grown)) cid
          (λ j lt. ground (arith, find-emplace j cid (some h) s.pending_responses, lt)) in
      let here : waits (find cid grown) ≡ 1 =
        ground (arith, find-emplace cid cid (some h) s.pending_responses, fresh) in
      let most =
        sum_below_le (λ j. waits (find j s.pending_responses)) cid
          (λ j. waits_le (find j s.pending_responses)) in
      let next : t.next_correlation_id ≡ suc cid = omega (arith, n, small) in
      let moved : waiting_ids t ≡ sum_below (λ j. waits (find j grown)) (suc cid) =
        ap (λ m. sum_below (λ j. waits (find j m)) t.next_correlation_id) m
        ∙ ap (sum_below (λ j. waits (find j grown))) next in
      record {
        count = omega (arith, p, moved, same, here, most, i.count, small);
        handled = λ j.
            ap (λ m. has_empty (find j m)) m
            ∙ ground (arith, find-emplace j cid (some h) s.pending_responses, i.handled j, fresh);
        unborn = λ j le.
            ap (λ m. find j m) m
            ∙ ground (
              arith,
              find-emplace j cid (some h) s.pending_responses,
              le,
              next,
              i.unborn j (omega (arith, le, next)),
            );
      }
