-- ===== src/Noise/Listen/Places.antt =====
-- Where a connection can be: in one place at a time, and with Accept's caller only once it is
-- authorized. Behind Close every handshake comes to its end.
use mathlib.Core.Path.{subst}
use gno_watchtower.Base.{
  ℕ, ◌+◌, ◌≤◌, Bool, true, false, List, [], ◌∷◌, ◌++◌, length, length-append, All, All-append, ltb,
  if◌then◌else◌, ◌≡◌, refl, ap, ◌⊎◌, inr, arith,
}
use gno_watchtower.Noise.Listen.{
  accept_result_buffer, AcceptResult, conn, accept_error, Listen, Step, arrive, stop, fail, surface,
  give_up, reject, complete, publish, drop, accept, accept_failure, close, Reach, start, later,
}
use gno_watchtower.Noise.Listen.Counts.{
  count, count_results, count-middle, count_results-last, count_results-error,
}

-- In how many places a connection is.
unfoldable pub places : ℕ → Listen → ℕ
places x l =
    count x l.handshaking
    + count x l.ready
    + count_results x l.results
    + count x l.accepted
    + count x l.rejected
    + count x l.dropped

abbrev pub arrived : ℕ → Listen → ℕ
arrived x l = if ltb x l.next then 1 else 0

module _ (authorized : ℕ → Bool) where
  Step-places :
      {l m : Listen} (x : ℕ)
      → Step authorized l m
      → places x l ≡ arrived x l
      → places x m ≡ arrived x m
  unfolding places count count_results
  Step-places {l} x (arrive e) h = ground (arith, h)
  Step-places {l} x (stop e c) h = h
  Step-places {l} x (fail e c) h = h
  Step-places {l} x (surface e room) h = omega (arith, h, count_results-error x l.results)
  Step-places {l} x (give_up e c) h = h
  Step-places {l} x (reject before after c e refused) h =
      omega (arith, h, ap (count x) e, count-middle x before after c)
  Step-places {l} x (complete before after c e granted) h =
      omega (arith, h, ap (count x) e, count-middle x before after c)
  Step-places {l} x (publish before after c e room) h =
      omega
        (arith, h, ap (count x) e, count-middle x before after c, count_results-last x l.results c)
  Step-places {l} x (drop before after c e closed) h =
      omega (arith, h, ap (count x) e, count-middle x before after c)
  Step-places {l} x (accept c rest e) h = omega (arith, h, ap (count_results x) e)
  Step-places {l} x (accept_failure rest e) h = omega (arith, h, ap (count_results x) e)
  Step-places {l} x close h = h

  Reach-places : {l : Listen} (x : ℕ) → Reach authorized l → places x l ≡ arrived x l
  unfolding places count count_results
  Reach-places x start = ground arith
  Reach-places x (later r s) = Step-places x s (Reach-places x r)

  abbrev pub IsGranted : ℕ → Type 0
  IsGranted c = authorized c ≡ true

  abbrev pub IsRefused : ℕ → Type 0
  IsRefused c = authorized c ≡ false

  abbrev pub IsGrantedResult : AcceptResult → Type 0
  IsGrantedResult (conn c) = authorized c ≡ true
  IsGrantedResult accept_error = Unit

  All-middle :
      (before after : List ℕ) (c : ℕ)
      → All IsGranted (before ++ c ∷ after)
      → IsGranted c × All IsGranted (before ++ after)
  All-middle [] after c h = h
  All-middle (b ∷ before) after c h =
      let (here, rest) = All-middle before after c h.1 in (here, (h.0, rest))

  -- Who is where, how full the channel is, and that nothing is dropped before Close.
  pub record Inv (l : Listen) : Type 0 where
    pub granted_ready : All IsGranted l.ready
    pub granted_results : All IsGrantedResult l.results
    pub granted_accepted : All IsGranted l.accepted
    pub granted_dropped : All IsGranted l.dropped
    pub refused_rejected : All IsRefused l.rejected
    pub within : length l.results ≤ accept_result_buffer
    pub dropped_closed : (l.dropped ≡ []) ⊎ (l.closed ≡ true)

  Step-Inv : {l m : Listen} → Step authorized l m → Inv l → Inv m
  Step-Inv (arrive e) v = ground (arith, v)
  Step-Inv (stop e c) v = ground (arith, v)
  Step-Inv (fail e c) v = ground (arith, v)
  Step-Inv {l} (surface e room) v = record {
    granted_ready = v.granted_ready;
    granted_results =
        All-append IsGrantedResult l.results (accept_error ∷ []) v.granted_results (tt, tt);
    granted_accepted = v.granted_accepted;
    granted_dropped = v.granted_dropped;
    refused_rejected = v.refused_rejected;
    within = omega (arith, length-append l.results (accept_error ∷ []), room);
    dropped_closed = v.dropped_closed;
  }
  Step-Inv (give_up e c) v = ground (arith, v)
  Step-Inv (reject before after c e refused) v = record {
    granted_ready = v.granted_ready;
    granted_results = v.granted_results;
    granted_accepted = v.granted_accepted;
    granted_dropped = v.granted_dropped;
    refused_rejected = (refused, v.refused_rejected);
    within = v.within;
    dropped_closed = v.dropped_closed;
  }
  Step-Inv (complete before after c e granted) v = record {
    granted_ready = (granted, v.granted_ready);
    granted_results = v.granted_results;
    granted_accepted = v.granted_accepted;
    granted_dropped = v.granted_dropped;
    refused_rejected = v.refused_rejected;
    within = v.within;
    dropped_closed = v.dropped_closed;
  }
  Step-Inv {l} (publish before after c e room) v =
      let (here, rest) = All-middle before after c (rw (← e) v.granted_ready) in
      record {
        granted_ready = rest;
        granted_results =
            All-append IsGrantedResult l.results (conn c ∷ []) v.granted_results (here, tt);
        granted_accepted = v.granted_accepted;
        granted_dropped = v.granted_dropped;
        refused_rejected = v.refused_rejected;
        within = omega (arith, length-append l.results (conn c ∷ []), room);
        dropped_closed = v.dropped_closed;
      }
  Step-Inv {l} (drop before after c e shut) v =
      let (here, rest) = All-middle before after c (rw (← e) v.granted_ready) in
      record {
        granted_ready = rest;
        granted_results = v.granted_results;
        granted_accepted = v.granted_accepted;
        granted_dropped = (here, v.granted_dropped);
        refused_rejected = v.refused_rejected;
        within = v.within;
        dropped_closed = inr shut;
      }
  Step-Inv {l} (accept c rest e) v =
      let both = subst (λ rs. All IsGrantedResult rs) e v.granted_results in
      let room = subst (λ rs. length rs ≤ accept_result_buffer) e v.within in
      record {
        granted_ready = v.granted_ready;
        granted_results = both.1;
        granted_accepted = (both.0, v.granted_accepted);
        granted_dropped = v.granted_dropped;
        refused_rejected = v.refused_rejected;
        within = omega (arith, room);
        dropped_closed = v.dropped_closed;
      }
  Step-Inv {l} (accept_failure rest e) v =
      let both = subst (λ rs. All IsGrantedResult rs) e v.granted_results in
      let room = subst (λ rs. length rs ≤ accept_result_buffer) e v.within in
      record {
        granted_ready = v.granted_ready;
        granted_results = both.1;
        granted_accepted = v.granted_accepted;
        granted_dropped = v.granted_dropped;
        refused_rejected = v.refused_rejected;
        within = omega (arith, room);
        dropped_closed = v.dropped_closed;
      }
  Step-Inv close v = record {
    granted_ready = v.granted_ready;
    granted_results = v.granted_results;
    granted_accepted = v.granted_accepted;
    granted_dropped = v.granted_dropped;
    refused_rejected = v.refused_rejected;
    within = v.within;
    dropped_closed = inr refl;
  }

  Reach-Inv : {l : Listen} → Reach authorized l → Inv l
  Reach-Inv start = ground arith
  Reach-Inv (later r s) = Step-Inv s (Reach-Inv r)

-- Whatever the order of the steps: every connection that arrived, and no other, is in exactly one place; those
-- that a caller of Accept got are authorized and those that were rejected are not; the channel never holds
-- more than its 16 results; and the listener drops no authorized connection before Close.
pub Reach-safe :
    (authorized : ℕ → Bool) (l : Listen)
    → Reach authorized l
    → ((x : ℕ) → places x l ≡ arrived x l)
      × All (IsGranted authorized) l.accepted
      × All (IsRefused authorized) l.rejected
      × (length l.results ≤ accept_result_buffer)
      × ((l.dropped ≡ []) ⊎ (l.closed ≡ true))
Reach-safe authorized l r =
    let v = Reach-Inv authorized r in
    (
      (λ x. Reach-places authorized x r),
      v.granted_accepted,
      v.refused_rejected,
      v.within,
      v.dropped_closed,
    )
