-- ===== src/Broadcast/Safety.antt =====
-- The discipline under which Run cannot panic: a subscription is subscribed once, and unsubscribed
-- at most once, after Run has taken its subscription.
use qcontroller.Base.{
  ℕ, ◌≡◌, ◌≢◌, ◌⊎◌, inl, inr, true, false, some, List, [], ◌∷◌, ◌++◌, arith, length, refl, eqb,
  if◌then◌else◌, Bool-cases, List-cases, ltb, ◌∙◌, subst,
}
use qcontroller.Broadcast.{
  Hub, Chan, Action, send, subscribe, unsubscribe, receive, take_sub, take_unsub, take_event,
  cancel, serving, returned, panicked, step, has, erase, update, new_hub, offer_all, close_all,
  offer, buffer_size,
}

abbrev pub Distinct : List ℕ → Type 0
Distinct [] = Unit
Distinct (x ∷ xs) = (has x xs ≡ false) × Distinct xs

-- What the clients may do: no other action is restricted.
abbrev pub Allowed : {E : Type 0} → Hub E → Action E → Type 0
Allowed h (subscribe s) =
    (has s h.subs ≡ false)
    × (has s h.sub_ch ≡ false)
    × (has s h.unsub_ch ≡ false)
    × ((h.chans s).closed ≡ false)
Allowed h (unsubscribe s) = (has s h.subs ≡ true) × (has s h.unsub_ch ≡ false)
Allowed h _ = Unit {0}

has-append : (s x : ℕ) (xs : List ℕ) → has s (xs ++ x ∷ []) ≡ (if has s xs then true else eqb x s)
has-append s x [] = ground arith
has-append s x (y ∷ xs) = ground (arith, has-append s x xs)

has-erase_ne : (s x : ℕ) (xs : List ℕ) → has s (erase x xs) ≡ (if eqb x s then false else has s xs)
has-erase_ne s x [] = ground arith
has-erase_ne s x (y ∷ xs) = ground (arith, has-erase_ne s x xs)

Distinct-erase : (x : ℕ) (xs : List ℕ) → Distinct xs → Distinct (erase x xs)
Distinct-erase x [] d = tt
Distinct-erase x (y ∷ xs) d = elim (Bool-cases (eqb y x)) [
  | inl e ↦ rw e (Distinct-erase x xs d.1)
  | inr n ↦ rw n (ground (arith, has-erase_ne y x xs), Distinct-erase x xs d.1)
]

Distinct-append : (x : ℕ) (xs : List ℕ) → has x xs ≡ false → Distinct xs → Distinct (xs ++ x ∷ [])
Distinct-append x [] n d = (refl, tt)
Distinct-append x (y ∷ xs) n d =
    (ground (arith, has-append y x xs), Distinct-append x xs (ground arith) d.1)

module _ {E : Type 0} where
  -- While Run serves, every channel that it may still write to or close is open.
  pub record IsOpen (h : Hub E) : Type 0 where
    pub subs_open : (s : ℕ) → has s h.subs ≡ true → (h.chans s).closed ≡ false
    pub subs_distinct : Distinct h.subs
    pub unsub_known : (s : ℕ) → has s h.unsub_ch ≡ true → has s h.subs ≡ true
    pub unsub_distinct : Distinct h.unsub_ch
    pub new_open : (s : ℕ) → has s h.sub_ch ≡ true → (h.chans s).closed ≡ false
    pub new_unknown : (s : ℕ) → has s h.sub_ch ≡ true → has s h.subs ≡ false
    pub new_distinct : Distinct h.sub_ch

  closed-update :
      (chans : ℕ → Chan E) (x s : ℕ) (c : Chan E)
      → c.closed ≡ (chans x).closed
      → (update chans x c s).closed ≡ (chans s).closed
  closed-update chans x s c e = ground arith

  -- The channels after one offer to the open channel `x`.
  offered : E → ℕ → (ℕ → Chan E) → ℕ → Chan E
  offered e x chans =
      let b = (chans x).buffer in
      if ltb (length b) buffer_size
      then update chans x (record (chans x) { buffer = b ++ e ∷ [] })
      else chans

  closed-offered :
      (e : E) (x : ℕ) (chans : ℕ → Chan E) (s : ℕ) → (offered e x chans s).closed ≡ (chans s).closed
  unfolding offered
  closed-offered e x chans s = elim (Bool-cases (ltb (length (chans x).buffer) buffer_size)) [
    | inl r ↦ rw r (closed-update chans x s _ refl)
    | inr r ↦ rw r
  ]

  offer-offered :
      (e : E) (x : ℕ) (chans : ℕ → Chan E)
      → (chans x).closed ≡ false
      → offer e x chans ≡ some (offered e x chans)
  unfolding offered
  offer-offered e x chans o = ground (arith, o)

  -- Offering an event to open channels succeeds and closes none.
  offer_all-open :
      (e : E) (subs : List ℕ) (chans : ℕ → Chan E)
      → ((s : ℕ) → has s subs ≡ true → (chans s).closed ≡ false)
      → (chans' : ℕ → Chan E) × (offer_all e subs chans ≡ some chans')
        × ((s : ℕ) → (chans' s).closed ≡ (chans s).closed)
  unfolding offer_all
  offer_all-open e [] chans opn = (chans, refl, λ s. refl)
  offer_all-open e (x ∷ subs) chans opn =
      let chans₁ = offered e x chans in
      let (chans₂, p, q) =
        offer_all-open e subs chans₁
          (λ s m. closed-offered e x chans s ∙ opn s (ground (arith, m))) in
      (
        chans₂,
        ground (arith, offer-offered e x chans (opn x (ground arith)), p),
        λ s. q s ∙ closed-offered e x chans s,
      )

  -- Closing distinct open channels succeeds.
  close_all-open :
      (subs : List ℕ) (chans : ℕ → Chan E)
      → ((s : ℕ) → has s subs ≡ true → (chans s).closed ≡ false)
      → Distinct subs
      → (chans' : ℕ → Chan E) × (close_all subs chans ≡ some chans')
  unfolding close_all
  close_all-open [] chans opn d = (chans, refl)
  close_all-open (x ∷ subs) chans opn d =
      let chans₁ = update chans x (record (chans x) { closed = true }) in
      let (chans₂, p) = close_all-open subs chans₁ (λ s m. ground (arith, m, d.0, opn s)) d.1 in
      (chans₂, ground (arith, opn x (ground arith), p))

  -- A hub in which Run has not panicked and, while it serves, cannot at its next choice.
  pub record IsSafe (h : Hub E) : Type 0 where
    pub not_panicked : h.phase ≢ panicked
    pub serving_open : h.phase ≡ serving → IsOpen h

  module _ (h : Hub E) (p : h.phase ≡ serving) (o : IsOpen h) where
    after_send : (e : E) → IsOpen (record h { event_ch = h.event_ch ++ e ∷ [] })
    after_send e = record {
      subs_open = o.subs_open;
      subs_distinct = o.subs_distinct;
      unsub_known = o.unsub_known;
      unsub_distinct = o.unsub_distinct;
      new_open = o.new_open;
      new_unknown = o.new_unknown;
      new_distinct = o.new_distinct;
    }

    after_subscribe :
        (s : ℕ) → Allowed h (subscribe s) → IsOpen (record h { sub_ch = h.sub_ch ++ s ∷ [] })
    after_subscribe s a = record {
      subs_open = o.subs_open;
      subs_distinct = o.subs_distinct;
      unsub_known = o.unsub_known;
      unsub_distinct = o.unsub_distinct;
      new_open = λ t m. ground (arith, m, has-append t s h.sub_ch, o.new_open t, a);
      new_unknown = λ t m. ground (arith, m, has-append t s h.sub_ch, o.new_unknown t, a);
      new_distinct = Distinct-append s h.sub_ch a.1 o.new_distinct;
    }

    after_unsubscribe :
        (s : ℕ) → Allowed h (unsubscribe s) → IsOpen (record h { unsub_ch = h.unsub_ch ++ s ∷ [] })
    after_unsubscribe s a = record {
      subs_open = o.subs_open;
      subs_distinct = o.subs_distinct;
      unsub_known = λ t m. ground (arith, m, has-append t s h.unsub_ch, o.unsub_known t, a);
      unsub_distinct = Distinct-append s h.unsub_ch a.1 o.unsub_distinct;
      new_open = o.new_open;
      new_unknown = o.new_unknown;
      new_distinct = o.new_distinct;
    }

    after_take_sub :
        (s : ℕ) (rest : List ℕ)
        → h.sub_ch ≡ s ∷ rest
        → IsOpen (record h { sub_ch = rest; subs = s ∷ h.subs })
    after_take_sub s rest e = record {
      subs_open = λ t m. ground (arith, m, e, o.subs_open t, o.new_open t);
      subs_distinct = (ground (arith, e, o.new_unknown s), o.subs_distinct);
      unsub_known = λ t m. ground (arith, m, o.unsub_known t);
      unsub_distinct = o.unsub_distinct;
      new_open = λ t m. ground (arith, m, e, o.new_open t);
      new_unknown = λ t m. ground (arith, m, e, o.new_unknown t, (rw e at o.new_distinct).0);
      new_distinct = (rw e at o.new_distinct).1;
    }

    after_take_unsub :
        (s : ℕ) (rest : List ℕ)
        → h.unsub_ch ≡ s ∷ rest
        → IsOpen (record h {
          unsub_ch = rest;
          subs = erase s h.subs;
          chans = update h.chans s (record (h.chans s) { closed = true });
        })
    after_take_unsub s rest e = record {
      subs_open = λ t m. ground (arith, m, o.subs_open t, has-erase_ne t s h.subs);
      subs_distinct = Distinct-erase s h.subs o.subs_distinct;
      unsub_known = λ t m.
          ground
            (arith, m, e, o.unsub_known t, has-erase_ne t s h.subs, (rw e at o.unsub_distinct).0);
      unsub_distinct = (rw e at o.unsub_distinct).1;
      new_open = λ t m. ground (arith, m, e, o.new_open t, o.new_unknown t, o.unsub_known s);
      new_unknown = λ t m. ground (arith, m, o.new_unknown t, has-erase_ne t s h.subs);
      new_distinct = o.new_distinct;
    }

    after_chans :
        (rest : List E) (chans : ℕ → Chan E)
        → ((s : ℕ) → (chans s).closed ≡ (h.chans s).closed)
        → IsOpen (record h { event_ch = rest; chans = chans })
    after_chans rest chans same = record {
      subs_open = λ s m. same s ∙ o.subs_open s m;
      subs_distinct = o.subs_distinct;
      unsub_known = o.unsub_known;
      unsub_distinct = o.unsub_distinct;
      new_open = λ s m. same s ∙ o.new_open s m;
      new_unknown = o.new_unknown;
      new_distinct = o.new_distinct;
    }

  phase-cases : (h : Hub E) → (h.phase ≡ serving) ⊎ (h.phase ≡ returned) ⊎ (h.phase ≡ panicked)
  phase-cases h = ground arith

  step_returned :
      (a : Action E) (h h' : Hub E) → h.phase ≡ returned → step a h ≡ some h' → h'.phase ≡ returned
  unfolding step
  step_returned (send e) h h' p q = ground arith
  step_returned _ h h' p q = ground arith

  IsSafe-of : (g h' : Hub E) → g.phase ≡ serving → IsOpen g → some g ≡ some h' → IsSafe h'
  IsSafe-of g h' p o e =
      let e' : g ≡ h' = cc e in
      subst IsSafe e' (record { not_panicked = λ q. ground arith; serving_open = λ q. o })

  module _ (h h' : Hub E) (p : h.phase ≡ serving) (o : IsOpen h) where
    serving_step : (a : Action E) → Allowed h a → step a h ≡ some h' → IsSafe h'
    unfolding step
    serving_step (send e) l q = elim (Bool-cases (ltb (length h.event_ch) h.capacity)) [
      | inl r ↦
          IsSafe-of (record h { event_ch = h.event_ch ++ e ∷ [] }) h' p (after_send h p o e)
            (ground (arith, r))
      | inr r ↦ IsSafe-of h h' p o (ground (arith, r))
    ]
    serving_step (subscribe s) l q =
        IsSafe-of (record h { sub_ch = h.sub_ch ++ s ∷ [] }) h' p (after_subscribe h p o s l)
          (ground arith)
    serving_step (unsubscribe s) l q =
        IsSafe-of (record h { unsub_ch = h.unsub_ch ++ s ∷ [] }) h' p (after_unsubscribe h p o s l)
          (ground arith)
    serving_step (receive s) l q = elim (List-cases (h.chans s).buffer) [
      | inl r ↦ absurd (ground (arith, r))
      | inr (e, rest, r) ↦
          let chans = update h.chans s (record (h.chans s) { buffer = rest }) in
          IsSafe-of (record h { chans = chans }) h' p
            (after_chans h p o h.event_ch chans (λ t. closed-update h.chans s t _ refl))
            (ground (arith, r))
    ]
    serving_step take_sub l q = elim (List-cases h.sub_ch) [
      | inl r ↦ absurd (ground (arith, r))
      | inr (s, rest, r) ↦
          IsSafe-of (record h { sub_ch = rest; subs = s ∷ h.subs }) h' p
            (after_take_sub h p o s rest r) (ground (arith, r, o.new_unknown s))
    ]
    serving_step take_unsub l q = elim (List-cases h.unsub_ch) [
      | inl r ↦ absurd (ground (arith, r))
      | inr (s, rest, r) ↦
          let chans = update h.chans s (record (h.chans s) { closed = true }) in
          IsSafe-of (record h { unsub_ch = rest; subs = erase s h.subs; chans = chans }) h' p
            (after_take_unsub h p o s rest r) (ground (arith, r, o.unsub_known s, o.subs_open s))
    ]
    serving_step take_event l q = elim (List-cases h.event_ch) [
      | inl r ↦ absurd (ground (arith, r))
      | inr (e, rest, r) ↦
          let (chans, offered, same) = offer_all-open e h.subs h.chans o.subs_open in
          IsSafe-of (record h { event_ch = rest; chans = chans }) h' p
            (after_chans h p o rest chans same) (ground (arith, r, offered))
    ]
    serving_step cancel l q =
        let (chans, closed) = close_all-open h.subs h.chans o.subs_open o.subs_distinct in
        let e : record h { chans = chans; phase = returned } ≡ h' = ground (arith, closed) in
        subst IsSafe e (record { not_panicked = λ r. cc r; serving_open = λ r. absurd (cc r) })

  -- A step that respects the discipline keeps the hub safe: Run does not panic at it, and cannot
  -- at its next choice.
  pub step-IsSafe :
      (a : Action E) (h h' : Hub E) → IsSafe h → Allowed h a → step a h ≡ some h' → IsSafe h'
  step-IsSafe a h h' safe l q = elim (phase-cases h) [
    | inl p ↦ serving_step h h' p (safe.serving_open p) a l q
    | inr (inl p) ↦ record {
      not_panicked = λ r. ground (arith, step_returned a h h' p q);
      serving_open = λ r. absurd (ground (arith, step_returned a h h' p q));
    }
    | inr (inr p) ↦ absurd (safe.not_panicked p)
  ]

  -- The schedules that respect the discipline at every step.
  pub data Reaches : Hub E → Hub E → Type 0 where
    here : {h : Hub E} → Reaches h h
    next :
        {h g k : Hub E} (a : Action E) → Allowed h a → step a h ≡ some g → Reaches g k → Reaches h k

  Reaches-IsSafe : {h k : Hub E} → Reaches h k → IsSafe h → IsSafe k
  Reaches-IsSafe here s = s
  Reaches-IsSafe (next {h} {g} {k} a l q r) s = Reaches-IsSafe r (step-IsSafe a h g s l q)

  new_hub-IsSafe : (capacity : ℕ) → IsSafe (new_hub {E = E} capacity)
  new_hub-IsSafe capacity = record {
    not_panicked = λ r. cc r;
    serving_open = λ r. record {
      subs_open = λ s m. refl;
      subs_distinct = tt;
      unsub_known = λ s m. cc m;
      unsub_distinct = tt;
      new_open = λ s m. refl;
      new_unknown = λ s m. refl;
      new_distinct = tt;
    };
  }

  -- From a new hub, no schedule makes Run panic in which a client subscribes only an open channel
  -- that the hub has not got in any of its queues or its map, and unsubscribes only a channel that
  -- Run has taken up and that is not in the queue of unsubscriptions already: each channel is
  -- subscribed once and then unsubscribed at most once.
  pub no_panic : (capacity : ℕ) (h : Hub E) → Reaches (new_hub capacity) h → h.phase ≢ panicked
  no_panic capacity h r = (Reaches-IsSafe r (new_hub-IsSafe capacity)).not_panicked
