-- ===== src/Broadcast/Order.antt =====
-- The three channels of the hub are not ordered among one another.
use qcontroller.Base.{ℕ, ◌<◌, ◌≡◌, true, false, some, List, [], ◌∷◌, arith, refl}
use qcontroller.Broadcast.{
  Hub, send, subscribe, unsubscribe, take_sub, take_unsub, take_event, serving, panicked, update,
  run, has, erase,
}

has-erase : (s : ℕ) (xs : List ℕ) → has s (erase s xs) ≡ false
has-erase s [] = refl
has-erase s (x ∷ xs) = ground (arith, has-erase s xs)

-- A client that subscribes and unsubscribes at once can bring the process down: in any hub that
-- serves, with empty queues of a capacity that is not 0, a schedule in which Run takes the
-- unsubscription first closes the channel, then subscribes it, and panics on the next event.
pub reorder_panics :
    {E : Type 0} (h : Hub E) (s : ℕ) (e : E)
    → h.phase ≡ serving
    → 0 < h.capacity
    → h.event_ch ≡ []
    → h.sub_ch ≡ []
    → h.unsub_ch ≡ []
    → (h.chans s).closed ≡ false
    → (h' : Hub E) × (run
          (subscribe s ∷ unsubscribe s ∷ take_unsub ∷ take_sub ∷ send e ∷ take_event ∷ [])
          h
        ≡ some h')
      × (h'.phase ≡ panicked)
unfolding run
reorder_panics h s e p c q₁ q₂ q₃ o = (
  record h {
    event_ch = [];
    sub_ch = [];
    unsub_ch = [];
    subs = s ∷ erase s h.subs;
    chans = update h.chans s (record (h.chans s) { closed = true });
    phase = panicked;
  },
  ground (arith, p, c, q₁, q₂, q₃, o, has-erase s h.subs),
  refl,
)
