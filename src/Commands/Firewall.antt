-- ===== src/Commands/Firewall.antt =====
-- The reconciliation of the forwarding rules in src/qcontrollerd/cmd/qemu_linux.go: a goroutine that
-- applies them to the default interface whenever something may have removed them.
pub mod Rules
use qcontroller.Base.{
  ℕ, zero, suc, String, Bool, true, false, List, [], ◌∷◌, if◌then◌else◌, is_empty, ltb,
}

-- linkCh: the updates that wait in it, or that its sender has closed it, and a receive is always ready.
pub data Links : Type 0 where
  pending : ℕ → Links
  closed : Links

-- Where the goroutine is: in the select of the loop, in the loop `drain`, or it has returned.
pub data Phase : Type 0 where
  selecting draining returned : Phase

-- A case that the select of the loop takes, a turn of `drain`, or what netlink does meanwhile: it
-- sends an update or closes its channel.
pub data Event : Type 0 where
  done subscription_closed link tick turn arrived closes : Event
  interface_changed : String → Event

-- The variables of the goroutine, and the interfaces that Connect was called for, the last first.
pub record Reconciler : Type 0 where
  pub iface : String
  pub subscribed : Bool
  pub links : Links
  pub connected : List String
  pub phase : Phase

abbrev pub at_start : Reconciler
at_start = record {
  iface = "";
  subscribed = true;
  links = pending 0;
  connected = [];
  phase = selecting;
}

-- The places of linkCh; netlink waits when they are taken.
abbrev capacity : ℕ
capacity = 16

abbrev pub one_more : Links → Links
one_more closed = closed
one_more (pending n) = if ltb n capacity then pending (suc n) else pending n

-- The end of a round: Connect, where an interface is known; its error is only logged.
abbrev pub apply : Reconciler → Reconciler
apply r =
    if is_empty r.iface
    then record r { phase = selecting }
    else record r { phase = selecting; connected = r.iface ∷ r.connected }

-- `case <-linkCh` of the select; it does not take an empty channel.
abbrev pub take_link : Links → Reconciler → Reconciler
take_link closed r = record r { phase = draining }
take_link (pending zero) r = r
take_link (pending (suc n)) r = record r { links = pending n; phase = draining }

-- A turn of the loop `drain`: one receive, or its default.
unfoldable pub drain : Links → Reconciler → Reconciler
drain closed r = r
drain (pending zero) r = apply r
drain (pending (suc n)) r = record r { links = pending n }

-- One event; none that the goroutine does not wait for changes anything, nor does a subscription
-- whose channel is nil.
unfoldable pub round : Event → Phase → Reconciler → Reconciler
unfolding drain
round arrived ph r = record r { links = one_more r.links }
round closes ph r = record r { links = closed }
round done selecting r = record r { phase = returned }
round (interface_changed i) selecting r = if r.subscribed then apply (record r { iface = i }) else r
round subscription_closed selecting r = record r { subscribed = false }
round link selecting r = take_link r.links r
round tick selecting r = apply r
round turn draining r = drain r.links r
round _ _ r = r

unfoldable pub run : List Event → Reconciler → Reconciler
unfolding round
run [] r = r
run (e ∷ es) r = run es (round e r.phase r)
