-- ===== src/Events/Service.antt =====
-- src/pkg/protos/event.go: the fan-out of published updates to the subscribed streams. A stream is a
-- number; the map of subscribers is a list in the order in which Go iterates over it.
pub mod Delivery
use qcontroller.Base.{
  ℕ, zero, suc, ◌+◌, Bool, true, false, not, ◌&&◌, List, [], ◌∷◌, ◌++◌, if◌then◌else◌, eqb, Option,
  none, some, String,
}

-- What other calls do to the map of subscribers under its lock: the first half of Subscribe, or the
-- deletions at the end of Subscribe and of Broadcast.
pub data Other : Type 0 where
  joined : ℕ → Other
  left : List ℕ → Other

-- What Recv gives of a Publish stream until io.EOF; `fails` says to which streams Send fails, `before`
-- what other calls do until Broadcast takes the lock, and `during` what they do while it sends.
pub data Recv {ℓ} (U : Type ℓ) : Type ℓ where
  update : U → (fails : ℕ → Bool) → (before during : List Other) → Recv U
  broken : String → Recv U

unfoldable pub remove_one : ℕ → List ℕ → List ℕ
remove_one s [] = []
remove_one s (x ∷ xs) = let rest = remove_one s xs in if eqb x s then rest else x ∷ rest

-- The two halves of Subscribe: at its start and when the client has disconnected.
unfoldable pub subscribe : ℕ → List ℕ → List ℕ
unfolding remove_one
subscribe s subs = s ∷ remove_one s subs

unfoldable pub unsubscribe : ℕ → List ℕ → List ℕ
unfolding remove_one
unsubscribe s subs = remove_one s subs

-- The loop of Broadcast over those to whom Send failed.
unfoldable pub remove_all : List ℕ → List ℕ → List ℕ
unfolding remove_one
remove_all [] subs = subs
remove_all (s ∷ failed) subs = remove_all failed (remove_one s subs)

unfoldable pub others : List Other → List ℕ → List ℕ
unfolding subscribe remove_all
others [] subs = subs
others (joined s ∷ os) subs = others os (subscribe s subs)
others (left gone ∷ os) subs = others os (remove_all gone subs)

module _ {ℓ} {U : Type ℓ} where
  -- The loop of Broadcast over the subscribers: what they are sent, and those to whom Send failed.
  unfoldable pub send_all : U → (ℕ → Bool) → List ℕ → List (ℕ × U) × List ℕ
  send_all u fails [] = ([], [])
  send_all u fails (s ∷ subs) =
      let (sent, failed) = send_all u fails subs in
      if fails s then (sent, s ∷ failed) else ((s, u) ∷ sent, failed)

  -- Broadcast: what was sent, and the subscribers that are left. It sends to those of the moment at
  -- which it has the lock, without the lock, and takes it again to delete those to whom Send failed.
  unfoldable pub broadcast : U → (ℕ → Bool) → List Other → List ℕ → List (ℕ × U) × List ℕ
  unfolding send_all remove_all others
  broadcast u fails during subs =
      let (sent, failed) = send_all u fails subs in (sent, remove_all failed (others during subs))

  -- Publish, without its answer at the end: what it has sent, and the error of Recv.
  unfoldable pub publish : List (Recv U) → List ℕ → List (ℕ × U) × List ℕ × Option String
  unfolding broadcast others
  publish [] subs = ([], subs, none)
  publish (broken e ∷ rest) subs = ([], subs, some e)
  publish (update u fails before during ∷ rest) subs =
      let (sent, left_over) = broadcast u fails during (others before subs) in
      let (later, last, e) = publish rest left_over in (sent ++ later, last, e)
