-- ===== src/Events/Service/Delivery.antt =====
-- Every subscriber gets the published updates up to the first that cannot be sent to it.
use qcontroller.Base.{
  ℕ, suc, not, ◌&&◌, true, false, ◌≡◌, arith, refl, ap, ◌∙◌, Bool, List, [], ◌∷◌, ◌++◌,
  if◌then◌else◌, eqb, Bool-cases, inl, inr,
}
use qcontroller.Events.Service.{
  Recv, update, broken, remove_one, send_all, remove_all, broadcast, publish, subscribe, Other,
  joined, left, others,
}

-- How often a stream is subscribed
abbrev pub count : ℕ → List ℕ → ℕ
count s [] = 0
count s (x ∷ xs) = if eqb x s then suc (count s xs) else count s xs

count-remove_one :
    (s x : ℕ) (xs : List ℕ) → count s (remove_one x xs) ≡ (if eqb x s then 0 else count s xs)
unfolding remove_one
count-remove_one s x [] = ground arith
count-remove_one s x (y ∷ ys) = ground (arith, count-remove_one s x ys)

count-remove_all :
    (s : ℕ) (failed subs : List ℕ)
    → count s (remove_all failed subs) ≡ (if eqb (count s failed) 0 then count s subs else 0)
unfolding remove_all
count-remove_all s [] subs = refl
count-remove_all s (x ∷ failed) subs =
    ground (arith, count-remove_all s failed (remove_one x subs), count-remove_one s x subs)

abbrev touches_one : ℕ → Other → Bool
touches_one s (joined t) = eqb t s
touches_one s (left gone) = not (eqb (count s gone) 0)

-- The stream subscribes or is deleted.
abbrev pub touches : ℕ → List Other → Bool
touches s [] = false
touches s (o ∷ os) = if touches_one s o then true else touches s os

count-subscribe :
    (s t : ℕ) (subs : List ℕ) → eqb t s ≡ false → count s (subscribe t subs) ≡ count s subs
unfolding subscribe
count-subscribe s t subs n = ground (arith, n, count-remove_one s t subs)

count-others :
    (s : ℕ) (os : List Other) (subs : List ℕ)
    → touches s os ≡ false
    → count s (others os subs) ≡ count s subs
unfolding others
count-others s [] subs n = refl
count-others s (joined t ∷ os) subs n = elim (Bool-cases (eqb t s)) [
  | inl e ↦ absurd (ground (arith, n, e))
  | inr e ↦ count-others s os (subscribe t subs) (ground (arith, n, e)) ∙ count-subscribe s t subs e
]
count-others s (left gone ∷ os) subs n = elim (Bool-cases (eqb (count s gone) 0)) [
  | inr e ↦ absurd (ground (arith, n, e))
  | inl e ↦
      count-others s os (remove_all gone subs) (ground (arith, n, e))
      ∙ ground (arith, e, count-remove_all s gone subs)
]

module _ {ℓ} {U : Type ℓ} where
  -- What one stream was sent
  abbrev pub received : ℕ → List (ℕ × U) → List U
  received s [] = []
  received s ((x, u) ∷ log) = if eqb x s then u ∷ received s log else received s log

  -- The updates before the first that cannot be sent to the stream, or before an error of Recv
  abbrev pub before_failure : ℕ → List (Recv U) → List U
  before_failure s [] = []
  before_failure s (broken e ∷ rest) = []
  before_failure s (update u fails before during ∷ rest) =
      if fails s then [] else u ∷ before_failure s rest

  -- No other call makes the stream subscribe or deletes it while the updates are sent.
  abbrev pub undisturbed : ℕ → List (Recv U) → Bool
  undisturbed s [] = true
  undisturbed s (broken e ∷ rest) = undisturbed s rest
  undisturbed s (update u fails before during ∷ rest) =
      (not (touches s before) && not (touches s during)) && undisturbed s rest

  received-append :
      (s : ℕ) (xs ys : List (ℕ × U)) → received s (xs ++ ys) ≡ received s xs ++ received s ys
  received-append s [] ys = refl
  received-append s ((x, u) ∷ xs) ys = ground (arith, received-append s xs ys)

  count-send_all :
      (s : ℕ) (u : U) (fails : ℕ → Bool) (subs : List ℕ)
      → count s (send_all u fails subs).1 ≡ (if fails s then count s subs else 0)
  unfolding send_all
  count-send_all s u fails [] = ground arith
  count-send_all s u fails (x ∷ subs) = ground (arith, count-send_all s u fails subs, ap fails)

  -- A stream that is not subscribed is sent nothing, one that is subscribed once gets the update.
  received-send_all :
      (s : ℕ) (u : U) (fails : ℕ → Bool) (subs : List ℕ)
      → ((count s subs ≡ 0) → received s (send_all u fails subs).0 ≡ [])
        × ((count s subs ≡ 1)
            → received s (send_all u fails subs).0 ≡ (if fails s then [] else u ∷ []))
  unfolding send_all
  received-send_all s u fails [] = ((λ _. refl), λ one. absurd (omega (arith, one)))
  received-send_all s u fails (x ∷ subs) =
      let (none_sent, one_sent) = received-send_all s u fails subs in
      (
        (λ zero_times. ground (arith, zero_times, none_sent, ap fails)),
        λ one. ground (arith, one, none_sent, one_sent, ap fails),
      )

  received-publish :
      (s : ℕ) (msgs : List (Recv U)) (subs : List ℕ)
      → undisturbed s msgs ≡ true
      → ((count s subs ≡ 0) → received s (publish msgs subs).0 ≡ [])
        × ((count s subs ≡ 1) → received s (publish msgs subs).0 ≡ before_failure s msgs)
  unfolding publish broadcast
  received-publish s [] subs q = ((λ _. refl), λ _. refl)
  received-publish s (broken e ∷ rest) subs q = ((λ _. refl), λ _. refl)
  received-publish s (update u fails before during ∷ rest) subs q =
      let quiet_before : touches s before ≡ false = ground (arith, q) in
      let quiet : touches s during ≡ false = ground (arith, q) in
      let quiet_later : undisturbed s rest ≡ true = ground (arith, q) in
      let subs' = others before subs in
      let (sent, failed) = send_all u fails subs' in
      let kept = remove_all failed (others during subs') in
      let same = count-others s before subs quiet_before in
      let same' = count-others s during subs' quiet in
      let (none_later, later) = received-publish s rest kept quiet_later in
      let (none_now, now) = received-send_all s u fails subs' in
      let gone = count-remove_all s failed (others during subs') in
      let those = count-send_all s u fails subs' in
      let parts = received-append s sent (publish rest kept).0 in
      (
        λ z.
            let none_left : count s kept ≡ 0 = ground (arith, gone, same', same, z) in
            parts ∙ rw (none_now (same ∙ z), none_later none_left) refl,
        λ one. elim (Bool-cases (fails s)) [
          | inl fail ↦
              let none_left : count s kept ≡ 0 =
                ground (arith, gone, those, same, same', one, fail) in
              parts ∙ rw (now (same ∙ one), none_later none_left, fail) refl
          | inr good ↦
              let still : count s kept ≡ 1 = ground (arith, gone, those, same, same', one, good) in
              parts ∙ rw (now (same ∙ one), later still, good) refl
        ],
      )

  -- A stream that is subscribed once when a Publish starts, and that no other call makes subscribe
  -- or deletes while it runs, is sent by it exactly the published updates, in order, up to the first
  -- that cannot be sent to it or to the end of the stream of Publish, whatever other streams come
  -- and go meanwhile.
  pub received-publish_subscribed :
      (s : ℕ) (msgs : List (Recv U)) (subs : List ℕ)
      → undisturbed s msgs ≡ true
      → received s (publish msgs (subscribe s subs)).0 ≡ before_failure s msgs
  unfolding subscribe
  received-publish_subscribed s msgs subs q =
      (received-publish s msgs (subscribe s subs) q).1 (ground (arith, count-remove_one s s subs))
