-- ===== src/Tests/Updates.antt =====
-- The theorem on the event service with two streams.
use qcontroller.Base.{refl, ◌≡◌, String, false, List, [], ◌∷◌, eqb}
use qcontroller.Events.Service.{Recv, update, joined, left, publish, subscribe}
use qcontroller.Events.Service.Delivery.{received, received-publish_subscribed}

-- The stream 3 gets what is published until its connection fails; the stream 5 comes and goes.
abbrev published : List (Recv String)
published =
    update "started" (λ s. false) [] (joined 5 ∷ [])
    ∷ update "image" (λ s. eqb s 4) (left (5 ∷ []) ∷ []) []
    ∷ update "stopped" (λ s. eqb s 3) [] []
    ∷ update "removed" (λ s. false) [] []
    ∷ []

received-publish_subscribed_example :
    received 3 (publish published (subscribe 3 (4 ∷ 3 ∷ []))).0 ≡ "started" ∷ "image" ∷ []
received-publish_subscribed_example = received-publish_subscribed 3 published (4 ∷ 3 ∷ []) refl
