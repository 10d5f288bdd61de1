-- ===== src/LocalManager/Start.antt =====
-- Start of local_manager.go: it cannot panic, sends one request, and a failure is undone.
use qcontroller.Base.Tests.{append-nonempty}
use qcontroller.Base.{
  String, ◌≡◌, ◌≢◌, inl, inr, arith, Option, none, some, Option-cases, true, false, [], ◌∷◌, ◌++◌,
  ok, is_empty, String-cases, subst, ◌∙◌,
}
use qcontroller.Vm.{Instance, running, starting, stopped, is_stopped, CloudInit}
use qcontroller.Db.{check, text_of}
use qcontroller.Db.Invariant.{check-address}
use qcontroller.Db.View.{answer}
use qcontroller.Controller.{StateOps, stored, IsState}
use qcontroller.LocalManager.{
  World, Qemu, start_call, StartRequest, done, failed, panic, VmErr, start, network_yaml,
  start_cloud_init, start_request, set_instance_state, lacks_network,
}
use qcontroller.LocalManager.Store.{set-other, set-self_writes, WritesState}

-- An instance that passes the checks of the database has what Start dereferences.
start_request-some :
    (i : Instance) (ci : Option CloudInit)
    → check i ≡ none
    → (r : StartRequest) × (start_request i ci ≡ some r)
unfolding check
start_request-some i ci c = elim (Option-cases i.hardware) [
  | inl e ↦ absurd (ground (arith, e))
  | inr (h, e) ↦ elim (Option-cases i.hwaddr) [
    | inl f ↦ absurd (cc (subst (λ a. is_empty (text_of a) ≡ false) f (check-address i c)))
    | inr (mac, f) ↦ (
      record { id = i.id; image_id = i.image_id; hardware = h; mac = mac; cloud_init = ci },
      ground (arith, e, f),
    )
  ]
]

network_yaml-nonempty : (mac : String) → is_empty (network_yaml mac) ≡ false
network_yaml-nonempty mac = append-nonempty "v" _ _

start_cloud_init_network :
    (i : Instance) (ci : Option CloudInit) → start_cloud_init i ≡ ok ci → lacks_network ci ≡ false
unfolding start_cloud_init
start_cloud_init_network i ci h = elim (Option-cases i.hwaddr) [
  | inl e ↦ ground (arith, e)
  | inr (mac, e) ↦ elim (Option-cases i.cloudinit) [
    | inl f ↦ ground (arith, e, f, network_yaml-nonempty mac)
    | inr (c, f) ↦ ground (arith, e, f, network_yaml-nonempty mac)
  ]
]

module _ (S : StateOps) (I : IsState S) where
  -- Over a store that meets the interface, Start never dereferences nil.
  pub start_safe : (q : Qemu) (name : String) (w : World S) → (start S q name w).1 ≢ panic
  unfolding start
  start_safe q name w p = elim (Option-cases (stored S w.store name)) [
    | inl e ↦ ground (arith, e)
    | inr (i, e) ↦ elim (Option-cases (answer (start_cloud_init i))) [
      | inl f ↦ ground (arith, e, f)
      | inr (ci, f) ↦
          let (r, g) = start_request-some i ci (I.passes w.store name i e) in
          ground (arith, e, f, g)
    ]
  ]

  -- Over a store that meets the interface, Start of one instance changes no other.
  pub start_other :
      (q : Qemu) (name j : String) (w : World S)
      → name ≢ j
      → stored S (start S q name w).0.store j ≡ stored S w.store j
  unfolding start
  start_other q name j w n = elim (Option-cases (stored S w.store name)) [
    | inl e ↦ ground (arith, e)
    | inr (i, e) ↦
        let s = set_instance_state S i.id starting w.store in
        elim (Option-cases (answer (start_cloud_init i))) [
          | inl f ↦ ground (arith, e, f)
          | inr (ci, f) ↦ elim (Option-cases (start_request i ci)) [
            | inl g ↦ ground (
              arith,
              e,
              f,
              g,
              I.same_id w.store name i e,
              set-other S I w.store i.id j starting,
              set-other S I s i.id j stopped,
            )
            | inr (r, g) ↦ ground (
              arith,
              e,
              f,
              g,
              I.same_id w.store name i e,
              set-other S I w.store i.id j starting,
              set-other S I s i.id j stopped,
              set-other S I s i.id j running,
            )
          ]
        ]
  ]

  -- What a successful Start has sent.
  pub record Sent (q : Qemu) (name : String) (w w' : World S) (i : Instance) (r : StartRequest)
      : Type 0 where
    pub was_stored : stored S w.store name ≡ some i
    pub was_stopped : i.state ≡ stopped
    pub one_call : w'.calls ≡ w.calls ++ start_call r ∷ []
    pub accepted : q.start r ≡ none
    pub id : r.id ≡ name
    pub image : r.image_id ≡ i.image_id
    pub hardware : i.hardware ≡ some r.hardware
    pub mac : i.hwaddr ≡ some r.mac
    pub network : lacks_network r.cloud_init ≡ false

  -- Over a store that meets the interface, when Start returns nil the instance was stored and
  -- stopped, and exactly one request was sent, which QEMU accepted: it carries the instance's id,
  -- image, hardware and address, and a network configuration that is not empty.
  pub start_sends :
      (q : Qemu) (name : String) (w : World S)
      → (start S q name w).1 ≡ done
      → (i : Instance) × (r : StartRequest) × Sent q name w (start S q name w).0 i r
  unfolding start
  start_sends q name w d = elim (Option-cases (stored S w.store name)) [
    | inl e ↦ absurd (ground (arith, e))
    | inr (i, e) ↦ elim (Option-cases (answer (start_cloud_init i))) [
      | inl f ↦ absurd (ground (arith, e, f))
      | inr (ci, f) ↦ elim (Option-cases (start_request i ci)) [
        | inl g ↦ absurd (ground (arith, e, f, g))
        | inr (r, g) ↦ (
          i,
          r,
          ground (arith, e, f, g, I.same_id w.store name i e, start_cloud_init_network i ci),
        )
      ]
    ]
  ]

  module _ (W : WritesState S) where
    -- STARTING and then STOPPED, on a stopped instance
    start_set :
        (i : Instance) (j : String) (s : S.Store)
        → stored S s i.id ≡ some i
        → is_stopped i.state ≡ true
        → stored S (set_instance_state S i.id stopped (set_instance_state S i.id starting s)) j
          ≡ stored S s j
    start_set i j s e stop = elim (String-cases i.id j) [
      | inl same ↦
          let s₁ = set_instance_state S i.id starting s in
          let first = set-self_writes S I W s i.id i starting e in
          let second =
            set-self_writes S I W s₁ i.id (record i { state = starting }) stopped first in
          subst (λ k. stored S (set_instance_state S i.id stopped s₁) k ≡ stored S s k) same
            (ground (arith, second, e, stop))
      | inr n ↦
          set-other S I (set_instance_state S i.id starting s) i.id j stopped n
          ∙ set-other S I s i.id j starting n
    ]

    -- Over a store that meets the interface and accepts changes of state, a Start that returns an
    -- error leaves every stored instance as it was.
    pub start_undone :
        (q : Qemu) (name j : String) (w : World S) (x : VmErr)
        → (start S q name w).1 ≡ failed x
        → stored S (start S q name w).0.store j ≡ stored S w.store j
    unfolding start
    start_undone q name j w x h = elim (Option-cases (stored S w.store name)) [
      | inl e ↦ ground (arith, e)
      | inr (i, e) ↦ elim (Option-cases (answer (start_cloud_init i))) [
        | inl f ↦ ground (arith, e, f)
        | inr (ci, f) ↦ elim (Option-cases (start_request i ci)) [
          | inl g ↦ ground (arith, e, f, g, start_set i j w.store, I.same_id w.store name i e)
          | inr (r, g) ↦ ground (arith, e, f, g, start_set i j w.store, I.same_id w.store name i e)
        ]
      ]
    ]
