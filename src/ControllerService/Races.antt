-- ===== src/ControllerService/Races.antt =====
-- What the goroutines of two requests can do to each other.
use qcontroller.Base.{
  ◌≡◌, arith, String, true, false, Option, some, none, List, [], ◌∷◌, ok, ◌++◌, eq_refl,
  Result-cases, inl, inr,
}
use qcontroller.Vm.{Instance, Hardware, CloudInit, stopped, starting, is_stopped}
use qcontroller.Controller.{StateOps, stored, IsState}
use qcontroller.LocalManager
use qcontroller.LocalManager.{StartRequest, start_call, start_cloud_init}
use qcontroller.LocalManager.Store.{WritesState}
use qcontroller.LocalManager.Threads
use qcontroller.LocalManager.Threads.{ret}
use qcontroller.Manager.{Node}
use qcontroller.ControllerService.{
  Action, request, turn_of, create_request, start_request, empty, Setup, Env, act_all,
}

-- What a Create stores.
abbrev pub asked : Setup → String → String → String → Hardware → Option CloudInit → Instance
asked c mac id image h ci = record {
  id = id;
  hardware = some h;
  hwaddr = some mac;
  image_id = image;
  state = stopped;
  cloudinit = ci;
  node = c.name;
}

abbrev pub create_of : Env → String → String → Hardware → Option CloudInit → Action
create_of v id image h ci =
    request
      (create_request id (some (record { vm = some h; image = image; cloud_init = ci })) false) v v

abbrev pub by_turns : List Action
by_turns = turn_of 0 ∷ turn_of 1 ∷ turn_of 0 ∷ turn_of 1 ∷ turn_of 0 ∷ turn_of 1 ∷ []

abbrev pub both_start : String → Env → Env → List Action
both_start id v w =
    request (start_request id) v v
    ∷ request (start_request id) w w
    ∷ turn_of 0
    ∷ turn_of 1
    ∷ turn_of 2
    ∷ turn_of 3
    ∷ turn_of 2
    ∷ turn_of 2
    ∷ turn_of 3
    ∷ turn_of 2
    ∷ turn_of 3
    ∷ []

module _ (S : StateOps) (I : IsState S) (c : Setup) where
  -- Two Creates of one name that no instance has, each of which looks before the other writes, both
  -- answer that they succeeded, if the database accepts what they write: the second has overwritten
  -- the first.
  pub create_overwrites :
      (n : Node S c.equal) (v w : Env) (mac mac' id image image' : String) (h h' : Hardware)
      (ci ci' : Option CloudInit)
      → v.mac ≡ ok mac
      → w.mac ≡ ok mac'
      → stored S n.world.store id ≡ none
      → (S.update n.world.store (asked c mac id image h ci)).1 ≡ none
      → (S.update
          (S.update n.world.store (asked c mac id image h ci)).0
          (asked c mac' id image' h' ci')).1
        ≡ none
      → (let s =
            act_all c S
              (create_of v id image h ci ∷ create_of w id image' h' ci' ∷ by_turns)
              (n, []) in
          (s.1 ≡ ret empty ∷ ret empty ∷ [])
          × (stored S s.0.world.store id ≡ some (asked c mac' id image' h' ci')))
  unfolding act_all Threads.create
  create_overwrites n v w mac mac' id image image' h h' ci ci' e e' free u u' =
      elim (Result-cases (S.get n.world.store id)) [
        | inr (i, f) ↦ absurd (ground (arith, f))
        | inl (x, f) ↦ ground (
          arith,
          f,
          I.update_writes (S.update n.world.store (asked c mac id image h ci)).0
              (asked c mac' id image' h' ci') id,
          eq_refl id,
        )
      ]

  -- Two Starts of one stopped instance, each of which looks before the other writes, both send QEMU
  -- the request to start it, if QEMU can be dialled and the database accepts the change of state.
  pub start_twice :
      (W : WritesState S) (n : Node S c.equal) (v w : Env) (id : String) (i : Instance)
      (ci : Option CloudInit) (r : StartRequest)
      → stored S n.world.store id ≡ some i
      → is_stopped i.state ≡ true
      → start_cloud_init i ≡ ok ci
      → LocalManager.start_request i ci ≡ some r
      → v.qemu.dial ≡ none
      → w.qemu.dial ≡ none
      → (act_all c S (both_start id v w) (n, [])).0.world.calls
        ≡ (n.world.calls ++ start_call r ∷ []) ++ start_call r ∷ []
  unfolding act_all Threads.start Threads.start_found Threads.set_instance_state Threads.dial_start
      Threads.send_start
  start_twice W n v w id i ci r here down init req d d' =
      elim (Result-cases (S.get n.world.store id)) [
        | inl (x, f) ↦ absurd (ground (arith, f))
        | inr (j, f) ↦
            let e : j ≡ i = ground (arith, f) in
            let starting_i : Instance = record i { state = starting } in
            ground (
              arith,
              f,
              e,
              I.same_id n.world.store id i here,
              W.accepts n.world.store id i starting here,
              I.update_writes n.world.store starting_i id,
              eq_refl id,
            )
      ]
