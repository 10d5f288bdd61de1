-- ===== src/LocalManager/Report/Reconcile.antt =====
-- reconcileInstances of local_manager.go against its specification, instance by instance.
use qcontroller.Base.{
  String, ◌≡◌, arith, none, some, ◌==◌, eq_iff, if◌then◌else◌, Bool, true, false, ok, List, [], ◌∷◌,
  map, refl, ◌∙◌,
}
use mathlib.Core.Option
use qcontroller.Vm.{Instance, State, stopped, running, starting, is_running}
use qcontroller.Controller.{StateOps, stored, IsState}
use qcontroller.LocalManager.{World, Qemu, start, failed, not_stopped, remove}
use qcontroller.LocalManager.Store.{WritesState, set-other, set-self_writes}
use qcontroller.LocalManager.Report.{contains, reconcile_each, reconcile, reconcile_one}

-- The state that an instance has after the reconciliation: RUNNING exactly if QEMU lists it, and
-- otherwise what it was, but STOPPED if it was RUNNING.
abbrev pub reconciled : List String → Instance → Instance
reconciled ids i =
    if contains ids i.id
    then record i { state = running }
    else if is_running i.state
    then record i { state = stopped }
    else i

abbrev holds_id : List Instance → String → Bool
holds_id [] id = false
holds_id (i ∷ is) id = if i.id == id then true else holds_id is id

-- The instances of a listing: each is what the store holds under its id, and no id is twice there.
abbrev pub IsListing : (S : StateOps) → S.Store → List Instance → Type 0
IsListing S s [] = Unit
IsListing S s (i ∷ is) = (stored S s i.id ≡ some i) × (holds_id is i.id ≡ false) × IsListing S s is

is_running-eq : (st : State) → is_running st ≡ true → st ≡ running
is_running-eq st h = ground arith

module _ (S : StateOps) where
  reconcile_one-value :
      (ids : List String) (i : Instance) (s : S.Store)
      → (reconcile_one S ids i s).1 ≡ reconciled ids i
  reconcile_one-value ids i s = ground (arith, is_running-eq i.state)

  reconcile_each-map :
      (ids : List String) (is : List Instance) (s : S.Store)
      → (reconcile_each S ids is s).1 ≡ map (reconciled ids) is
  unfolding reconcile_each
  reconcile_each-map ids [] s = refl
  reconcile_each-map ids (i ∷ is) s =
      cc (reconcile_one-value ids i s, reconcile_each-map ids is (reconcile_one S ids i s).0)

module _ (S : StateOps) (I : IsState S) (W : WritesState S) where
  reconcile_one-stored :
      (ids : List String) (i : Instance) (s : S.Store) (j : String)
      → stored S s i.id ≡ some i
      → stored S (reconcile_one S ids i s).0 j
        ≡ (if i.id == j then some (reconciled ids i) else stored S s j)
  reconcile_one-stored ids i s j e = ground (
    arith,
    is_running-eq i.state,
    eq_iff i.id j,
    set-self_writes S I W s i.id i running e,
    set-self_writes S I W s i.id i stopped e,
    set-other S I s i.id j running,
    set-other S I s i.id j stopped,
  )

  IsListing-step :
      (ids : List String) (i : Instance) (is : List Instance) (s : S.Store)
      → stored S s i.id ≡ some i
      → holds_id is i.id ≡ false
      → IsListing S s is
      → IsListing S (reconcile_one S ids i s).0 is
  IsListing-step ids i [] s e n l = tt
  IsListing-step ids i (k ∷ is) s e n l =
      let other : (i.id == k.id) ≡ false = ground (arith, eq_iff i.id k.id, eq_iff k.id i.id) in
      (
        reconcile_one-stored ids i s k.id e ∙ ground (arith, other, l.0),
        l.1,
        IsListing-step ids i is s e (ground arith) l.2,
      )

  -- Where every instance of the listing is reconciled, and no other instance changes.
  reconcile_each-stored :
      (ids : List String) (is : List Instance) (s : S.Store) (j : String)
      → IsListing S s is
      → stored S (reconcile_each S ids is s).0 j
        ≡ (if holds_id is j then Option.map (reconciled ids) (stored S s j) else stored S s j)
  unfolding reconcile_each
  reconcile_each-stored ids [] s j l = refl
  reconcile_each-stored ids (i ∷ is) s j l =
      let s₁ = (reconcile_one S ids i s).0 in
      ground (
        arith,
        reconcile_one-stored ids i s j l.0,
        reconcile_each-stored ids is s₁ j (IsListing-step ids i is s l.0 l.1 l.2),
        eq_iff i.id j,
        l.0,
        l.1,
      )

  module _ (q : Qemu) (insts : List Instance) (w : World S) (ids : List String)
      (dialled : q.dial ≡ none) (listed : q.list ≡ ok ids) (l : IsListing S w.store insts) where
    -- Over a store that meets the interface and accepts every change of state, when QEMU can be
    -- asked, its answer is `ids`, and `insts` lists instances as they are stored, each once: the
    -- reconciliation returns every one of them with its reconciled state, stores just that for them,
    -- and changes no other instance.
    pub reconcile_correct :
        (j : String)
        → ((reconcile S q insts w).1 ≡ map (reconciled ids) insts)
          × (stored S (reconcile S q insts w).0.store j ≡ (
              if holds_id insts j
              then Option.map (reconciled ids) (stored S w.store j)
              else stored S w.store j))
    unfolding reconcile
    reconcile_correct j = (
      ground (arith, dialled, listed, reconcile_each-map S ids insts w.store),
      ground (arith, dialled, listed, reconcile_each-stored ids insts w.store j l),
    )

    -- In the same setting, an instance that is STARTING and that QEMU does not list stays so:
    -- Start and Remove refuse it and change nothing, and the reconciliation does not touch it.
    pub starting_stuck :
        (q' : Qemu) (name : String) (i : Instance)
        → stored S w.store name ≡ some i
        → i.state ≡ starting
        → contains ids name ≡ false
        → (start S q' name w ≡ (w, failed not_stopped))
          × (remove S q' name w ≡ (w, failed not_stopped))
          × (stored S (reconcile S q insts w).0.store name ≡ some i)
    unfolding start remove
    starting_stuck q' name i e st out = (
      ground (arith, e, st),
      ground (arith, e, st),
      ground (arith, e, st, out, (reconcile_correct name).1, I.same_id w.store name i e),
    )
