-- ===== src/LocalManager/Store.antt =====
-- What `setInstanceState` of local_manager.go does to the stored instances.
use qcontroller.Base.{
  String, ◌≡◌, ◌≢◌, ◌⊎◌, inl, inr, arith, none, some, eq_iff, Option-cases, Bool-cases, true,
}
use qcontroller.Vm.{State, Instance, same_state}
use qcontroller.Controller.{StateOps, stored, IsState}
use qcontroller.LocalManager.{set_instance_state}

pub same_state-eq : (a b : State) → same_state a b ≡ true → a ≡ b
same_state-eq a b h = ground arith

module _ (S : StateOps) (I : IsState S) where
  pub set-other :
      (s : S.Store) (id j : String) (st : State)
      → id ≢ j
      → stored S (set_instance_state S id st s) j ≡ stored S s j
  unfolding set_instance_state
  set-other s id j st h = elim (Option-cases (stored S s id)) [
    | inl e ↦ ground (arith, e)
    | inr (i, e) ↦ elim (Option-cases (S.update s (record i { state = st })).1) [
      | inl f ↦ ground (
        arith,
        e,
        f,
        I.update_writes s (record i { state = st }) j,
        I.same_id s id i e,
        eq_iff i.id j,
      )
      | inr (x, f) ↦ ground (arith, e, f, I.update_fails s (record i { state = st }) x j)
    ]
  ]

  -- The stored instance gets the state, or keeps the one that it had.
  pub set_self :
      (s : S.Store) (id : String) (i : Instance) (st : State)
      → stored S s id ≡ some i
      → (stored S (set_instance_state S id st s) id ≡ some (record i { state = st }))
        ⊎ (stored S (set_instance_state S id st s) id ≡ some i)
  unfolding set_instance_state
  set_self s id i st e = elim (Bool-cases (same_state i.state st)) [
    | inl same ↦ inr (ground (arith, e))
    | inr other ↦ elim (Option-cases (S.update s (record i { state = st })).1) [
      | inl f ↦ inl (
          ground (
            arith,
            e,
            f,
            I.update_writes s (record i { state = st }) id,
            I.same_id s id i e,
            eq_iff i.id id,
          ))
      | inr (x, f) ↦ inr (ground (arith, e, f, I.update_fails s (record i { state = st }) x id))
    ]
  ]

  pub set-missing :
      (s : S.Store) (id : String) (st : State)
      → stored S s id ≡ none
      → set_instance_state S id st s ≡ s
  unfolding set_instance_state
  set-missing s id st e = ground arith

-- The database accepts a change of state of every instance that it holds.
pub record WritesState (S : StateOps) : Type 0 where
  pub accepts :
      (s : S.Store) (id : String) (i : Instance) (st : State)
      → stored S s id ≡ some i
      → (S.update s (record i { state = st })).1 ≡ none

module _ (S : StateOps) (I : IsState S) (W : WritesState S) where
  pub set-self_writes :
      (s : S.Store) (id : String) (i : Instance) (st : State)
      → stored S s id ≡ some i
      → stored S (set_instance_state S id st s) id ≡ some (record i { state = st })
  unfolding set_instance_state
  set-self_writes s id i st e = elim (Bool-cases (same_state i.state st)) [
    | inl same ↦ ground (arith, e, same_state-eq i.state st)
    | inr other ↦ ground (
      arith,
      e,
      W.accepts s id i st e,
      I.update_writes s (record i { state = st }) id,
      I.same_id s id i e,
      eq_iff i.id id,
    )
  ]
