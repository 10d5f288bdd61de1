-- ===== src/ControllerService/Runs.antt =====
-- What every run of the controller keeps, whichever goroutine has its turn when.
use qcontroller.Base.{ℕ, zero, suc, String, Bool, List, [], ◌∷◌}
use qcontroller.Badger.{Badger, IsLawful, Codec, IsFaithful}
use qcontroller.Vm.{Instance, Info}
use qcontroller.Db.Invariant.{IsConsistent, update-IsConsistent, remove-IsConsistent}
use qcontroller.Controller.{StateOps}
use qcontroller.Controller.Database.{raw_state}
use qcontroller.LocalManager.Threads.{
  Prog, ret, get, list, update, delete, tell, read_cache, publish, fork,
}
use qcontroller.Manager.{Node}
use qcontroller.ControllerService.{
  Action, request, tick, turn_of, Setup, System, step, turn, act, act_all,
}

-- A property of the database that its transactions keep.
pub record IsKept (S : StateOps) (P : S.Store → Type 0) : Type 0 where
  pub by_update : (s : S.Store) (i : Instance) → P s → P (S.update s i).0
  pub by_remove : (s : S.Store) (id : String) → P s → P (S.remove s id).0

module _ (S : StateOps) (P : S.Store → Type 0) (K : IsKept S P) where
  step_keeps :
      {A : Type 0} (equal : Info → Info → Bool) (p : Prog A) (n : Node S equal)
      → P n.world.store
      → P (step S equal p n).0.world.store
  unfolding step
  step_keeps equal (ret a) n h = h
  step_keeps equal (get id k) n h = h
  step_keeps equal (list k) n h = h
  step_keeps equal (update i k) n h = K.by_update n.world.store i h
  step_keeps equal (delete id k) n h = K.by_remove n.world.store id h
  step_keeps equal (tell call k) n h = h
  step_keeps equal (read_cache k) n h = h
  step_keeps equal (publish f k) n h = h
  step_keeps equal (fork p k) n h = h

  turn_keeps :
      {A : Type 0} (equal : Info → Info → Bool) (i : ℕ) (ps : List (Prog A)) (n : Node S equal)
      → P n.world.store
      → P (turn S equal i ps n).0.world.store
  unfolding turn
  turn_keeps equal zero [] n h = h
  turn_keeps equal (suc i) [] n h = h
  turn_keeps equal zero (p ∷ ps) n h = step_keeps equal p n h
  turn_keeps equal (suc i) (p ∷ ps) n h = turn_keeps equal i ps n h

  act_keeps :
      (c : Setup) (a : Action) (s : System c S) → P s.0.world.store → P (act c S a s).0.world.store
  unfolding act
  act_keeps c (request r v v') (n, ps) h = h
  act_keeps c (tick v) (n, ps) h = h
  act_keeps c (turn_of i) (n, ps) h = turn_keeps c.equal i ps n h

  pub act_all_keeps :
      (c : Setup) (as' : List Action) (s : System c S)
      → P s.0.world.store
      → P (act_all c S as' s).0.world.store
  unfolding act_all
  act_all_keeps c [] s h = h
  act_all_keeps c (a ∷ as') s h = act_all_keeps c as' (act c S a s) (act_keeps c a s h)

module _ {Bytes : Type 0} (B : Badger Bytes) (C : Codec Bytes Instance) (L : IsLawful B)
    (F : IsFaithful C) where
  -- For a lawful badger and a faithful codec, from a consistent database, such as an empty one, no
  -- run of the controller makes it inconsistent, whatever requests come in, whatever QEMU answers,
  -- and whichever goroutines run between the transactions of others.
  pub act_all-IsConsistent :
      (c : Setup) (as' : List Action) (s : System c (raw_state B C))
      → IsConsistent B C s.0.world.store
      → IsConsistent B C (act_all c (raw_state B C) as' s).0.world.store
  act_all-IsConsistent c as' s =
      act_all_keeps (raw_state B C) (IsConsistent B C)
        (record {
          by_update = λ t i h. update-IsConsistent B C L F t i h;
          by_remove = λ t id h. remove-IsConsistent B C L F t id h;
        })
        c as' s
