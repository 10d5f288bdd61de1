-- ===== src/Process/Loop/Watch.antt =====
-- Every instance in the map has a goroutine that waits for its end.
use qcontroller.Base.{
  String, ◌≡◌, ℕ, true, false, some, ◌==◌, eq_iff, List, [], ◌∷◌, Result, arith, lookup,
  lookup-insert, lookup-delete, refl, Option-cases, inl, inr,
}
use qcontroller.Process.Loop.{
  Action, register, exit, removed, force_stop, command, stop, State, step, has_watcher,
  drop_watcher,
}

pub record IsWatched (s : State) : Type 0 where
  pub watched :
      (id : String) (i : ℕ) → lookup id s.instances ≡ some i → has_watcher id i s.watchers ≡ true

has_watcher-drop_watcher :
    (id k : String) (i x : ℕ) (ws : List (String × ℕ))
    → (k == id) ≡ false
    → has_watcher id i (drop_watcher k x ws) ≡ has_watcher id i ws
has_watcher-drop_watcher id k i x [] n = refl
has_watcher-drop_watcher id k i x ((j, y) ∷ ws) n =
    ground (arith, has_watcher-drop_watcher id k i x ws n, eq_iff j k, eq_iff j id, eq_iff k id)

-- Every action of the loop keeps this: each instance in the map has a goroutine that waits for its
-- end.
pub step-IsWatched :
    (execute : String → String → Result String String) (a : Action) (s t : State)
    → IsWatched s
    → step execute a s ≡ some t
    → IsWatched t
unfolding step
step-IsWatched execute (register id i) s t w h = record {
  watched =
      λ k x e. ground (arith, h, e, w.watched k x, lookup-insert k id i s.instances, eq_iff id k);
}
step-IsWatched execute (exit i) s t w h = record {
  watched = λ k x e. ground (arith, h, e, w.watched k x);
}
step-IsWatched execute (removed id i) s t w h = record {
  watched = λ k x e. ground (
    arith,
    h,
    e,
    w.watched k x,
    lookup-delete k id s.instances,
    has_watcher-drop_watcher k id x i s.watchers,
  );
}
step-IsWatched execute (force_stop id) s t w h = elim (Option-cases (lookup id s.instances)) [
  | inl n ↦ record { watched = λ k x e. ground (arith, h, e, n, w.watched k x) }
  | inr (i, n) ↦ record {
    watched = λ k x e. ground (arith, h, e, n, w.watched k x, lookup-delete k id s.instances);
  }
]
step-IsWatched execute (command id kind request) s t w h = record {
  watched = λ k x e. ground (arith, h, e, w.watched k x, Option-cases (lookup id s.instances));
}
step-IsWatched execute stop s t w h = record {
  watched = λ k x e. ground (arith, h, e, w.watched k x);
}
