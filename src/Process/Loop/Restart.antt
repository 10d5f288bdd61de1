-- ===== src/Process/Loop/Restart.antt =====
-- A message on `removeCh` names an id and not an instance.
use qcontroller.Base.{
  String, ◌≡◌, ℕ, false, none, some, eq_refl, [], ◌∷◌, Result, arith, lookup, insert, delete,
  lookup-insert, lookup-delete, refl,
}
use qcontroller.Process.Loop.{
  register, exit, removed, force_stop, command, State, step, run, drop_watcher, qmp,
  instance_not_running,
}

-- A virtual machine that is stopped by force and started again under its id can be lost: in any
-- loop that has not returned, if the process of the instance i ends after the instance j was
-- registered under its id, the message of i's goroutine deletes j from the map, although no
-- process but that of i has ended since. A command for the id is then answered with
-- ErrInstanceNotRunning, and a forced stop of the id does nothing.
pub restart_lost :
    (execute : String → String → Result String String) (s : State) (id : String) (i j : ℕ)
    (request : String)
    → s.returned ≡ false
    → (t : State) × (run execute
          (register id i ∷ force_stop id ∷ register id j ∷ exit i ∷ removed id i ∷ [])
          s
        ≡ some t)
      × (t.exited ≡ i ∷ s.exited)
      × (step execute (force_stop id) t ≡ some t)
      × (step execute (command id qmp request) t
          ≡ some (record t { answers = instance_not_running ∷ t.answers }))
unfolding run step
restart_lost execute s id i j request r =
    let d₁ = insert id i s.instances in
    let d₂ = delete id d₁ in
    let d₃ = insert id j d₂ in
    let first : lookup id d₁ ≡ some i =
      ground (arith, lookup-insert id id i s.instances, eq_refl id) in
    let second : lookup id d₃ ≡ some j = ground (arith, lookup-insert id id j d₂, eq_refl id) in
    let gone : lookup id (delete id d₃) ≡ none =
      ground (arith, lookup-delete id id d₃, eq_refl id) in
    (
      record s {
        instances = delete id d₃;
        watchers = drop_watcher id i ((id, j) ∷ (id, i) ∷ s.watchers);
        exited = i ∷ s.exited;
        cancelled = j ∷ i ∷ s.cancelled;
        stops = i ∷ s.stops;
      },
      ground (arith, r, first, second, eq_refl id),
      refl,
      ground (arith, r, gone),
      ground (arith, r, gone),
    )
