-- ===== src/Process/Monitor/Turns.antt =====
-- What the last event settles: a handshake makes a socket ready, a disconnection ends it.
use qcontroller.Base.{
  ◌≡◌, arith, refl, String, eq_iff, true, none, some, List, ◌∷◌, Result, err, lookup, insert,
  delete, lookup-insert, lookup-delete,
}
use qcontroller.Process.Monitor.{
  Step, execute, ExecuteError, by_client, on_instance, on_message, on_generic, handle, run,
}
use qcontroller.Process.Monitor.Events.{Negotiates, Disconnects}

-- After the event that an instance has disconnected, Execute refuses its commands as not ready,
-- whatever the events before were.
pub execute-Disconnects {ℓ} :
    {A : Type ℓ} (s : Step) (past : List Step) (name : String) (call : Result String A)
    → Disconnects s name
    → execute (run (s ∷ past)) name call ≡ err ExecuteError.not_ready
unfolding run handle on_message execute
execute-Disconnects s past name call (m, (e, (same, (generic, nothing)))) =
    let gone = lookup-delete name m.instance_name (on_instance s (run past)).ready in
    let absent : lookup name (delete m.instance_name (on_instance s (run past)).ready) ≡ none =
      ground (arith, gone, same, eq_iff m.instance_name name) in
    rw (run, handle, on_message, e, nothing, generic) (rw (execute, absent) refl)

-- After the event with which an instance completes its handshake, Execute makes the client's call
-- for it and returns what that returns.
pub execute-Negotiates {ℓ} :
    {A : Type ℓ} (s : Step) (past : List Step) (name : String) (call : Result String A)
    → Negotiates s name
    → execute (run (s ∷ past)) name call ≡ by_client call
unfolding run handle on_message on_generic execute
execute-Negotiates s past name call (m, g, (e, (same, (eg, (greeted, returned))))) =
    let is_ready : lookup name (insert m.instance_name true (on_instance s (run past)).ready)
        ≡ some true =
      ground (
        arith,
        lookup-insert name m.instance_name true (on_instance s (run past)).ready,
        same,
        eq_iff m.instance_name name,
      ) in
    rw (run, handle, on_message, e, eg, on_generic, greeted, returned) (rw (execute, is_ready) refl)
