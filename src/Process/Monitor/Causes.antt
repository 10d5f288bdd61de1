-- ===== src/Process/Monitor/Causes.antt =====
-- Why a socket is ready: its handshake or its answer to a ping, and no disconnection since.
use mathlib.Core.Option
use qcontroller.Base.{
  ◌≡◌, ◌≢◌, arith, refl, ap, sym, ◌∙◌, String, eq_iff, true, false, ◌&&◌, none, some, List, [], ◌∷◌,
  Result, err, lookup, delete, lookup-insert, lookup-delete, Option-cases, Bool-cases, String-cases,
  inl, inr,
}
use qcontroller.Process.Monitor.{
  Step, Message, Generic, Monitor, execute, ExecuteError, on_instance, on_generic, on_message,
  on_result, handle, run, greets, returns,
}
use qcontroller.Process.Monitor.Events.{Cause}
use qcontroller.Process.Monitor.Pings.{AllAsked, on_instance-AllAsked, run-AllAsked}

ready-on_instance : (s : Step) (mon : Monitor) → (on_instance s mon).ready ≡ mon.ready
unfolding on_instance
ready-on_instance s mon = elim (Option-cases s.instance_message) [
  | inl e ↦ rw (on_instance, e) refl
  | inr (m, e) ↦ elim (Bool-cases m.is_add) [
    | inr other ↦ rw (on_instance, e, other) refl
    | inl add ↦ elim (Option-cases s.ping) [
      | inl no_ping ↦ rw (on_instance, e, add, no_ping) refl
      | inr (k, ping) ↦ rw (on_instance, e, add, ping) refl
    ]
  ]
]

-- A step whose message is not the instance's disconnection does not end what made it ready.
stays :
    (s : Step) (past : List Step) (name : String) {m : Message}
    → s.message ≡ some m
    → ((m.instance_name ≡ name) → (m.is_generic ≡ true) → m.generic ≢ none)
    → Cause name past
    → Cause name (s ∷ past)
stays s past name {m} e other c = Cause.still c (λ (m', (e', (n', (g', none_left)))).
    let same : m ≡ m' = Option.some_inj.0 (sym e ∙ e') in
    other (ap (λ (t : Message). t.instance_name) same ∙ n')
      (ap (λ (t : Message). t.is_generic) same ∙ g')
      (ap (λ (t : Message). t.generic) same ∙ none_left))

on_generic-Cause :
    (s : Step) (past : List Step) (name : String) (mon : Monitor) (m : Message) (g : Generic)
    → s.message ≡ some m
    → m.generic ≡ some g
    → AllAsked (s ∷ past) mon
    → (lookup name mon.ready ≡ some true → Cause name past)
    → lookup name (on_generic s.capabilities m.instance_name g mon).ready ≡ some true
    → Cause name (s ∷ past)
unfolding on_generic on_result
on_generic-Cause s past name mon m g e eg asked kept found =
    let same_cause : lookup name mon.ready ≡ some true → Cause name (s ∷ past) =
      λ was. stays s past name e (λ _ _ left. absurd (ground (arith, eg, left))) (kept was) in
    elim (Bool-cases (greets g && returns s.capabilities)) [
      | inl done ↦ elim (String-cases m.instance_name name) [
        | inl same ↦
            Cause.negotiated (m, g, (e, (same, (eg, (ground (arith, done), ground (arith, done))))))
        | inr other ↦ same_cause (
            ground (
              arith,
              found,
              done,
              lookup-insert name m.instance_name true mon.ready,
              eq_iff m.instance_name name,
              other,
            ))
      ]
      | inr plain ↦ elim (Option-cases g.result) [
        | inl no_result ↦ same_cause (ground (arith, found, plain, no_result))
        | inr (r, er) ↦ elim (Option-cases (lookup r.id mon.requests)) [
          | inl unknown ↦ same_cause (ground (arith, found, plain, er, unknown))
          | inr (i, known) ↦ elim (Bool-cases r.has_error) [
            | inl bad ↦ same_cause (ground (arith, found, plain, er, known, bad))
            | inr good ↦ elim (String-cases i name) [
              | inl same ↦
                  Cause.answered_ping (asked r.id name (known ∙ ap some same))
                    (m, g, r, (e, (eg, (er, (refl, good)))))
              | inr other ↦ same_cause (
                  ground (
                    arith,
                    found,
                    plain,
                    er,
                    known,
                    good,
                    lookup-insert name i true mon.ready,
                    eq_iff i name,
                    other,
                  ))
            ]
          ]
        ]
      ]
    ]

on_message-Cause :
    (s : Step) (past : List Step) (name : String) (mon : Monitor)
    → AllAsked (s ∷ past) mon
    → (lookup name mon.ready ≡ some true → Cause name past)
    → lookup name (on_message s mon).ready ≡ some true
    → Cause name (s ∷ past)
unfolding on_message
on_message-Cause s past name mon asked kept found = elim (Option-cases s.message) [
  | inl e ↦
      Cause.still (kept (rw (on_message, e) at found))
        (λ (m, (e', rest)). absurd (ground (arith, e, e')))
  | inr (m, e) ↦ elim (Option-cases m.generic) [
    | inr (g, eg) ↦
        on_generic-Cause s past name mon m g e eg asked kept (rw (on_message, e, eg) at found)
    | inl nothing ↦ elim (Bool-cases m.is_generic) [
      | inr other ↦
          stays s past name e (λ _ yes _. absurd (ground (arith, other, yes)))
            (kept (rw (on_message, e, nothing, other) at found))
      | inl generic ↦
          let left : lookup name (delete m.instance_name mon.ready) ≡ some true =
            rw (on_message, e, nothing, generic) at found in
          let facts = lookup-delete name m.instance_name mon.ready in
          stays s past name e
            (λ same _ _. absurd (ground (arith, left, facts, eq_iff m.instance_name name, same)))
            (kept (ground (arith, left, facts)))
    ]
  ]
]

run-Cause :
    (past : List Step) (name : String) → lookup name (run past).ready ≡ some true → Cause name past
unfolding run handle lookup
run-Cause [] name found = cc
run-Cause (s ∷ past) name found =
    on_message-Cause s past name (on_instance s (run past))
      (on_instance-AllAsked s past (run past) (run-AllAsked past))
      (λ was. run-Cause past name (rw (ready-on_instance s (run past)) at was)) found

-- Whatever events the monitor has seen, Execute refuses a command as not ready unless there is a
-- cause for the instance to be ready: it has returned from the handshake after a greeting with a
-- version that is not zero, or a result without an error has come with the id of a guest ping that
-- was sent to it before; and it has not disconnected since.
pub execute-Cause {ℓ} :
    {A : Type ℓ} (past : List Step) (name : String) (call : Result String A)
    → execute (run past) name call ≢ err ExecuteError.not_ready
    → Cause name past
unfolding execute
execute-Cause past name call h = elim (Option-cases (lookup name (run past).ready)) [
  | inl absent ↦ absurd (h (rw (execute, absent) refl))
  | inr (true, e) ↦ run-Cause past name e
  | inr (false, e) ↦ absurd (h (rw (execute, e) refl))
]
