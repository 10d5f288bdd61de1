-- ===== src/Process/Monitor/Pings.antt =====
-- Every request that the monitor keeps is a ping that it has sent to the instance.
use qcontroller.Base.{
  ◌≡◌, arith, ap, ◌∙◌, String, ◌==◌, eq_iff, ◌&&◌, if◌then◌else◌, Option, some, List, [], ◌∷◌, Dict,
  lookup, insert, delete, lookup-insert, lookup-delete, Option-cases, Bool-cases, String-cases, inl,
  inr,
}
use qcontroller.Process.Monitor.{
  Step, Generic, QapiResult, Monitor, on_instance, on_generic, on_message, on_result, handle, run,
  forget, greets, returns,
}
use qcontroller.Process.Monitor.Events.{Asked}

abbrev pub AllAsked : List Step → Monitor → Type 0
AllAsked past mon = (id name : String) → lookup id mon.requests ≡ some name → Asked id name past

-- Forgetting requests adds none.
lookup-forget :
    (id name : String) (entries requests : Dict String) {i : String}
    → lookup id (forget name entries requests) ≡ some i
    → lookup id requests ≡ some i
unfolding forget
lookup-forget id name [] requests h = h
lookup-forget id name ((k, j) ∷ entries) requests h = ground (
  arith,
  lookup-forget id name entries (if j == name then delete k requests else requests) h,
  lookup-delete id k requests,
)

pub on_instance-AllAsked :
    (s : Step) (past : List Step) (mon : Monitor)
    → AllAsked past mon
    → AllAsked (s ∷ past) (on_instance s mon)
unfolding on_instance
on_instance-AllAsked s past mon h id name found = elim (Option-cases s.instance_message) [
  | inl e ↦ Asked.before (h id name (rw (on_instance, e) at found))
  | inr (m, e) ↦ elim (Bool-cases m.is_add) [
    | inr other ↦ Asked.before (h id name (rw (on_instance, e, other) at found))
    | inl add ↦ elim (Option-cases s.ping) [
      | inl no_ping ↦ Asked.before (h id name (rw (on_instance, e, add, no_ping) at found))
      | inr (k, ping) ↦
          let found' : lookup id (insert k m.instance_name mon.requests) ≡ some name =
            rw (on_instance, e, add, ping) at found in
          elim (String-cases k id) [
            | inl same ↦ Asked.now (
              m,
              (
                e,
                (
                  add,
                  (
                    ground (
                      arith,
                      found',
                      lookup-insert id k m.instance_name mon.requests,
                      same,
                      eq_iff k id,
                    ),
                    ping ∙ ap some same,
                  ),
                ),
              ),
            )
            | inr other ↦ Asked.before (
                h id name (
                  ground (
                    arith,
                    found',
                    lookup-insert id k m.instance_name mon.requests,
                    other,
                    eq_iff k id,
                  )))
          ]
    ]
  ]
]

on_generic-requests :
    (capabilities : Option QapiResult) (name : String) (g : Generic) (mon : Monitor) (id i : String)
    → lookup id (on_generic capabilities name g mon).requests ≡ some i
    → lookup id mon.requests ≡ some i
unfolding on_generic on_result
on_generic-requests capabilities name g mon id i found =
    elim (Bool-cases (greets g && returns capabilities)) [
      | inl e ↦ lookup-forget id name mon.requests mon.requests (rw (on_generic, e) at found)
      | inr e ↦ elim (Option-cases g.result) [
        | inl no_result ↦ ground (arith, e, no_result)
        | inr (r, er) ↦ ground (arith, e, er, lookup-delete id r.id mon.requests)
      ]
    ]

pub on_message-requests :
    (s : Step) (mon : Monitor) (id name : String)
    → lookup id (on_message s mon).requests ≡ some name
    → lookup id mon.requests ≡ some name
unfolding on_message on_generic on_result
on_message-requests s mon id name found = elim (Option-cases s.message) [
  | inl e ↦ rw (on_message, e) at found
  | inr (m, e) ↦ elim (Option-cases m.generic) [
    | inl none_left ↦ ground (arith, e, none_left)
    | inr (g, eg) ↦
        on_generic-requests s.capabilities m.instance_name g mon id name
          (rw (on_message, e, eg) at found)
  ]
]

pub run-AllAsked : (past : List Step) → AllAsked past (run past)
unfolding run handle lookup
run-AllAsked [] id name found = cc
run-AllAsked (s ∷ past) id name found =
    on_instance-AllAsked s past (run past) (run-AllAsked past) id name
      (on_message-requests s (on_instance s (run past)) id name found)
