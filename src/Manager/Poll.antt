-- ===== src/Manager/Poll.antt =====
-- poll of manager.go: afterwards the cache is what the node manager reported.
use qcontroller.Base.{
  String, ℕ, Bool, true, false, ◌≡◌, inl, inr, arith, Option, none, some, List, [], ◌∷◌,
  if◌then◌else◌, Dict, lookup, ◌==◌, eq_iff, Bool-cases, Option-cases, ok, refl, ◌∙◌, All,
}
use qcontroller.Vm.{Info}
use qcontroller.Events.Publisher.{Publisher, vm_updated, vm_removed, get_all}
use qcontroller.Events.Cache.{IsSound, IsReflexive, IsKeyed, cache-vm_updated, cache-vm_removed}
use qcontroller.Manager.{reports, remove_missing, update_all, poll}

-- The last info that the list has for a name.
abbrev pub last_info : List Info → String → Option Info
last_info [] name = none
last_info (i ∷ is) name = elim (last_info is name) [
  | some j ↦ some j
  | none ↦ if i.name == name then some i else none
]

abbrev or_else : Option Info → Option Info → Option Info
or_else (some i) o = some i
or_else none o = o

-- Go iterates over every entry of the map, in any order.
abbrev pub IsComplete : (Dict Info → List Info) → Type 0
IsComplete order =
    (d : Dict Info) (k : String) (i : Info) → lookup k d ≡ some i → reports (order d) i.name ≡ true

reports-last_info :
    (is : List Info) (k : String) → reports is k ≡ true → (i : Info) × (last_info is k ≡ some i)
reports-last_info [] k h = absurd (ground arith)
reports-last_info (i ∷ is) k h = elim (Option-cases (last_info is k)) [
  | inl e ↦ elim (Bool-cases (i.name == k)) [
    | inl same ↦ (i, ground (arith, e, same))
    | inr other ↦
        let (j, f) = reports-last_info is k (ground (arith, other)) in absurd (ground (arith, e, f))
  ]
  | inr (j, e) ↦ (j, ground (arith, e))
]

cache-update_all :
    (equal : Info → Info → Bool) (now : ℕ) (is : List Info) (p : Publisher) (k : String)
    → IsSound equal
    → lookup k (update_all equal now is p).cache ≡ or_else (last_info is k) (lookup k p.cache)
unfolding update_all
cache-update_all equal now [] p k sound = refl
cache-update_all equal now (i ∷ is) p k sound = ground (
  arith,
  cache-update_all equal now is (vm_updated equal now i p).0 k sound,
  cache-vm_updated equal now i p k sound,
)

cache-remove_missing :
    (now : ℕ) (infos cached : List Info) (p : Publisher) (k : String)
    → lookup k (remove_missing now infos cached p).cache ≡ (
        if reports cached k
        then (if reports infos k then lookup k p.cache else none)
        else lookup k p.cache)
unfolding remove_missing
cache-remove_missing now infos [] p k = refl
cache-remove_missing now infos (c ∷ cached) p k = elim (Bool-cases (reports infos c.name)) [
  | inl here ↦ ground (arith, here, cache-remove_missing now infos cached p k, eq_iff c.name k)
  | inr gone ↦ ground (
    arith,
    gone,
    cache-remove_missing now infos cached (vm_removed now c.name p).0 k,
    cache-vm_removed now c.name p k,
    eq_iff c.name k,
  )
]

-- After a poll that was answered, the cache holds under every name the last info reported for it,
-- and nothing under any other, whatever the cache and the queue held before and in whatever order
-- Go iterates, if the comparison of infos is sound and the cache was keyed by name.
pub cache-poll :
    (equal : Info → Info → Bool) (order : Dict Info → List Info) (now : ℕ) (infos : List Info)
    (p : Publisher) (k : String)
    → IsSound equal
    → IsComplete order
    → IsKeyed p
    → lookup k (poll equal order now (ok infos) p).cache ≡ last_info infos k
unfolding poll get_all
cache-poll equal order now infos p k sound complete h =
    cache-update_all equal now infos (remove_missing now infos (order p.cache) p) k sound
    ∙ elim (Option-cases (last_info infos k)) [
      | inr (j, e) ↦ ground (arith, e)
      | inl e ↦ ground (arith, e, removed e)
    ]
  where
    unreported : last_info infos k ≡ none → reports infos k ≡ false
    unreported e = elim (Bool-cases (reports infos k)) [
      | inl r ↦ let (i, f) = reports-last_info infos k r in absurd (ground (arith, e, f))
      | inr r ↦ r
    ]

    removed :
        last_info infos k ≡ none
        → lookup k (remove_missing now infos (order p.cache) p).cache ≡ none
    removed e = elim (Option-cases (lookup k p.cache)) [
      | inl f ↦ ground (arith, f, unreported e, cache-remove_missing now infos (order p.cache) p k)
      | inr (i, f) ↦ ground (
        arith,
        f,
        unreported e,
        h.keyed k i f,
        complete p.cache k i f,
        cache-remove_missing now infos (order p.cache) p k,
      )
    ]

remove_missing-idle :
    (now : ℕ) (infos cached : List Info) (p : Publisher)
    → All (λ c. reports infos c.name ≡ true) cached
    → remove_missing now infos cached p ≡ p
unfolding remove_missing
remove_missing-idle now infos [] p h = refl
remove_missing-idle now infos (c ∷ cached) p h = rw h.0 (remove_missing-idle now infos cached p h.1)

update_all-idle :
    (equal : Info → Info → Bool) (now : ℕ) (is : List Info) (p : Publisher)
    → IsReflexive equal
    → All (λ i. lookup i.name p.cache ≡ some i) is
    → update_all equal now is p ≡ p
unfolding update_all vm_updated
update_all-idle equal now [] p same h = refl
update_all-idle equal now (i ∷ is) p same h =
    rw (h.0, same i) (update_all-idle equal now is p same h.1)

-- If the comparison of infos is reflexive, a poll whose answer is what the cache holds already,
-- under the same names, changes nothing and publishes nothing.
pub poll_idle :
    (equal : Info → Info → Bool) (order : Dict Info → List Info) (now : ℕ) (infos : List Info)
    (p : Publisher)
    → IsReflexive equal
    → All (λ c. reports infos c.name ≡ true) (order p.cache)
    → All (λ i. lookup i.name p.cache ≡ some i) infos
    → poll equal order now (ok infos) p ≡ p
unfolding poll get_all
poll_idle equal order now infos p same known cached =
    rw (remove_missing-idle now infos (order p.cache) p known)
      (update_all-idle equal now infos p same cached)
