-- ===== src/Events/Cache.antt =====
-- The cache of the publisher suppresses repeated events, and also those that were never sent.
use qcontroller.Base.{
  String, ℕ, ◌≤◌, Bool, true, false, ◌≡◌, inl, inr, arith, none, some, List, [], ◌∷◌, if◌then◌else◌,
  length, length-append, lookup, lookup-insert, lookup-delete, ◌==◌, eq_iff, eq_refl, Option-cases,
}
use qcontroller.Vm.{Info}
use qcontroller.Events.Publisher.{
  Publisher, Update, publish, vm_updated, vm_removed, queue_full, is_cached,
}

-- Every info is cached under its own name.
pub record IsKeyed (p : Publisher) : Type 0 where
  pub keyed : (k : String) (i : Info) → lookup k p.cache ≡ some i → i.name ≡ k

abbrev pub IsSound : (Info → Info → Bool) → Type 0
IsSound equal = (a b : Info) → equal a b ≡ true → a ≡ b

abbrev pub IsReflexive : (Info → Info → Bool) → Type 0
IsReflexive equal = (a : Info) → equal a a ≡ true

cache-publish : (u : Update) (p : Publisher) → (publish u p).0.cache ≡ p.cache
unfolding publish
cache-publish u p = ground arith

module _ (equal : Info → Info → Bool) where
  -- Whatever the queue, the cache has the info after VMUpdated, and is otherwise unchanged.
  pub cache-vm_updated :
      (now : ℕ) (info : Info) (p : Publisher) (k : String)
      → IsSound equal
      → lookup k (vm_updated equal now info p).0.cache
        ≡ (if info.name == k then some info else lookup k p.cache)
  unfolding vm_updated publish
  cache-vm_updated now info p k sound = elim (Option-cases (lookup info.name p.cache)) [
    | inl e ↦ ground (arith, e, lookup-insert k info.name info p.cache)
    | inr (prev, e) ↦
        ground
          (arith, e, lookup-insert k info.name info p.cache, sound prev info, eq_iff info.name k)
  ]

pub cache-vm_removed :
    (now : ℕ) (id : String) (p : Publisher) (k : String)
    → lookup k (vm_removed now id p).0.cache ≡ (if id == k then none else lookup k p.cache)
unfolding vm_removed publish
cache-vm_removed now id p k = ground (arith, lookup-delete k id p.cache)

-- Publishing to a queue within the capacity of the channel keeps it within the capacity.
pub publish_bounded :
    (u : Update) (p : Publisher)
    → length p.queue ≤ p.capacity
    → length (publish u p).0.queue ≤ p.capacity
unfolding publish
publish_bounded u p h = ground (arith, length-append p.queue (u ∷ []))

-- If the comparison of infos is reflexive and the queue is full, VMUpdated of a changed info drops
-- the event and reports it; but the info is then cached, so that the same call later, whatever the
-- queue holds by then, queues nothing and returns nil.
pub update_lost :
    (equal : Info → Info → Bool) (now now' : ℕ) (info : Info) (p : Publisher) (later : List Update)
    → IsReflexive equal
    → p.capacity ≤ length p.queue
    → is_cached equal info (lookup info.name p.cache) ≡ false
    → let p₁ = (vm_updated equal now info p).0 in
      let p₂ = record p₁ { queue = later } in
      ((vm_updated equal now info p).1 ≡ some queue_full)
      × (p₁.queue ≡ p.queue)
      × (vm_updated equal now' info p₂ ≡ (p₂, none))
unfolding vm_updated publish
update_lost equal now now' info p later same full changed = (
  ground (arith, changed, full),
  ground (arith, changed, full),
  ground (
    arith,
    changed,
    full,
    same info,
    lookup-insert info.name info.name info p.cache,
    eq_refl info.name,
  ),
)

-- VMUpdated and VMRemoved keep every info under its own name.
pub vm_updated-IsKeyed :
    (equal : Info → Info → Bool) (now : ℕ) (info : Info) (p : Publisher)
    → IsSound equal
    → IsKeyed p
    → IsKeyed (vm_updated equal now info p).0
vm_updated-IsKeyed equal now info p sound h = record {
  keyed = λ k i e.
      ground (arith, e, cache-vm_updated equal now info p k sound, h.keyed k i, eq_iff info.name k);
}
