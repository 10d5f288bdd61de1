-- ===== src/Tests/Memory.antt =====
-- A database in memory and a store in memory, at which the theorems on badger and on the interface
-- of controller/state.go are applied.
use qcontroller.Base.{
  String, ◌≡◌, ◌⊎◌, inl, inr, arith, Option, none, some, ◌==◌, eq_iff, if◌then◌else◌, Option-cases,
  [], Result, ok, err, Dict, lookup, insert, delete, lookup-insert, lookup-delete, refl, sym, ap,
  ◌∙◌,
}
use qcontroller.Badger.{Fault, key_not_found, Badger, IsLawful, Codec, IsFaithful}
use qcontroller.Vm.{Instance}
use qcontroller.Db.{DbErr, check, badger, get}
use qcontroller.Db.View.{answer}
use qcontroller.Db.Invariant.{IsConsistent}
use qcontroller.Controller.{StateOps, IsState}
use qcontroller.LocalManager.Store.{WritesState}

pub data Value : Type 0 where
  json : Instance → Value
  text : String → Value

abbrev found {ℓ} : {A : Type ℓ} → Option A → Result Fault A
found none = err key_not_found
found (some a) = ok a

-- every operation succeeds
abbrev pub memory : {V : Type 0} → Badger V
memory {V = V} = record {
  Txn = Dict V;
  get = λ t k. found (lookup k t);
  set = λ t k v. ok (insert k v t);
  delete = λ t k. ok (delete k t);
  iterate = λ t prefix. [];
  commit = λ t. none;
}

pub memory-IsLawful : {V : Type 0} → IsLawful (memory {V = V})
memory-IsLawful = record {
  get-set = λ t k v u j h. ground (arith, h, lookup-insert j k v t);
  get-delete = λ t k u j h. ground (arith, h, lookup-delete j k t);
  delete_missing = λ t k h. absurd (ground (arith, h));
}

abbrev as_instance : Value → Option Instance
as_instance (json i) = some i
as_instance (text s) = none

abbrev as_text : Value → String
as_text (json i) = ""
as_text (text s) = s

abbrev pub values : Codec Value Instance
values = record {
  marshal = λ i. some (json i);
  unmarshal = as_instance;
  of_string = λ s. text s;
  to_string = as_text;
}

pub values-IsFaithful : IsFaithful values
values-IsFaithful = record {
  unmarshal-marshal = λ a b h. ground (arith, h);
  to_string-of_string = λ s. refl;
}

pub no_some {ℓ} : {A : Type ℓ} {a : A} → none ≡ some a → ⊥
no_some h = ground (arith, h)

pub empty-IsConsistent : IsConsistent memory values []
unfolding get lookup
empty-IsConsistent = record {
  same_id = λ id i h. absurd (no_some h);
  passes = λ id i h. absurd (no_some h);
  owns = λ id i h. absurd (no_some h);
  owned = λ mac id h. absurd (no_some h);
}

-- A store whose operations fail only as the constraints ask.
abbrev pub Held : Type 0
Held =
    (f : String → Option Instance) × ((id : String) (i : Instance) → f id ≡ some i → i.id ≡ id)
    × ((id : String) (i : Instance) → f id ≡ some i → check i ≡ none)

abbrev pub as_reply : Option Instance → Result DbErr Instance
as_reply none = err (badger key_not_found)
as_reply (some i) = ok i

abbrev pub set_at : Instance → (String → Option Instance) → String → Option Instance
set_at i f j = if i.id == j then some i else f j

abbrev pub unset_at : String → (String → Option Instance) → String → Option Instance
unset_at id f j = if id == j then none else f j

module _ (h : Held) where
  pub set-same : (i : Instance) (id : String) (k : Instance) → set_at i h.0 id ≡ some k → k.id ≡ id
  set-same i id k e = ground (arith, e, eq_iff i.id id, h.1 id k)

  pub set-passes :
      (i : Instance)
      → check i ≡ none
      → (id : String) (k : Instance) → set_at i h.0 id ≡ some k
      → check k ≡ none
  set-passes i c id k e = ground (arith, e, h.2 id k, c)

  pub unset-same : (j id : String) (k : Instance) → unset_at j h.0 id ≡ some k → k.id ≡ id
  unset-same j id k e = ground (arith, e, h.1 id k)

  pub unset-passes : (j id : String) (k : Instance) → unset_at j h.0 id ≡ some k → check k ≡ none
  unset-passes j id k e = ground (arith, e, h.2 id k)

abbrev pub hold : Held → (i : Instance) → check i ≡ none → Held
hold s i c = (set_at i s.0, set-same s i, set-passes s i c)

abbrev pub drop_held : Held → String → Held
drop_held s id = (unset_at id s.0, unset-same s id, unset-passes s id)

abbrev pub put :
    Held
    → (i : Instance) → (check i ≡ none) ⊎ ((e : DbErr) × (check i ≡ some e))
    → Held × Option DbErr
put s i (inl h) = (hold s i h, none)
put s i (inr (e, h)) = (s, some e)

abbrev pub held : StateOps
held = record {
  Store = Held;
  update = λ s i. put s i (Option-cases (check i));
  get = λ s id. as_reply (s.0 id);
  list = λ s. ok [];
  remove = λ s id. (drop_held s id, none);
}

held_put :
    (s : Held) (i : Instance) (j : String)
    (d : (check i ≡ none) ⊎ ((e : DbErr) × (check i ≡ some e)))
    → (put s i d).1 ≡ none
    → (put s i d).0.0 j ≡ (if i.id == j then some i else s.0 j)
held_put s i j (inl h) e = refl
held_put s i j (inr (x, h)) e = absurd (ground (arith, e))

held_put_fails :
    (s : Held) (i : Instance) (x : DbErr)
    (d : (check i ≡ none) ⊎ ((e : DbErr) × (check i ≡ some e)))
    → (put s i d).1 ≡ some x
    → (put s i d).0 ≡ s
held_put_fails s i x (inl h) e = absurd (ground (arith, e))
held_put_fails s i x (inr (y, h)) e = refl

pub held_accepts :
    (s : Held) (i : Instance) (d : (check i ≡ none) ⊎ ((e : DbErr) × (check i ≡ some e)))
    → check i ≡ none
    → (put s i d).1 ≡ none
held_accepts s i (inl h) e = refl
held_accepts s i (inr (y, h)) e = absurd (no_some (sym e ∙ h))

stored_held : (s : Held) (id : String) → answer (as_reply (s.0 id)) ≡ s.0 id
stored_held s id = ground arith

removed_held :
    (s : Held) (id j : String)
    → answer (as_reply ((drop_held s id).0 j))
      ≡ (if id == j then none else answer (as_reply (s.0 j)))
removed_held s id j = ground arith

pub held-IsState : IsState held
held-IsState = record {
  same_id = λ s id i h. s.1 id i (sym (stored_held s id) ∙ h);
  passes = λ s id i h. s.2 id i (sym (stored_held s id) ∙ h);
  update_writes = λ s i j h. ground (arith, held_put s i j (Option-cases (check i)) h);
  update_fails = λ s i e j h.
      ap (λ u. answer (as_reply (u.0 j))) (held_put_fails s i e (Option-cases (check i)) h);
  remove_deletes = λ s id j h. removed_held s id j;
  remove_fails = λ s id e j h. absurd (no_some h);
}

pub held-WritesState : WritesState held
unfolding check
held-WritesState = record {
  accepts = λ s id i st h.
      held_accepts s (record i { state = st }) (Option-cases (check (record i { state = st })))
        (s.2 id i (sym (stored_held s id) ∙ h));
}
