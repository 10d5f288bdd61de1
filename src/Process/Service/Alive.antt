-- ===== src/Process/Service/Alive.antt =====
-- List, Remove and reattachOnStartup of process.go agree on which instances are alive.
use qcontroller.Base.{
  String, ◌<>◌, ◌≡◌, inl, inr, ℕ, Bool, true, false, some, List, [], ◌∷◌, if◌then◌else◌, ok, arith,
  Option-cases, ◌==◌, eq_iff,
}
use qcontroller.Db.View.{answer}
use qcontroller.Process.Service.{
  Host, Entry, failed_precondition, list, list_entries, remove, reattach, reattach_entries, has_id,
  is_alive,
}

listed_alive :
    (h : Host) (es : List Entry) (id : String)
    → has_id id (list_entries h es) ≡ true
    → is_alive h (h.pidfile id) ≡ true
listed_alive h [] id e = absurd (ground arith)
listed_alive h (x ∷ es) id e = ground (arith, listed_alive h es id, eq_iff x.name id)

abbrev pub sends : String → List (String × ℕ) → Bool
sends id [] = false
sends id ((k, i) ∷ es) = if k == id then true else sends id es

sends_listed :
    (h : Host) (es : List Entry) (id : String)
    → sends id (reattach_entries h es) ≡ true
    → has_id id (list_entries h es) ≡ true
sends_listed h [] id e = absurd (ground arith)
sends_listed h (x ∷ es) id e =
    ground (arith, sends_listed h es id, eq_iff x.name id, Option-cases (h.pidfile x.name))

-- An instance that List lists is not removed: Remove refuses it as still running.
pub listed_refused :
    (h : Host) (ids : List String) (id : String)
    → list h ≡ ok ids
    → has_id id ids ≡ true
    → remove h id ≡ some (failed_precondition ("instance " <> id <> " is still running"))
unfolding list remove
listed_refused h ids id e m = elim (Option-cases (answer h.read_dir)) [
  | inl n ↦ absurd (ground (arith, n))
  | inr (es, n) ↦ ground (arith, n, listed_alive h es id)
]

-- Every instance that is attached to at start-up is one that List lists.
pub reattached_listed :
    (h : Host) (ids : List String) (id : String)
    → list h ≡ ok ids
    → sends id (reattach h) ≡ true
    → has_id id ids ≡ true
unfolding list reattach
reattached_listed h ids id e m = elim (Option-cases (answer h.read_dir)) [
  | inl n ↦ absurd (ground (arith, n))
  | inr (es, n) ↦ ground (arith, n, sends_listed h es id)
]
