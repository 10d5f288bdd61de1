-- ===== src/Orchestrator/Remote/Push.antt =====
-- ensureImage and Create of remote_manager.go: where a VM is created the image is ready, and the
-- progress that is published grows.
use native.Mathlib.Nat.{div-le_of_le-mul, div-mul-le_self, le-div_iff_mul-le}
use qcontroller.Base.{
  String, ℕ, ◌≡◌, ◌≤◌, ◌<◌, ◌*◌, ◌+◌, ◌/◌, true, false, none, List, [], ◌∷◌, ok, is_empty, arith,
  Option-cases, Bool-cases, inl, inr, ◌⊎◌, refl,
}
use qcontroller.Db.View.{answer}
use qcontroller.Orchestrator.Remote.{
  Remote, Image, CreateRequest, created, local_hash, has_image, ProgressFile, read_file, read_all,
  push_image, ensure_image, create,
}

-- What is known of an image when a VM is asked for: it is in the local registry, and the node
-- either has it with the same hash or has accepted its upload.
pub record IsReady (r : Remote) (id : String) : Type 0 where
  pub imgs : List Image
  pub there : List Image
  pub listed : r.local_list ≡ ok imgs
  pub known : is_empty (local_hash id imgs) ≡ false
  pub node_listed : r.node_list ≡ ok there
  pub on_node : (has_image id (local_hash id imgs) there ≡ true) ⊎ (r.upload id ≡ none)

push_image-uploads : (r : Remote) (id : String) → (push_image r id).1 ≡ none → r.upload id ≡ none
unfolding push_image
push_image-uploads r id h = elim (Option-cases (r.upload id)) [
  | inl e ↦ e
  | inr (x, e) ↦ absurd (ground (arith, e))
]

ensure_image-IsReady : (r : Remote) (id : String) → (ensure_image r id).1 ≡ none → IsReady r id
unfolding ensure_image
ensure_image-IsReady r id h = elim (Option-cases (answer r.local_list)) [
  | inl e ↦ absurd (ground (arith, e))
  | inr (imgs, e₁) ↦ elim (Option-cases (answer r.node_list)) [
    | inl e ↦ absurd (ground (arith, e₁, e))
    | inr (there, e₂) ↦ elim (Bool-cases (has_image id (local_hash id imgs) there)) [
      | inl e₃ ↦ record {
        imgs = imgs;
        there = there;
        listed = ground (arith, e₁);
        known = ground (arith, e₁);
        node_listed = ground (arith, e₂);
        on_node = inl e₃;
      }
      | inr e₃ ↦ record {
        imgs = imgs;
        there = there;
        listed = ground (arith, e₁);
        known = ground (arith, e₁);
        node_listed = ground (arith, e₂);
        on_node = inr (push_image-uploads r id (ground (arith, e₁, e₂, e₃)));
      }
    ]
  ]
]

-- When Create succeeds, the image was in the local registry, the node had it with the same hash or
-- accepted its upload, and the node's controller accepted the VM.
pub create-IsReady :
    (r : Remote) (req : CreateRequest)
    → (create r req).1 ≡ none
    → IsReady r req.image × (r.create req ≡ none)
unfolding create
create-IsReady r req h = (ensure_image-IsReady r req.image (ground arith), ground arith)

-- If the node has the image with the hash of the local one, nothing is downloaded, uploaded or
-- published: the only act of Create is the request.
pub create_pushes_nothing :
    (r : Remote) (req : CreateRequest) (imgs there : List Image)
    → r.local_list ≡ ok imgs
    → r.node_list ≡ ok there
    → is_empty (local_hash req.image imgs) ≡ false
    → has_image req.image (local_hash req.image imgs) there ≡ true
    → (create r req).0 ≡ created req ∷ []
unfolding create ensure_image
create_pushes_nothing r req imgs there e₁ e₂ e₃ e₄ = ground (arith, e₁, e₂, e₃, e₄)

abbrev pub sum : List ℕ → ℕ
sum [] = 0
sum (n ∷ ns) = n + sum ns

-- Percentages that grow from `last` on and do not pass 100.
abbrev pub Grows : ℕ → List ℕ → Type 0
Grows last [] = Unit
Grows last (p ∷ ps) = (last < p) × (p ≤ 100) × Grows p ps

div_mono : (a b k : ℕ) → 0 < k → a ≤ b → a / k ≤ b / k
div_mono a b k pos h =
    (le-div_iff_mul-le pos).1 (let low : a / k * k ≤ a = div-mul-le_self a k in omega arith)

percent-bounded : (a k : ℕ) → a ≤ k → a * 100 / k ≤ 100
percent-bounded a k h = div-le_of_le-mul k (omega arith)

-- While the reads of a file that is not empty stay within its size, and the last percentage
-- published is that of the bytes read, the percentages that they publish grow strictly, each
-- beyond the last one published, and none is above 100.
pub read_all-Grows :
    (pf : ProgressFile) (ns : List ℕ)
    → 0 < pf.total
    → pf.read + sum ns ≤ pf.total
    → pf.last_pct ≡ pf.read * 100 / pf.total
    → Grows pf.last_pct (read_all pf ns)
unfolding read_all read_file
read_all-Grows pf [] pos fits last = tt
read_all-Grows pf (n ∷ ns) pos fits last =
    let pct = (pf.read + n) * 100 / pf.total in
    let quiet = read_all-Grows (record pf { read = pf.read + n }) ns pos (omega arith) in
    let loud =
      read_all-Grows (record pf { read = pf.read + n; last_pct = pct }) ns pos (omega arith) refl in
    let low : pf.read * 100 / pf.total ≤ pct =
      div_mono (pf.read * 100) ((pf.read + n) * 100) pf.total pos (omega arith) in
    let high : pct ≤ 100 = percent-bounded (pf.read + n) pf.total (omega arith) in
    ground (arith, quiet, loud, low, high)
