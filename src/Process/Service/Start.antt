-- ===== src/Process/Service/Start.antt =====
-- What a Start of process.go that succeeds has done.
use qcontroller.Base.{String, ◌≡◌, ◌≢◌, ◌⊎◌, inl, inr, ℕ, false, none, List, ok, arith, refl}
use qcontroller.LocalManager.{StartRequest}
use qcontroller.Process.Service.{
  Host, Stat, present, is_not_exist, stat_error, start, launch, as_config, has_id, ensure_image,
  ensure_interface,
}

stat_cases : (s : Stat) → (s ≡ is_not_exist) ⊎ (s ≢ is_not_exist)
stat_cases present = inr (λ e. cc e)
stat_cases is_not_exist = inl refl
stat_cases stat_error = inr (λ e. cc e)

ensure_image-none :
    (h : Host) (req : StartRequest)
    → ensure_image h req ≡ none
    → (h.stat_image req.id ≢ is_not_exist)
      ⊎ ((h.download req.image_id req.id ≡ none) × (h.finalize req.id ≡ none))
ensure_image-none h req e = elim (stat_cases (h.stat_image req.id)) [
  | inr n ↦ inl n
  | inl m ↦ inr (ground (arith, m), ground (arith, m))
]

-- When Start succeeds, no Start of the id was in progress, a missing image was downloaded and put in
-- its place, the interface was made if there is a network manager, and the instance that goes to the
-- lifecycle loop is what QEMU gave for the hardware, address and cloud-init of the request.
pub start_launches :
    (h : Host) (starting : List String) (req : StartRequest) (i : ℕ)
    → start h starting req ≡ ok i
    → (has_id req.id starting ≡ false)
      × ((h.stat_image req.id ≢ is_not_exist)
          ⊎ ((h.download req.image_id req.id ≡ none) × (h.finalize req.id ≡ none)))
      × (ensure_interface h req.id ≡ none)
      × (h.start_qemu req.id (as_config req) ≡ ok i)
unfolding start launch
start_launches h starting req i e =
    (ground arith, ensure_image-none h req (ground arith), ground arith, ground arith)
