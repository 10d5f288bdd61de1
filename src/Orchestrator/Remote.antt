-- ===== src/Orchestrator/Remote.antt =====
-- remote_manager.go: the images and the controller of one node, over gRPC. What the services answer
-- during an operation is a `Remote`; what is asked of them, and the progress, is a list of acts.
pub mod Push
use qcontroller.Base.{
  String, ◌<>◌, ℕ, ◌≡◌, ◌≢◌, ◌*◌, ◌+◌, ◌/◌, Bool, true, false, not, ◌&&◌, Option, none, some, ◌==◌,
  List, [], ◌∷◌, ◌++◌, if◌then◌else◌, Result, ok, err, is_empty, eqb, arith, Option-cases,
  Bool-cases, inl, inr, ◌⊎◌, eq_iff, refl, ◌>>=◌, ltb,
}
use qcontroller.Vm.{Hardware, CloudInit, Info}

pub record Image : Type 0 where
  pub image_id : String
  pub hash : String

-- controller.v1.CreateRequest with its VMSpec
pub record CreateRequest : Type 0 where
  pub name : String
  pub image : String
  pub vm : Hardware
  pub cloud_init : Option CloudInit

-- `client`, `nodeImages`, `localImages` and the temporary file: an error, or nil or a value.
-- `upload` is given with the sizes of the reads that Upload makes of the file.
pub record Remote : Type 0 where
  pub name : String
  pub local_list : Result String (List Image)
  pub node_list : Result String (List Image)
  pub create_temp : Option String
  pub download : String → Option String
  pub open_temp : Option String
  pub stat : Result String ℕ
  pub reads : List ℕ
  pub upload : String → Option String
  pub create : CreateRequest → Option String
  pub start : String → Option String
  pub stop : String → Bool → Option String
  pub remove : String → Option String
  pub info : String → Result String (List Info)

pub data Act : Type 0 where
  progress : String → ℕ → Act
  downloaded : String → Act
  uploaded : String → Act
  created : CreateRequest → Act

-- `localHash` behind the loop: the hash of the first image with the id, or "".
unfoldable pub local_hash : String → List Image → String
local_hash id [] = ""
local_hash id (img ∷ imgs) = if img.image_id == id then img.hash else local_hash id imgs

-- The loop over the images of the node.
unfoldable pub has_image : String → String → List Image → Bool
has_image id hash [] = false
has_image id hash (img ∷ imgs) =
    if img.image_id == id && img.hash == hash then true else has_image id hash imgs

-- progressFile: `read` and `last_pct`. The numbers of bytes stay below 2 ^ 63 / 100.
pub record ProgressFile : Type 0 where
  pub total : ℕ
  pub read : ℕ
  pub last_pct : ℕ

-- Read, when the file gives n bytes: the percentage that it publishes, if it publishes one.
unfoldable pub read_file : ProgressFile → ℕ → ProgressFile × Option ℕ
read_file pf n =
    let now = record pf { read = pf.read + n } in
    let pct = now.read * 100 / pf.total in
    if ltb 0 pf.total && not (eqb pct pf.last_pct)
    then (record now { last_pct = pct }, some pct)
    else (now, none)

abbrev prepend : Option ℕ → List ℕ → List ℕ
prepend none ps = ps
prepend (some p) ps = p ∷ ps

-- The percentages that the reads of an upload publish.
unfoldable pub read_all : ProgressFile → List ℕ → List ℕ
unfolding read_file
read_all pf [] = []
read_all pf (n ∷ ns) = let (pf', p) = read_file pf n in prepend p (read_all pf' ns)

abbrev announce : String → List ℕ → List Act
announce id [] = []
announce id (p ∷ ps) = progress id p ∷ announce id ps

abbrev listing {ℓ} : {A : Type ℓ} → String → Result String A → Result String A
listing context (ok a) = ok a
listing context (err e) = err (context <> e)

abbrev end_upload : Remote → String → List Act → Option String → List Act × Option String
end_upload r id acts none = (acts ++ progress id 100 ∷ [], none)
end_upload r id acts (some e) = (acts, some ("upload image to " <> r.name <> ": " <> e))

-- The part of ensureImage that pushes the image.
unfoldable pub push_image : Remote → String → List Act × Option String
unfolding read_all
push_image r id = elim r.create_temp [
  | some e ↦ (progress id 0 ∷ [], some ("create temp file: " <> e))
  | none ↦ elim (r.download id) [
    | some e ↦ (progress id 0 ∷ downloaded id ∷ [], some ("download image locally: " <> e))
    | none ↦ elim r.open_temp [
      | some e ↦ (progress id 0 ∷ downloaded id ∷ [], some ("open temp file: " <> e))
      | none ↦ elim r.stat [
        | err e ↦ (progress id 0 ∷ downloaded id ∷ [], some ("stat temp file: " <> e))
        | ok size ↦
            end_upload r id
              (progress id 0
                ∷ downloaded id
                ∷ uploaded id
                ∷ announce id (read_all (record { total = size; read = 0; last_pct = 0 }) r.reads))
              (r.upload id)
      ]
    ]
  ]
]

-- ensureImage
unfoldable pub ensure_image : Remote → String → List Act × Option String
unfolding push_image local_hash has_image
ensure_image r id = elim r.local_list [
  | err e ↦ ([], some ("list local images: " <> e))
  | ok imgs ↦
      if is_empty (local_hash id imgs)
      then ([], some ("image " <> id <> " not found locally"))
      else (elim r.node_list [
        | err e ↦ ([], some ("list remote images: " <> e))
        | ok there ↦ if has_image id (local_hash id imgs) there then ([], none) else push_image r id
      ])
]

abbrev wrap : String → Option String → Option String
wrap context none = none
wrap context (some e) = some (context <> e)

abbrev create_behind : Remote → CreateRequest → List Act × Option String → List Act × Option String
create_behind r req (acts, some e) = (acts, some ("ensure image on " <> r.name <> ": " <> e))
create_behind r req (acts, none) =
    (acts ++ created req ∷ [], wrap ("create on " <> r.name <> ": ") (r.create req))

-- Create
unfoldable pub create : Remote → CreateRequest → List Act × Option String
unfolding ensure_image
create r req = create_behind r req (ensure_image r req.image)

-- Start, Stop, Remove and Info
unfoldable pub start : Remote → String → Option String
start r name = wrap ("start on " <> r.name <> ": ") (r.start name)

unfoldable pub stop : Remote → String → Bool → Option String
stop r name force = wrap ("stop on " <> r.name <> ": ") (r.stop name force)

unfoldable pub remove : Remote → String → Option String
remove r name = wrap ("remove on " <> r.name <> ": ") (r.remove name)

unfoldable pub info : Remote → String → Result String (List Info)
info r name = listing ("info on " <> r.name <> ": ") (r.info name)
