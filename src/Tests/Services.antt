-- ===== src/Tests/Services.antt =====
-- The theorems on the orchestrator and on the image registry at concrete inputs.
use qcontroller.Base.{
  String, ◌≡◌, arith, Option, none, some, eq_iff, List, [], ◌∷◌, refl, ok, err, lookup, insert,
  delete, Dict, lookup-insert, lookup-delete, Result,
}
use qcontroller.Badger.{Codec, IsFaithful}
use qcontroller.Orchestrator.Remote.{
  Remote, Image, CreateRequest, Act, created, local_hash, has_image, read_all, ProgressFile,
  ensure_image, push_image,
}
use qcontroller.Orchestrator.Remote as RemoteNode
use qcontroller.Orchestrator.Remote.Push.{IsReady, create-IsReady, read_all-Grows, Grows}
use qcontroller.Orchestrator.Server.{Manager, Node}
use qcontroller.Images.Storage.{
  Content, Metadata, Fs, FsIsLawful, FsErr, not_exist, Hashes, Backend, store, get_metadata,
}
use qcontroller.Images.Storage.Retrieval.{IsNamed, store-IsNamed}
use qcontroller.Images.Registry.{Os, Registry, upload, receive, finish}
use qcontroller.Images.Client.{Local, messages, upload_file, download_file}
use qcontroller.Images.Client.Transfer.{LocalWorks, upload_file-download_file}
use qcontroller.Images.Registry.Transfer.{Works, joined}
use qcontroller.Tests.Memory.{memory, memory-IsLawful}

abbrev ubuntu : Image
ubuntu = record { image_id = "ubuntu"; hash = "abc" }

abbrev remote : Remote
remote = record {
  name = "node1";
  local_list = ok (ubuntu ∷ []);
  node_list = ok [];
  create_temp = none;
  download = λ id. none;
  open_temp = none;
  stat = ok 100;
  reads = 40 ∷ 60 ∷ [];
  upload = λ id. none;
  create = λ req. none;
  start = λ name. none;
  stop = λ name force. none;
  remove = λ name. none;
  info = λ name. ok [];
}

abbrev request : CreateRequest
request = record {
  name = "vm";
  image = "ubuntu";
  vm = record { cpus = 1; memory = 512; disk = 1024 };
  cloud_init = none;
}

create-IsReady_example : IsReady remote "ubuntu" × (remote.create request ≡ none)
unfolding RemoteNode.create ensure_image push_image local_hash has_image
create-IsReady_example = create-IsReady remote request refl

read_all-Grows_example :
    Grows 0 (read_all (record { total = 100; read = 0; last_pct = 0 }) (40 ∷ 60 ∷ []))
read_all-Grows_example =
    read_all-Grows (record { total = 100; read = 0; last_pct = 0 }) (40 ∷ 60 ∷ []) (omega arith)
      (omega arith) refl

abbrev manager : String → Manager
manager endpoint = record {
  endpoint = endpoint;
  create = λ req. none;
  start = λ name. none;
  stop = λ name force. none;
  remove = λ name. none;
  info = λ name. ok [];
}

abbrev connect : Node → Result String Manager
connect n = ok (manager n.endpoint)

-- two nodes of one name
abbrev nodes : List Node
nodes = record { name = "a"; endpoint = "old" } ∷ record { name = "a"; endpoint = "new" } ∷ []

abbrev metadata_codec : Codec Metadata Metadata
metadata_codec = record {
  marshal = λ m. some m;
  unmarshal = λ m. some m;
  of_string = λ s. record { image_id = s; hash = ""; file_key = ""; size = 0; uploaded_at = 0 };
  to_string = λ m. m.image_id;
}

metadata_codec-IsFaithful : IsFaithful metadata_codec
metadata_codec-IsFaithful = record {
  unmarshal-marshal = λ a b h. ground (arith, h);
  to_string-of_string = λ s. refl;
}

abbrev read_file : Option Content → Result FsErr Content
read_file none = err not_exist
read_file (some c) = ok c

abbrev files : Fs
files = record {
  Files = Dict Content;
  write = λ t k c. (insert k c t, none);
  read = λ t k. read_file (lookup k t);
  remove = λ t k. (delete k t, none);
}

files-IsLawful : FsIsLawful files
files-IsLawful = record {
  read-write = λ t k c h. ground (arith, lookup-insert k k c t, eq_iff k k);
  read-write_other = λ t k j c n. ground (arith, lookup-insert j k c t, n);
  read-remove_other = λ t k j n. ground (arith, lookup-delete j k t, n);
}

abbrev hashes : Hashes
hashes = record { of_name = λ id. id; of_content = λ c. "digest" }

abbrev Disk : Type 0
Disk = Backend memory (λ t. []) metadata_codec files hashes

abbrev disk : Disk
disk = record { db = []; files = [] }

abbrev disk₁ : Disk
disk₁ = (store memory (λ t. []) metadata_codec files hashes 5 "ubuntu" (1 ∷ 2 ∷ []) disk).0

no_ok {ℓ} : {A : Type ℓ} {E : Type 0} {e : E} {a : A} → ◌≡◌ {A = Result E A} (err e) (ok a) → ⊥
no_ok h = cc h

disk-IsNamed : IsNamed memory (λ t. []) metadata_codec files hashes disk
unfolding get_metadata lookup
disk-IsNamed = record { named = λ id m h. absurd (no_ok h) }

disk₁-IsNamed : IsNamed memory (λ t. []) metadata_codec files hashes disk₁
disk₁-IsNamed =
    store-IsNamed memory (λ t. []) metadata_codec files hashes memory-IsLawful
      metadata_codec-IsFaithful files-IsLawful 5 "ubuntu" (1 ∷ 2 ∷ []) disk disk-IsNamed

abbrev os : Os
os = record {
  open_temp = λ id. none;
  write_temp = λ c. none;
  close_temp = none;
  hash_file = λ c. ok "digest";
  reopen = none;
  send_and_close = λ id. none;
  reads = λ c. ok c ∷ [];
  send = λ c. none;
}

one_piece : (c : Content) → joined (c ∷ []) ≡ c
one_piece [] = refl
one_piece (x ∷ c) = ground (arith, one_piece c)

os-Works : Works hashes os
os-Works = record {
  opens = λ id. refl;
  writes = λ c. refl;
  closes = refl;
  hashes = λ c. refl;
  reopens = refl;
  sends = λ c. refl;
  reads_all = λ c. (c ∷ [], refl, one_piece c);
}

abbrev registry : Disk → Registry memory (λ t. []) metadata_codec files hashes
registry d = record { storage = d; events = record { queue = []; capacity = 10; cache = [] } }

abbrev client : Local
client = record {
  open_upload = none;
  send = λ c. none;
  make_dir = λ path. none;
  create = λ path. none;
  open_download = none;
  write = λ c. none;
  close = none;
}

client-LocalWorks : LocalWorks client
client-LocalWorks = record {
  opens_upload = refl;
  sends = λ c. refl;
  makes_dir = λ path. refl;
  creates = λ path. refl;
  opens_download = refl;
  writes = λ c. refl;
  closes = refl;
}

upload_file-download_file_example :
    download_file memory
      (λ t. [])
      metadata_codec
      files
      hashes
      os
      client
      "ubuntu"
      "disk.img"
      (upload_file memory
        (λ t. [])
        metadata_codec
        files
        hashes
        5
        os
        client
        "ubuntu"
        (ok (1 ∷ 2 ∷ []) ∷ ok (3 ∷ []) ∷ [])
        (registry disk)).0
    ≡ (some (1 ∷ 2 ∷ 3 ∷ []), none)
unfolding upload_file messages upload receive finish store get_metadata lookup
upload_file-download_file_example =
    upload_file-download_file memory (λ t. []) metadata_codec files hashes memory-IsLawful
      metadata_codec-IsFaithful files-IsLawful 5 os client "ubuntu" "disk.img" (1 ∷ 2 ∷ [])
      ((3 ∷ []) ∷ []) (registry disk) os-Works client-LocalWorks refl
      (omega arith, (omega arith, tt)) refl refl
