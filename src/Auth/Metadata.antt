-- ===== src/Auth/Metadata.antt =====
-- src/pkg/auth/grpc.go: the identity in gRPC metadata, a list of pairs of a key and a value.
use qcontroller.Base.{
  String, Bool, true, false, not, ◌&&◌, ◌||◌, ◌≡◌, arith, List, [], ◌∷◌, ◌++◌, if◌then◌else◌,
  Option, some, none, refl, is_empty, ◌==◌, eq_iff, ◌∙◌,
}
use qcontroller.Auth.Http.{Identity}

abbrev pub Metadata : Type 0
Metadata = List (String × String)

abbrev pub md_subject : String
md_subject = "x-qctl-user-subject"

abbrev pub md_email : String
md_email = "x-qctl-user-email"

abbrev pub md_name : String
md_name = "x-qctl-user-name"

abbrev pub md_issued_by : String
md_issued_by = "x-qctl-user-issued-by"

abbrev pair_if : String → String → Metadata
pair_if key value = if is_empty value then [] else (key, value) ∷ []

-- UnaryClientInterceptor: the outgoing metadata of a call.
unfoldable pub client_metadata : Option Identity → Metadata → Metadata
client_metadata none md = md
client_metadata (some id) md =
    if not (is_empty id.subject) && not (id.issued_by == "anonymous")
    then md
      ++ ((md_subject, id.subject)
          ∷ (md_issued_by, id.issued_by)
          ∷ (pair_if md_email id.email ++ pair_if md_name id.name))
    else md

-- mdFirst
unfoldable pub md_first : Metadata → String → String
md_first [] key = ""
md_first ((k, v) ∷ md) key = if k == key then v else md_first md key

-- UnaryServerInterceptor: the identity that the handler's context gets, given the one it has.
unfoldable pub server_identity : Metadata → Option Identity → Option Identity
unfolding md_first
server_identity md context =
    let sub = md_first md md_subject in
    if is_empty sub
    then context
    else some (record {
      subject = sub;
      email = md_first md md_email;
      name = md_first md md_name;
      groups = [];
      issued_by = md_first md md_issued_by;
    })

abbrev pub has_key : Metadata → String → Bool
has_key [] key = false
has_key ((k, v) ∷ md) key = if k == key then true else has_key md key

md_first-append :
    (md more : Metadata) (key : String)
    → has_key md key ≡ false
    → md_first (md ++ more) key ≡ md_first more key
unfolding md_first
md_first-append [] more key h = refl
md_first-append ((k, v) ∷ md) more key h = ground (arith, md_first-append md more key)

md_first-pair_if :
    (k j v : String) (rest : Metadata)
    → md_first (pair_if k v ++ rest) j
      ≡ (if k == j then (if is_empty v then md_first rest j else v) else md_first rest j)
unfolding md_first
md_first-pair_if k j v rest = ground arith

-- `pair_if` at the end of the list
md_first-last : (k j v : String) → md_first (pair_if k v) j ≡ (if k == j then v else "")
unfolding md_first
md_first-last k j v = ground (arith, eq_iff v "")

-- What an identity adds to the metadata.
abbrev sent : Identity → Metadata
sent id =
    (md_subject, id.subject)
    ∷ (md_issued_by, id.issued_by)
    ∷ (pair_if md_email id.email ++ pair_if md_name id.name)

module _ (id : Identity) where
  sent_subject : md_first (sent id) md_subject ≡ id.subject
  unfolding md_first
  sent_subject = refl

  sent_issued_by : md_first (sent id) md_issued_by ≡ id.issued_by
  unfolding md_first
  sent_issued_by = refl

  sent_email : md_first (sent id) md_email ≡ id.email
  unfolding md_first
  sent_email =
      md_first-pair_if md_email md_email id.email (pair_if md_name id.name)
      ∙ ground (arith, md_first-last md_name md_email id.name, eq_iff id.email "")

  sent_name : md_first (sent id) md_name ≡ id.name
  unfolding md_first
  sent_name =
      md_first-pair_if md_email md_name id.email (pair_if md_name id.name)
      ∙ md_first-last md_name md_name id.name

-- A named identity that one service sends is the one that the next reads, but for its groups,
-- which do not travel; the metadata must not have the four keys already.
pub identity_travels :
    (id : Identity) (md : Metadata)
    → is_empty id.subject ≡ false
    → (id.issued_by == "anonymous") ≡ false
    → has_key md md_subject ≡ false
    → has_key md md_email ≡ false
    → has_key md md_name ≡ false
    → has_key md md_issued_by ≡ false
    → server_identity (client_metadata (some id) md) none ≡ some (record id { groups = [] })
unfolding server_identity client_metadata
identity_travels id md s i h₁ h₂ h₃ h₄ =
    rw (s, i)
      (ground (
        arith,
        s,
        md_first-append md (sent id) md_subject h₁,
        md_first-append md (sent id) md_email h₂,
        md_first-append md (sent id) md_name h₃,
        md_first-append md (sent id) md_issued_by h₄,
        sent_subject id,
        sent_issued_by id,
        sent_email id,
        sent_name id,
      ))

-- The anonymous identity, one with no subject, and a missing one leave the metadata as it is.
pub anonymous_stays :
    (id : Identity) (md : Metadata)
    → (is_empty id.subject || id.issued_by == "anonymous") ≡ true
    → client_metadata (some id) md ≡ md
unfolding client_metadata
anonymous_stays id md h = ground arith
