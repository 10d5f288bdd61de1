-- ===== src/Auth/Cookie.antt =====
-- src/pkg/auth/cookie.go: signed values with an expiry, as lists of bytes. JSON, base64 and HMAC
-- are the parameter `P`, for values of type V; times are in seconds.
use qcontroller.Base.{
  ℕ, ◌+◌, Bool, true, false, ◌&&◌, ◌≡◌, arith, List, [], ◌∷◌, ◌++◌, if◌then◌else◌, Option, some,
  none, refl, eqb, ltb, Result, ok, err, All, ap, ◌∙◌, Bool-cases, Option-cases, inl, inr,
}

abbrev pub Bytes : Type 0
Bytes = List ℕ

pub data CookieErr : Type 0 where
  malformed bad_signature bad_encoding expired : CookieErr

pub record Primitives (V : Type 0) : Type 0 where
  pub marshal : V → Option Bytes
  pub unmarshal : Bytes → Option V
  -- a signedEnvelope: its data and its expiry
  pub marshal_envelope : Bytes → ℕ → Option Bytes
  pub unmarshal_envelope : Bytes → Option (Bytes × ℕ)
  pub encode_base64 : Bytes → Bytes
  pub decode_base64 : Bytes → Option Bytes
  pub hmac : Bytes → Bytes → Bytes

-- '.' is not in the alphabet of base64url, and what is encoded is decoded again.
pub record IsFaithful {V : Type 0} (P : Primitives V) : Type 0 where
  pub value : (v : V) (b : Bytes) → P.marshal v ≡ some b → P.unmarshal b ≡ some v
  pub envelope :
      (d : Bytes) (e : ℕ) (b : Bytes)
      → P.marshal_envelope d e ≡ some b
      → P.unmarshal_envelope b ≡ some (d, e)
  pub base64 : (b : Bytes) → P.decode_base64 (P.encode_base64 b) ≡ some b
  pub no_dot : (b : Bytes) → All (λ c. eqb c b'.' ≡ false) (P.encode_base64 b)

abbrev pub bytes_equal : Bytes → Bytes → Bool
bytes_equal [] [] = true
bytes_equal [] (_ ∷ _) = false
bytes_equal (_ ∷ _) [] = false
bytes_equal (a ∷ xs) (b ∷ ys) = eqb a b && bytes_equal xs ys

-- The parts before and behind the first '.'.
abbrev pub cut_dot : Bytes → Option (Bytes × Bytes)
cut_dot [] = none
cut_dot (c ∷ cs) =
    let rest = cut_dot cs in
    if eqb c b'.'
    then some ([], cs)
    else elim rest [ none ↦ none | some (enc, sig) ↦ some (c ∷ enc, sig) ]

module _ {V : Type 0} (P : Primitives V) where
  abbrev sign : Bytes → Bytes → Bytes
  sign secret enc = P.encode_base64 (P.hmac secret enc)

  -- encodeSigned; `none` is a failure of json.Marshal
  unfoldable pub encode_signed : Bytes → V → ℕ → ℕ → Option Bytes
  encode_signed secret v ttl now = elim (P.marshal v) [
    | none ↦ none
    | some value ↦ elim (P.marshal_envelope value (now + ttl)) [
      | none ↦ none
      | some env ↦ let enc = P.encode_base64 env in some (enc ++ b'.' ∷ sign secret enc)
    ]
  ]

  open_envelope : Bytes → ℕ → Result CookieErr V
  open_envelope enc now = elim (P.decode_base64 enc) [
    | none ↦ err bad_encoding
    | some b ↦ elim (P.unmarshal_envelope b) [
      | none ↦ err bad_encoding
      | some (value, exp) ↦
          if ltb exp now
          then err expired
          else (elim (P.unmarshal value) [ none ↦ err bad_encoding | some v ↦ ok v ])
    ]
  ]

  -- decodeSigned
  unfoldable pub decode_signed : Bytes → Bytes → ℕ → Result CookieErr V
  unfolding open_envelope
  decode_signed secret raw now = elim (cut_dot raw) [
    | none ↦ err malformed
    | some (enc, sig) ↦
        if bytes_equal sig (sign secret enc) then open_envelope enc now else err bad_signature
  ]

bytes_equal_refl : (b : Bytes) → bytes_equal b b ≡ true
bytes_equal_refl [] = refl
bytes_equal_refl (c ∷ cs) = ground (arith, bytes_equal_refl cs)

bytes_equal-eq : (a b : Bytes) → bytes_equal a b ≡ true → a ≡ b
bytes_equal-eq [] [] h = refl
bytes_equal-eq [] (_ ∷ _) h = absurd (cc h)
bytes_equal-eq (_ ∷ _) [] h = absurd (cc h)
bytes_equal-eq (a ∷ xs) (b ∷ ys) h = ground (arith, bytes_equal-eq xs ys)

cut_dot-append :
    (enc sig : Bytes)
    → All (λ c. eqb c b'.' ≡ false) enc
    → cut_dot (enc ++ b'.' ∷ sig) ≡ some (enc, sig)
cut_dot-append [] sig h = refl
cut_dot-append (c ∷ enc) sig h = ground (arith, cut_dot-append enc sig h.1, h.0)

cut_dot_sound : (raw enc sig : Bytes) → cut_dot raw ≡ some (enc, sig) → raw ≡ enc ++ b'.' ∷ sig
cut_dot_sound [] enc sig h = absurd (cc h)
cut_dot_sound (c ∷ cs) enc sig h = elim (Bool-cases (eqb c b'.')) [
  | inl e ↦ ground (arith, e)
  | inr n ↦ elim (Option-cases (cut_dot cs)) [
    | inl e ↦ absurd (ground (arith, n, e))
    | inr (parts, e) ↦ ground (arith, n, e, cut_dot_sound cs parts.0 parts.1 e)
  ]
]

module _ {V : Type 0} (P : Primitives V) where
  -- With faithful primitives, reading a cookie that was written with the same secret gives the
  -- value, up to and including the second of its expiry, and the error for an expired cookie from
  -- then on.
  pub decode_signed-encode_signed :
      (secret : Bytes) (v : V) (ttl now later : ℕ) (raw : Bytes)
      → IsFaithful P
      → encode_signed P secret v ttl now ≡ some raw
      → decode_signed P secret raw later ≡ (if ltb (now + ttl) later then err expired else ok v)
  unfolding encode_signed decode_signed
  decode_signed-encode_signed secret v ttl now later raw F h = elim (Option-cases (P.marshal v)) [
    | inl e ↦ absurd (ground (arith, e))
    | inr (value, e) ↦ elim (Option-cases (P.marshal_envelope value (now + ttl))) [
      | inl f ↦ absurd (ground (arith, e, f))
      | inr (env, f) ↦
          let enc = P.encode_base64 env in
          let sig = P.encode_base64 (P.hmac secret enc) in
          ground (
            arith,
            e,
            f,
            cut_dot-append enc sig (F.no_dot env),
            bytes_equal_refl sig,
            F.base64 env,
            F.envelope value (now + ttl) env f,
            F.value v value e,
          )
    ]
  ]

  open_envelope_ok :
      (enc : Bytes) (now : ℕ) (v : V)
      → open_envelope P enc now ≡ ok v
      → (env value : Bytes) × (exp : ℕ) × (P.decode_base64 enc ≡ some env)
        × (P.unmarshal_envelope env ≡ some (value, exp))
        × (ltb exp now ≡ false)
        × (P.unmarshal value ≡ some v)
  unfolding open_envelope
  open_envelope_ok enc now v h = elim (Option-cases (P.decode_base64 enc)) [
    | inl e ↦ absurd (ground (arith, e))
    | inr (env, e₁) ↦ elim (Option-cases (P.unmarshal_envelope env)) [
      | inl e ↦ absurd (ground (arith, e₁, e))
      | inr ((value, exp), e₂) ↦ elim (Option-cases (P.unmarshal value)) [
        | inl e ↦ absurd (ground (arith, e₁, e₂, e))
        | inr (x, e₃) ↦
            (env, value, exp, e₁, e₂, ground (arith, e₁, e₂, e₃), ground (arith, e₁, e₂, e₃))
      ]
    ]
  ]

  -- A cookie that is accepted is a text, a dot and the signature of that text under the secret;
  -- and the text is the encoding of an envelope that has not expired and that holds the value.
  pub decode_signed-authentic :
      (secret raw : Bytes) (now : ℕ) (v : V)
      → decode_signed P secret raw now ≡ ok v
      → (enc env value : Bytes) × (exp : ℕ) × (raw
          ≡ enc ++ b'.' ∷ P.encode_base64 (P.hmac secret enc))
        × (P.decode_base64 enc ≡ some env)
        × (P.unmarshal_envelope env ≡ some (value, exp))
        × (ltb exp now ≡ false)
        × (P.unmarshal value ≡ some v)
  unfolding decode_signed
  decode_signed-authentic secret raw now v h = elim (Option-cases (cut_dot raw)) [
    | inl e ↦ absurd (ground (arith, e))
    | inr ((enc, sig), e) ↦
        let (env, value, exp, e₁, e₂, e₃, e₄) = open_envelope_ok enc now v (ground (arith, e)) in
        (
          enc,
          env,
          value,
          exp,
          cut_dot_sound raw enc sig e
              ∙ ap (λ s. enc ++ b'.' ∷ s)
                  (bytes_equal-eq sig (P.encode_base64 (P.hmac secret enc)) (ground (arith, e))),
          e₁,
          e₂,
          e₃,
          e₄,
        )
  ]
