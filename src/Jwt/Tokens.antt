-- ===== src/Jwt/Tokens.antt =====
-- HS256 tokens of apps/server/internal/kit/jwt/jwt.go.
use rago_desk.Base.{
  ℕ, Bool, false, not, ◌&&◌, Option, none, some, List, [], ◌∷◌, ◌++◌, ◌==◌, nat_eq, text_eq,
  if◌then◌else◌, null, any, Text, codes, onto_first, Result, ok, err, Error, ℤ, ltℤ, leℤ, pos_part,
  neg_part,
}

-- A value of type `any`: a string, a list whose elements are strings or (`none`) others, a list of
-- strings, or anything else.
pub data Audience : Type 0 where
  one : Text → Audience
  list : List (Option Text) → Audience
  strings : List Text → Audience
  other : Audience

pub record Claims : Type 0 where
  pub tenant_id : Text
  pub subject : Text
  pub issuer : Text
  pub audience : Audience
  pub expiry : ℤ
  pub not_before : ℤ
  pub issued_at : ℤ
  pub roles : List Text

pub record Header : Type 0 where
  pub alg : Text
  pub typ : Text

-- The libraries: base64 for URLs without padding, HMAC with SHA-256 of a text under a secret, and
-- encoding/json of the two shapes.
pub record TokenCodec : Type 0 where
  pub encode : Text → Text
  pub decode : Text → Option Text
  pub hmac : Text → Text → Text
  pub marshal_header : Header → Option Text
  pub unmarshal_header : Text → Option Header
  pub marshal_claims : Claims → Option Text
  pub unmarshal_claims : Text → Option Claims

-- `ErrInvalidToken` and the others, with their messages.
abbrev pub invalid_token : Error
invalid_token = record { code = 500; reason = codes "invalid token" }

abbrev pub expired_token : Error
expired_token = record { code = 500; reason = codes "token expired" }

abbrev pub wrong_issuer : Error
wrong_issuer = record { code = 500; reason = codes "invalid issuer" }

abbrev pub wrong_audience : Error
wrong_audience = record { code = 500; reason = codes "invalid audience" }

-- strings.Split by one rune.
unfoldable pub split_on : ℕ → Text → List Text
split_on sep [] = [] ∷ []
split_on sep (c ∷ s) =
    let rest = split_on sep s in if c == sep then [] ∷ rest else onto_first c rest

abbrev pub is_text : Text → Option Text → Bool
is_text expected none = false
is_text expected (some s) = s == expected

unfoldable pub audience_match : Audience → Text → Bool
audience_match (one value) expected = value == expected
audience_match (list values) expected = any (is_text expected) values
audience_match (strings values) expected = any (λ value. value == expected) values
audience_match other expected = false

abbrev pub is_zero : ℤ → Bool
is_zero n = pos_part n == 0 && neg_part n == 0

-- The checks behind the signature.
unfoldable pub check_claims : Claims → Text → Text → ℤ → Result Claims
check_claims claims issuer audience now =
    if not (is_zero claims.expiry) && leℤ claims.expiry now
    then err expired_token
    else if not (is_zero claims.not_before) && ltℤ now claims.not_before
    then err invalid_token
    else if not (null issuer) && not (claims.issuer == issuer)
    then err wrong_issuer
    else if not (null audience) && not (audience_match claims.audience audience)
    then err wrong_audience
    else ok claims

module _ (codec : TokenCodec) where
  -- The text under the signature.
  abbrev pub signing_input : Text → Text → Text
  signing_input header payload = header ++ b'.' ∷ payload

  unfoldable pub verify_signature : Text → Text → Text → Text → Bool
  verify_signature secret header payload signature = elim (codec.decode signature) [
    | none ↦ false
    | some bytes ↦ bytes == codec.hmac secret (signing_input header payload)
  ]

  unfoldable pub header_ok : Option Text → Bool
  header_ok none = false
  header_ok (some raw) = elim (codec.unmarshal_header raw) [
    | none ↦ false
    | some h ↦ h.alg == codes "HS256"
  ]

  unfoldable pub read_claims : Option Text → Option Claims
  read_claims none = none
  read_claims (some raw) = codec.unmarshal_claims raw

  unfoldable pub parse_parts : List Text → Text → Text → Text → ℤ → Result Claims
  parse_parts (header ∷ payload ∷ signature ∷ []) secret issuer audience now =
      if not (header_ok (codec.decode header))
      then err invalid_token
      else elim (read_claims (codec.decode payload)) [
        | none ↦ err invalid_token
        | some claims ↦
            if not (verify_signature secret header payload signature)
            then err invalid_token
            else check_claims claims issuer audience now
      ]
  parse_parts _ secret issuer audience now = err invalid_token

  unfoldable pub parse_hs256 : Text → Text → Text → Text → ℤ → Result Claims
  parse_hs256 token secret issuer audience now =
      if null secret
      then err invalid_token
      else parse_parts (split_on b'.' token) secret issuer audience now

  -- The token of the two JSON texts.
  unfoldable pub assemble : Text → Option Text → Option Text → Result Text
  assemble secret none _ = err invalid_token
  assemble secret (some h) none = err invalid_token
  assemble secret (some h) (some p) =
      let input = signing_input (codec.encode h) (codec.encode p) in
      ok (input ++ b'.' ∷ codec.encode (codec.hmac secret input))

  unfoldable pub sign_hs256 : Claims → Text → Result Text
  sign_hs256 claims secret =
      if null secret
      then err invalid_token
      else assemble secret
          (codec.marshal_header (record { alg = codes "HS256"; typ = codes "JWT" }))
          (codec.marshal_claims claims)
