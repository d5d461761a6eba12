-- ===== src/Jwt/Examples.antt =====
-- The theorems on tokens with a codec that leaves texts as they are.
use rago_desk.Base.{
  ℕ, ◌+◌, ◌-◌, length, take, ◌≡◌, refl, Option, none, some, [], ◌∷◌, ◌++◌, nat_eq, Text, codes, ok,
  err, pos, ascii, arith, contains_text, has_prefix, drop,
}
use rago_desk.Jwt.Tokens.{
  TokenCodec, Claims, Header, one, check_claims, parse_hs256, sign_hs256, assemble,
}
use rago_desk.Jwt.Middleware.{
  AuthConfig, RequestContext, Transport, auth_middleware, is_admin_operation,
}
use rago_desk.Jwt.RoundTrip.{CodecLaws, Free, parse_hs256-sign_hs256}
use rago_desk.Jwt.Guard.{Guarded, auth_middleware-Guarded}

-- Every rune moved past the dot, and back.
abbrev up : Text → Text
up [] = []
up (c ∷ s) = (c + 47) ∷ up s

abbrev down : Text → Text
down [] = []
down (c ∷ s) = (c - 47) ∷ down s

down-up : (s : Text) → down (up s) ≡ s
down-up [] = refl
down-up (c ∷ s) = cc (down-up s, back c)
  where
    back : (c : ℕ) → c + 47 - 47 ≡ c
    back c = omega arith

up-Free : (s : Text) → Free b'.' (up s)
up-Free [] = tt
up-Free (c ∷ s) = (λ p. omega (arith, p), up-Free s)

abbrev admin : Claims
admin = record {
  tenant_id = codes "t";
  subject = codes "a1";
  issuer = codes "desk";
  audience = one (codes "console");
  expiry = pos 900;
  not_before = pos 100;
  issued_at = pos 100;
  roles = [];
}

-- A header as the length of its algorithm and both texts.
abbrev read_header : Text → Option Header
read_header [] = none
read_header (n ∷ s) = some (record { alg = take n s; typ = drop n s })

abbrev write_header : Header → Text
write_header h = length h.alg ∷ (h.alg ++ h.typ)

take-length : (a b : Text) → take (length a) (a ++ b) ≡ a
take-length [] b = refl
take-length (c ∷ a) b = cc (take-length a b)

drop-length : (a b : Text) → drop (length a) (a ++ b) ≡ b
drop-length [] b = refl
drop-length (c ∷ a) b = drop-length a b

read-write :
    (h : Header) (raw : Text) → Option.some (write_header h) ≡ some raw → read_header raw ≡ some h
read-write h raw p = rw (some_inj p) (rw (take-length h.alg h.typ, drop-length h.alg h.typ) refl)
  where
    some_inj : {a b : Text} → Option.some a ≡ some b → b ≡ a
    some_inj {a} {b} q = cc

-- JSON of headers and of one set of claims.
abbrev codec : TokenCodec
codec = record {
  encode = up;
  decode = λ s. some (down s);
  hmac = λ secret message. secret ++ message;
  marshal_header = λ h. some (write_header h);
  unmarshal_header = read_header;
  marshal_claims = λ c. some (codes "admin");
  unmarshal_claims = λ s. some admin;
}

laws : CodecLaws codec
laws = record {
  decode_encode = λ s. cc (down-up s);
  encode_free = up-Free;
  header_read = read-write;
}

abbrev token_text : Text
token_text =
    (up (write_header (record { alg = codes "HS256"; typ = codes "JWT" }))
      ++ b'.' ∷ up (codes "admin"))
    ++ b'.'
      ∷ up (
          codes "secret"
          ++ (up (write_header (record { alg = codes "HS256"; typ = codes "JWT" }))
              ++ b'.' ∷ up (codes "admin")))

parse_hs256-sign_hs256_example :
    parse_hs256 codec token_text (codes "secret") (codes "desk") (codes "console") (pos 500)
    ≡ check_claims admin (codes "desk") (codes "console") (pos 500)
unfolding sign_hs256 assemble
parse_hs256-sign_hs256_example =
    parse_hs256-sign_hs256 codec laws admin (codes "secret") (codes "desk") (codes "console")
      token_text (pos 500) (λ raw p. refl) refl

accepted : check_claims admin (codes "desk") (codes "console") (pos 500) ≡ ok admin
unfolding check_claims rago_desk.Jwt.Tokens.audience_match
accepted = refl

expired :
    check_claims admin (codes "desk") (codes "console") (pos 900)
    ≡ err (record { code = 500; reason = codes "token expired" })
unfolding check_claims
expired = refl

abbrev config : AuthConfig
config = record { jwt_secret = codes "secret"; issuer = codes "desk"; audience = [] }

abbrev request : Transport
request = record {
  operation = codes "/api.knowledge.v1.ConsoleKnowledge/ListDocuments";
  authorization = codes "Bearer x.y.z";
}

abbrev nobody : RequestContext
nobody = record { claims = none; tenant = none }

auth_middleware-Guarded_example :
    Guarded ⦃u = ascii⦄ codec
      (λ (w : ℕ). (pos w, w))
      (λ ctx w. (ok ctx.tenant, w))
      (some config)
      nobody
      request.authorization
      5
      (auth_middleware ⦃u = ascii⦄ codec
        (λ (w : ℕ). (pos w, w))
        (λ ctx w. (ok ctx.tenant, w))
        (some config)
        (some request)
        nobody
        5)
unfolding is_admin_operation contains_text has_prefix
auth_middleware-Guarded_example =
    auth_middleware-Guarded ⦃u = ascii⦄ codec (λ (w : ℕ). (pos w, w)) (λ ctx w. (ok ctx.tenant, w))
      (some config) request nobody 5 refl
