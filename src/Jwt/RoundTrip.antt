-- ===== src/Jwt/RoundTrip.antt =====
-- Signing and parsing of apps/server/internal/kit/jwt/jwt.go.
use rago_desk.Base.{
  ℕ, ◌≡◌, ◌≢◌, ◌∙◌, refl, ap, true, Option, none, some, [], ◌∷◌, ◌++◌, append_assoc, ◌==◌, nat_eq,
  text_eq, null, Text, codes, All, Result, ok, ℤ, Bool-cases, inl, inr, eq_refl,
}
use rago_desk.Jwt.Tokens.{
  TokenCodec, Claims, Header, split_on, check_claims, verify_signature, header_ok, read_claims,
  parse_parts, parse_hs256, assemble, sign_hs256, signing_input,
}

abbrev pub Free : ℕ → Text → Type 0
Free sep s = All (λ c. c ≢ sep) s

split_on-part :
    (sep : ℕ) (l s : Text) → Free sep l → split_on sep (l ++ sep ∷ s) ≡ l ∷ split_on sep s
unfolding split_on
split_on-part sep [] s h = rw (eq_refl sep) refl
split_on-part sep (c ∷ l) s (hc, h) = elim (Bool-cases (c == sep)) [
  | inl e ↦ absurd (hc ((nat_eq.same_iff c sep).0 e))
  | inr e ↦ rw (e, split_on-part sep l s h) refl
]

split_on-last : (sep : ℕ) (l : Text) → Free sep l → split_on sep l ≡ l ∷ []
unfolding split_on
split_on-last sep [] h = refl
split_on-last sep (c ∷ l) (hc, h) = elim (Bool-cases (c == sep)) [
  | inl e ↦ absurd (hc ((nat_eq.same_iff c sep).0 e))
  | inr e ↦ rw (e, split_on-last sep l h) refl
]

-- What the libraries promise: base64 is read back and has no dot in it, and JSON of a header is read
-- back.
pub record CodecLaws (codec : TokenCodec) : Type 0 where
  pub decode_encode : (bytes : Text) → codec.decode (codec.encode bytes) ≡ some bytes
  pub encode_free : (bytes : Text) → Free b'.' (codec.encode bytes)
  pub header_read :
      (h : Header) (raw : Text)
      → codec.marshal_header h ≡ some raw
      → codec.unmarshal_header raw ≡ some h

module _ (codec : TokenCodec) (laws : CodecLaws codec) (claims : Claims) (secret : Text) where
  three_parts :
      (h p s : Text)
      → split_on b'.' ((codec.encode h ++ b'.' ∷ codec.encode p) ++ b'.' ∷ codec.encode s)
        ≡ codec.encode h ∷ codec.encode p ∷ codec.encode s ∷ []
  three_parts h p s =
      ap (split_on b'.')
        (append_assoc (codec.encode h) (b'.' ∷ codec.encode p) (b'.' ∷ codec.encode s))
      ∙ split_on-part b'.' (codec.encode h) _ (laws.encode_free h)
      ∙ ap (λ parts. codec.encode h ∷ parts)
          (split_on-part b'.' (codec.encode p) (codec.encode s) (laws.encode_free p)
            ∙ ap (λ parts. codec.encode p ∷ parts)
                (split_on-last b'.' (codec.encode s) (laws.encode_free s)))

  assembled :
      (h : Option Text) (p : Option Text) (token : Text)
      → assemble codec secret h p ≡ ok token
      → (raw_header : Text) × (raw : Text) × ((h ≡ some raw_header)
          × (p ≡ some raw)
          × (token
              ≡ (codec.encode raw_header ++ b'.' ∷ codec.encode raw)
                ++ b'.'
                  ∷ codec.encode
                      (codec.hmac secret (codec.encode raw_header ++ b'.' ∷ codec.encode raw))))
  unfolding assemble
  assembled none p token e = absurd (cc e)
  assembled (some h) none token e = absurd (cc e)
  assembled (some h) (some p) token e = (h, p, (refl, refl, ok_inj e))
    where
      ok_inj : {a b : Text} → Result.ok a ≡ ok b → b ≡ a
      ok_inj {a} {b} q = cc

  good_header :
      (raw : Text)
      → codec.unmarshal_header raw ≡ some (record { alg = codes "HS256"; typ = codes "JWT" })
      → header_ok codec (some raw) ≡ true
  unfolding header_ok
  good_header raw h = rw (header_ok, h) refl

  good_claims :
      (raw : Text)
      → codec.unmarshal_claims raw ≡ some claims
      → read_claims codec (some raw) ≡ some claims
  unfolding read_claims
  good_claims raw c = c

  good_signature :
      (header payload : Text)
      → verify_signature codec secret header payload
          (codec.encode (codec.hmac secret (signing_input codec header payload)))
        ≡ true
  unfolding verify_signature
  good_signature header payload =
      rw
        (
          verify_signature,
          laws.decode_encode (codec.hmac secret (signing_input codec header payload)),
        )
        (eq_refl (codec.hmac secret (signing_input codec header payload)))

  parts_accepted :
      (raw_header raw issuer audience : Text) (now : ℤ)
      → codec.unmarshal_header raw_header ≡ some (record { alg = codes "HS256"; typ = codes "JWT" })
      → codec.unmarshal_claims raw ≡ some claims
      → parse_parts codec
          (codec.encode raw_header
            ∷ codec.encode raw
            ∷ codec.encode (
                codec.hmac secret
                  (signing_input codec (codec.encode raw_header) (codec.encode raw)))
            ∷ [])
          secret
          issuer
          audience
          now
        ≡ check_claims claims issuer audience now
  unfolding parse_parts
  parts_accepted raw_header raw issuer audience now h c =
      rw
        (
          laws.decode_encode raw_header,
          laws.decode_encode raw,
          good_header raw_header h,
          good_claims raw c,
          good_signature (codec.encode raw_header) (codec.encode raw),
        )
        refl

-- If base64 and the JSON of headers and of these claims are read back, a token that was signed from
-- claims is answered, under the same secret and at whatever time, as the checks of the expiry, the
-- start, the issuer and the audience answer those very claims.
pub parse_hs256-sign_hs256 :
    (codec : TokenCodec) (laws : CodecLaws codec) (claims : Claims)
    (secret issuer audience token : Text) (now : ℤ)
    → ((raw : Text)
        → codec.marshal_claims claims ≡ some raw
        → codec.unmarshal_claims raw ≡ some claims)
    → sign_hs256 codec claims secret ≡ ok token
    → parse_hs256 codec token secret issuer audience now ≡ check_claims claims issuer audience now
unfolding sign_hs256 parse_hs256
parse_hs256-sign_hs256 codec laws claims secret issuer audience token now read =
    elim (Bool-cases (null secret)) [
      | inl e ↦ rw (sign_hs256, e) (λ h. absurd (cc h))
      | inr e ↦
          rw (sign_hs256, parse_hs256, e)
            (λ h.
              let (raw_header, raw, facts) = assembled codec laws claims secret _ _ token h in
              rw (facts.2, three_parts codec laws claims secret raw_header raw _)
                (parts_accepted codec laws claims secret raw_header raw issuer audience now
                  (laws.header_read _ raw_header facts.0) (read raw facts.1)))
    ]
