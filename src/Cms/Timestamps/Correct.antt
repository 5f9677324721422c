-- ===== src/Cms/Timestamps/Correct.antt =====
-- What the timestamps of ietf-cms/timestamp.go attest.
use git_kmssign.Base.{
  ℕ, not-eq-false, suc, ◌≡◌, ◌≢◌, refl, sym, ap, ◌∙◌, subst, not, true, List, [], ◌∷◌, ◌++◌, Bytes,
  length, ◌==◌, Option, none, some, Result, ok, err, panic, stuck, fail_if, or_panic, >>=-eq-ok,
  ok-injective, fail_if-eq-ok, unsupported, invalid_message_imprint,
}
use git_kmssign.Base.Int.{pos}
use git_kmssign.Base.Text.{Text}
use git_kmssign.Cert.{Hash}
use git_kmssign.Oids.{attribute_time_stamp_token, crypto_hash_to_digest_algorithm}
use git_kmssign.Protocol.{algorithm_of, RawValue, Attribute, SignerInfo, SignedData, Asn1}
use git_kmssign.Protocol.Attributes.{get_only_attribute_value_bytes}
use git_kmssign.Protocol.Messages.{parse_signed_data}
use git_kmssign.Protocol.Signers.{eq_ℤ, signer_hash}
use git_kmssign.Protocol.Signing.{Crypto, new_attribute}
use git_kmssign.Timestamp.{MessageImprint, Request, Info, Response, Asn1Time, Exchange}
use git_kmssign.Timestamp.Imprint.{new_message_imprint, imprint_hash, imprint_equal}
use git_kmssign.Timestamp.Service.{
  big_endian, generate_nonce, request_do, request_matches, parse_info, response_info,
}
use git_kmssign.Timestamp.Correct.{
  SameImprint, imprint_equal_iff, request_matches_iff, Holds, parse_info-Holds, eq_ℤ_iff,
}
use git_kmssign.Cms.Options.{Pool, VerifyOptions}
use git_kmssign.Cms.Timestamps.{
  append_attributes, ts_request, fetch_ts, fetch_all, with_fetched, add_timestamps, get_timestamp,
}

some-panic-eq-ok : {A : Type 0} (o : Option A) {a : A} → or_panic o ≡ ok a → o ≡ some a
some-panic-eq-ok none h = cc
some-panic-eq-ok (some a) h = cc

module _ (crypto : Crypto) where
  -- The imprint of bytes.
  abbrev pub imprint_of : Hash → Bytes → MessageImprint
  imprint_of hash message = record {
    hash_algorithm = algorithm_of (crypto_hash_to_digest_algorithm hash);
    hashed_message = crypto.digest hash message;
  }

  new_message_imprint-eq :
      (hash : Hash) (message : Bytes) {mi : MessageImprint}
      → new_message_imprint crypto hash message ≡ ok mi
      → imprint_of hash message ≡ mi
  unfolding new_message_imprint
  new_message_imprint-eq hash message h =
      let (_, _, h₁) =
        >>=-eq-ok (fail_if (length (crypto_hash_to_digest_algorithm hash) == 0) unsupported) _ h in
      let (_, _, h₂) = >>=-eq-ok (fail_if (not (crypto.available hash)) unsupported) _ h₁ in
      ok-injective h₂

module _ (asn1 : Asn1) (time : Asn1Time) (crypto : Crypto) where
  -- The request of a signer: the imprint of its signature, and a nonce.
  ts_request-eq :
      (random : Option Bytes) (si : SignerInfo) {req : Request}
      → ts_request asn1 time crypto random si ≡ ok req
      → (hash : Hash) × (buf : Bytes) × (signer_hash crypto.available si ≡ ok hash)
        × (random ≡ some buf)
        × (imprint_of crypto hash si.signature ≡ req.message_imprint)
        × (req.nonce ≡ some (pos (big_endian 0 buf)))
        × (req.cert_req ≡ true)
  unfolding ts_request generate_nonce
  ts_request-eq random si h =
      let (hash, e₁, h₁) = >>=-eq-ok (signer_hash crypto.available si) _ h in
      let (mi, e₂, h₂) = >>=-eq-ok (new_message_imprint crypto hash si.signature) _ h₁ in
      let (nonce, e₃, h₃) = >>=-eq-ok (generate_nonce random) _ h₂ in
      let (buf, e₄, h₄) = >>=-eq-ok (or_panic random) _ e₃ in
      let req' = ok-injective h₃ in
      (
        hash,
        buf,
        e₁,
        some-panic-eq-ok random e₄,
        new_message_imprint-eq crypto hash si.signature e₂
            ∙ ap (λ (r : Request). r.message_imprint) req',
        ap (λ (r : Request). r.nonce) (sym req') ∙ ap (λ n. some n) (sym (ok-injective h₄)),
        ap (λ (r : Request). r.cert_req) (sym req'),
      )

  -- An attribute that holds a token of the service, for a request with the imprint of the signature and
  -- a nonce of random bytes, which the token names, and for the certificates.
  pub record Fetched (world : Exchange) (url : Text) (si : SignerInfo) (attr : Attribute)
      : Type 0 where
    pub hash : Hash
    pub buf : Bytes
    pub req : Request
    pub resp : Response
    pub tsti : Info
    pub is_hash : signer_hash crypto.available si ≡ ok hash
    pub is_random : world.random ≡ some buf
    pub asks_imprint : req.message_imprint ≡ imprint_of crypto hash si.signature
    pub asks_nonce : req.nonce ≡ some (pos (big_endian 0 buf))
    pub asks_certs : req.cert_req ≡ true
    pub is_answer : request_do time world url req ≡ ok resp
    pub is_info : response_info time asn1 resp ≡ ok tsti
    pub is_imprint : SameImprint (imprint_of crypto hash si.signature) tsti.message_imprint
    pub is_nonce : tsti.nonce ≡ some (pos (big_endian 0 buf))
    pub is_attribute :
        new_attribute asn1 attribute_time_stamp_token
          (asn1.marshal_content_info resp.time_stamp_token)
        ≡ ok attr

  pub fetch_ts-Fetched :
      (world : Exchange) (url : Text) (si : SignerInfo) (attr : Attribute)
      → fetch_ts asn1 time crypto world url si ≡ ok attr
      → Fetched world url si attr
  unfolding fetch_ts
  fetch_ts-Fetched world url si attr h =
      let (req, e₁, h₁) = >>=-eq-ok (ts_request asn1 time crypto world.random si) _ h in
      let (resp, e₂, h₂) = >>=-eq-ok (request_do time world url req) _ h₁ in
      let (tsti, e₃, h₃) = >>=-eq-ok (response_info time asn1 resp) _ h₂ in
      let (matches, e₄, h₄) = >>=-eq-ok (request_matches req tsti) _ h₃ in
      let (_, e₅, h₅) = >>=-eq-ok (fail_if (not matches) invalid_message_imprint) _ h₄ in
      let yes_matches = not-eq-false (fail_if-eq-ok (not matches) invalid_message_imprint e₅) in
      let (hash, buf, is_hash, is_random, imprint, nonce, certs) =
        ts_request-eq world.random si e₁ in
      let (same, echoed) = (request_matches_iff req tsti _ nonce).0 (e₄ ∙ ap ok yes_matches) in
      record {
        hash = hash;
        buf = buf;
        req = req;
        resp = resp;
        tsti = tsti;
        is_hash = is_hash;
        is_random = is_random;
        asks_imprint = sym imprint;
        asks_nonce = nonce;
        asks_certs = certs;
        is_answer = e₂;
        is_info = e₃;
        is_imprint = subst (λ mi. SameImprint mi tsti.message_imprint) (sym imprint) same;
        is_nonce = echoed;
        is_attribute = h₅;
      }

  -- Each signer has one more unsigned attribute, with what its exchange fetched.
  pub data Timestamped (worlds : ℕ → Exchange) (url : Text)
      : ℕ → List SignerInfo → List SignerInfo → Type 0 where
    none_left : {i : ℕ} → Timestamped worlds url i [] []
    one_more :
        {i : ℕ} {si : SignerInfo} {infos infos' : List SignerInfo} {attr : Attribute}
        → Fetched (worlds i) url si attr
        → Timestamped worlds url (suc i) infos infos'
        → Timestamped worlds url i
            (si ∷ infos)
            (record si { unsigned_attrs = si.unsigned_attrs ++ (attr ∷ []) } ∷ infos')

  fetch_all-Timestamped :
      (worlds : ℕ → Exchange) (url : Text) (i : ℕ) (infos : List SignerInfo)
      (attrs : List Attribute)
      → fetch_all asn1 time crypto worlds url i infos ≡ ok attrs
      → Timestamped worlds url i infos (append_attributes infos attrs)
  unfolding fetch_all append_attributes
  fetch_all-Timestamped worlds url i [] attrs h = none_left
  fetch_all-Timestamped worlds url i (si ∷ infos) attrs h =
      let (attr, e₁, h₁) = >>=-eq-ok (fetch_ts asn1 time crypto (worlds i) url si) _ h in
      let (rest, e₂, h₂) = >>=-eq-ok (fetch_all asn1 time crypto worlds url (suc i) infos) _ h₁ in
      let goal : List Attribute → Type 0 =
        λ l. Timestamped worlds url i (si ∷ infos) (append_attributes (si ∷ infos) l) in
      subst goal (ok-injective h₂) (
        one_more (fetch_ts-Fetched (worlds i) url si attr e₁)
          (fetch_all-Timestamped worlds url (suc i) infos rest e₂))

  -- What AddTimestamps may leave.
  pub data AddsTimestamps (worlds : ℕ → Exchange) (url : Text) (sd : SignedData)
      : Result (Unit {0}) → SignedData → Type 0 where
    failed_whole : {r : Result (Unit {0})} → r ≢ ok tt → AddsTimestamps worlds url sd r sd
    added :
        {infos : List SignerInfo}
        → Timestamped worlds url 0 sd.signer_infos infos
        → AddsTimestamps worlds url sd (ok tt) (record sd { signer_infos = infos })

  with_fetched-Adds :
      (worlds : ℕ → Exchange) (url : Text) (sd : SignedData) (fetched : Result (List Attribute))
      → fetch_all asn1 time crypto worlds url 0 sd.signer_infos ≡ fetched
      → AddsTimestamps worlds url sd
          (with_fetched asn1 time crypto sd fetched).0
          (with_fetched asn1 time crypto sd fetched).1
  with_fetched-Adds worlds url sd (ok attrs) h =
      added (fetch_all-Timestamped worlds url 0 sd.signer_infos attrs h)
  with_fetched-Adds worlds url sd (err e) h = failed_whole (λ e'. cc)
  with_fetched-Adds worlds url sd panic h = failed_whole (λ e'. cc)
  with_fetched-Adds worlds url sd stuck h = failed_whole (λ e'. cc)

  -- AddTimestamps adds one timestamp to every signer, in order, each with the imprint of that signer's
  -- signature and the nonce that was sent for it, or leaves the message as it was and does not succeed.
  pub add_timestamps-Adds :
      (worlds : ℕ → Exchange) (url : Text) (sd : SignedData)
      → AddsTimestamps worlds url sd
          (add_timestamps asn1 time crypto worlds url sd).0
          (add_timestamps asn1 time crypto worlds url sd).1
  unfolding add_timestamps
  add_timestamps-Adds worlds url sd =
      with_fetched-Adds worlds url sd (fetch_all asn1 time crypto worlds url 0 sd.signer_infos) refl

  module _ (nested : VerifyOptions → SignedData → Result Pool) where
    -- A timestamp that was read: the one token of the signer, which was verified, and its imprint of the
    -- signature.
    pub record Attests (si : SignerInfo) (opts : VerifyOptions) (tsti : Info) (pool : Pool)
        : Type 0 where
      pub raw_value : RawValue
      pub tst : SignedData
      pub hash : Hash
      pub is_only :
          get_only_attribute_value_bytes asn1 si.unsigned_attrs attribute_time_stamp_token
          ≡ ok raw_value
      pub is_token : parse_signed_data asn1 raw_value.full_bytes ≡ ok tst
      pub is_info : Holds time asn1 tst.encap_content_info tsti
      pub is_version : tsti.version ≡ pos 1
      pub is_verified : nested opts tst ≡ ok pool
      pub is_hash : imprint_hash crypto tsti.message_imprint ≡ ok hash
      pub is_imprint : SameImprint (imprint_of crypto hash si.signature) tsti.message_imprint

    pub get_timestamp-Attests :
        (si : SignerInfo) (opts : VerifyOptions) (tsti : Info) (pool : Pool)
        → get_timestamp asn1 time crypto nested si opts ≡ ok (tsti, pool)
        → Attests si opts tsti pool
    unfolding get_timestamp
    get_timestamp-Attests si opts tsti pool h =
        let (raw, e₁, h₁) = >>=-eq-ok (get_only_attribute_value_bytes asn1 _ _) _ h in
        let (tst, e₂, h₂) = >>=-eq-ok (parse_signed_data asn1 raw.full_bytes) _ h₁ in
        let (info, e₃, h₃) = >>=-eq-ok (parse_info time asn1 tst.encap_content_info) _ h₂ in
        let (_, e₄, h₄) = >>=-eq-ok (fail_if (not (eq_ℤ info.version (pos 1))) unsupported) _ h₃ in
        let (pool', e₅, h₅) = >>=-eq-ok (nested opts tst) _ h₄ in
        let (hash, e₆, h₆) = >>=-eq-ok (imprint_hash crypto info.message_imprint) _ h₅ in
        let (mi, e₇, h₇) = >>=-eq-ok (new_message_imprint crypto hash si.signature) _ h₆ in
        let (_, e₈, h₈) =
          >>=-eq-ok (fail_if (not (imprint_equal mi info.message_imprint)) invalid_message_imprint)
            _ h₇ in
        let same =
          (imprint_equal_iff mi info.message_imprint).0
            (not-eq-false (fail_if-eq-ok _ invalid_message_imprint e₈)) in
        subst (λ x. Attests si opts x.0 x.1) (ok-injective h₈)
          (record {
            raw_value = raw;
            tst = tst;
            hash = hash;
            is_only = e₁;
            is_token = e₂;
            is_info = parse_info-Holds time asn1 tst.encap_content_info info e₃;
            is_version =
                (eq_ℤ_iff info.version (pos 1)).0 (not-eq-false (fail_if-eq-ok _ unsupported e₄));
            is_verified = e₅;
            is_hash = e₆;
            is_imprint =
                subst (λ mi. SameImprint mi info.message_imprint)
                  (sym (new_message_imprint-eq crypto hash si.signature e₇)) same;
          })
