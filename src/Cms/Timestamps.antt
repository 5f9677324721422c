-- ===== src/Cms/Timestamps.antt =====
-- ietf-cms/timestamp.go: asking for timestamps, and reading them from a signer.
pub mod Correct
use git_kmssign.Base.{
  ℕ, suc, Bool, not, List, [], ◌∷◌, ◌++◌, Bytes, length, ltb, Option, none, some, Result, ok, err,
  panic, stuck, ◌>>=◌, ◌>>◌, fail_if, or_err, unsupported, invalid_message_imprint, Bool.true,
}
use git_kmssign.Base.Int.{ℤ, pos}
use git_kmssign.Base.Text.{Text}
use git_kmssign.Oids.{attribute_time_stamp_token}
use git_kmssign.Protocol.{Attribute, SignerInfo, SignedData, Asn1}
use git_kmssign.Protocol.Attributes.{AnySet, get_values, get_only_attribute_value_bytes}
use git_kmssign.Protocol.Messages.{parse_signed_data}
use git_kmssign.Protocol.Signers.{eq_ℤ, signer_hash}
use git_kmssign.Protocol.Signing.{Crypto, new_attribute}
use git_kmssign.Timestamp.{Request, Info, Asn1Time, Exchange}
use git_kmssign.Timestamp.Imprint.{new_message_imprint, imprint_hash, imprint_equal}
use git_kmssign.Timestamp.Service.{
  generate_nonce, request_do, request_matches, parse_info, response_info,
}
use git_kmssign.Cms.Options.{Pool, VerifyOptions}

-- The second loop of AddTimestamps; the lists have the same length there.
unfoldable pub append_attributes : List SignerInfo → List Attribute → List SignerInfo
append_attributes (si ∷ infos) (attr ∷ attrs) =
    record si { unsigned_attrs = si.unsigned_attrs ++ (attr ∷ []) } ∷ append_attributes infos attrs
append_attributes infos attrs = infos

module _ (asn1 : Asn1) (time : Asn1Time) (crypto : Crypto) where
  unfoldable pub ts_request : Option Bytes → SignerInfo → Result Request
  ts_request random si = do
    hash ← signer_hash crypto.available si
    mi ← new_message_imprint crypto hash si.signature
    nonce ← generate_nonce random
    ok (record {
      version = pos 1;
      message_imprint = mi;
      req_policy = [];
      nonce = some nonce;
      cert_req = Bool.true;
      extensions = [];
    })

  unfoldable pub fetch_ts : Exchange → Text → SignerInfo → Result Attribute
  fetch_ts world url si = do
    req ← ts_request world.random si
    resp ← request_do time world url req
    tsti ← response_info time asn1 resp
    matches ← request_matches req tsti
    fail_if (not matches) invalid_message_imprint
    new_attribute asn1 attribute_time_stamp_token (asn1.marshal_content_info resp.time_stamp_token)

  -- The first loop of AddTimestamps: the exchange of each signer, by the number of those before it.
  unfoldable pub fetch_all : (ℕ → Exchange) → Text → ℕ → List SignerInfo → Result (List Attribute)
  fetch_all worlds url i [] = ok []
  fetch_all worlds url i (si ∷ infos) = do
    attr ← fetch_ts (worlds i) url si
    attrs ← fetch_all worlds url (suc i) infos
    ok (attr ∷ attrs)

  -- What AddTimestamps leaves in the message, by what was fetched.
  abbrev pub with_fetched : SignedData → Result (List Attribute) → Result (Unit {0}) × SignedData
  with_fetched sd (ok attrs) =
      (ok tt, record sd { signer_infos = append_attributes sd.signer_infos attrs })
  with_fetched sd (err e) = (err e, sd)
  with_fetched sd panic = (panic, sd)
  with_fetched sd stuck = (stuck, sd)

  -- The result, and the message afterwards.
  unfoldable pub add_timestamps :
      (ℕ → Exchange) → Text → SignedData → Result (Unit {0}) × SignedData
  add_timestamps worlds url sd = with_fetched sd (fetch_all worlds url 0 sd.signer_infos)

  unfoldable pub has_timestamp : SignerInfo → Result Bool
  has_timestamp si = do
    vals ← get_values asn1 si.unsigned_attrs attribute_time_stamp_token
    ok (ltb 0 (length vals))

  -- `nested` is Verify on the token, which leaves certificates in the pool of the options.
  unfoldable pub get_timestamp :
      (VerifyOptions → SignedData → Result Pool) → SignerInfo → VerifyOptions → Result (Info × Pool)
  get_timestamp nested si opts = do
    raw_value ← get_only_attribute_value_bytes asn1 si.unsigned_attrs attribute_time_stamp_token
    tst ← parse_signed_data asn1 raw_value.full_bytes
    tsti ← parse_info time asn1 tst.encap_content_info
    fail_if (not (eq_ℤ tsti.version (pos 1))) unsupported
    pool ← nested opts tst
    hash ← imprint_hash crypto tsti.message_imprint
    mi ← new_message_imprint crypto hash si.signature
    fail_if (not (imprint_equal mi tsti.message_imprint)) invalid_message_imprint
    ok (tsti, pool)
