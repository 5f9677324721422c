-- ===== src/Timestamp/Service.antt =====
-- Asking a timestamp service, and reading its answer, in ietf-cms/timestamp/timestamp.go.
use git_kmssign.Base.{
  ℕ, Bool, true, false, not, [], ◌∷◌, ◌+◌, ◌*◌, ◌^◌, ltb, Bytes, bytes_eq, if◌then◌else◌, Option,
  none, some, Result, ok, panic, ◌>>=◌, ◌>>◌, fail_if, or_err, or_panic, asn1_failed, wrong_type,
  missing_content, request_refused, request_failed, bad_content_type,
}
use git_kmssign.Base.Int.{ℤ, pos, negsuc}
use git_kmssign.Base.Text.{Text, codes}
use git_kmssign.Oids.{content_type_tst_info}
use git_kmssign.Ber.{ber2der}
use git_kmssign.Protocol.{EncapsulatedContentInfo, Asn1}
use git_kmssign.Protocol.Content.{e_content_value}
use git_kmssign.Protocol.Messages.{signed_data_content}
use git_kmssign.Protocol.Signers.{eq_ℤ, whole}
use git_kmssign.Timestamp.{Request, Info, Response, Asn1Time, Exchange}
use git_kmssign.Timestamp.Imprint.{imprint_equal}
use git_kmssign.Timestamp.FreeText.{is_error}

-- big.Int.SetBytes
unfoldable pub big_endian : ℕ → Bytes → ℕ
big_endian acc [] = acc
big_endian acc (b ∷ bs) = big_endian (acc * 256 + b) bs

-- A failing random source makes the program panic.
unfoldable pub generate_nonce : Option Bytes → Result ℤ
generate_nonce random = do buf ← or_panic random; ok (pos (big_endian 0 buf))

-- The test of the nonces, which dereferences a nil nonce of the request.
unfoldable pub same_nonce : Option ℤ → Option ℤ → Result Bool
same_nonce none none = ok true
same_nonce none (some n) = panic
same_nonce (some n) none = ok false
same_nonce (some n) (some m) = ok (eq_ℤ n m)

unfoldable pub request_matches : Request → Info → Result Bool
request_matches req tsti =
    let nonces = same_nonce req.nonce tsti.nonce in
    if not (imprint_equal req.message_imprint tsti.message_imprint) then ok false else nonces

-- make([]byte, 0, n), which panics out of its range; 2 ^ 48 is the runtime's limit on 64-bit machines.
unfoldable pub make_buffer : ℤ → Result (Unit {0})
make_buffer (negsuc n) = panic
make_buffer (pos n) = if ltb (2 ^ 48) n then panic else ok tt

abbrev pub content_type_ts_reply : Text
content_type_ts_reply = codes "application/timestamp-reply"

module _ (time : Asn1Time) where
  unfoldable pub parse_response : Bytes → Result Response
  parse_response ber = do der ← ber2der ber; whole (time.unmarshal_response der)

  -- The header that is added, application/timestamp-query, belongs to `post`.
  unfoldable pub request_do : Exchange → Text → Request → Result Response
  request_do world url req = do
    req_der ← or_err (time.marshal_request req) asn1_failed
    fail_if (not (world.can_request url)) request_failed
    http_resp ← or_err (world.post url req_der) request_failed
    fail_if (not (bytes_eq http_resp.content_type content_type_ts_reply)) bad_content_type
    make_buffer http_resp.content_length
    buf ← or_err http_resp.body request_failed
    parse_response buf

  module _ (asn1 : Asn1) where
    unfoldable pub parse_info : EncapsulatedContentInfo → Result Info
    parse_info eci = do
      fail_if (not (bytes_eq eci.e_content_type content_type_tst_info)) wrong_type
      value ← e_content_value asn1 eci
      ecval ← or_err value missing_content
      whole (time.unmarshal_info ecval)

    unfoldable pub response_info : Response → Result Info
    response_info r = do
      fail_if (is_error r.status) request_refused
      sd ← signed_data_content asn1 r.time_stamp_token
      parse_info sd.encap_content_info
