-- ===== src/Ber/Canonical.antt =====
-- What encodeTo of ietf-cms/protocol/ber.go writes, and BER2DER on it.
use git_kmssign.Base.{◌<◌, ◌^◌, ◌≡◌, refl, ◌++◌, Bytes, length, arith, ok, length-append}
use git_kmssign.Ber.{Asn1Object, Asn1Objects, encode, encode_all, encode_length, ber2der}
use git_kmssign.Ber.Format.{
  Encodes, of_primitive, definite, EncodesAll, none_left, one_more, IsWellFormed, wf_primitive,
  wf_structured, AllWellFormed, wf_nil, wf_cons,
}
use git_kmssign.Ber.Lengths.{encode_length-IsLength}
use git_kmssign.Ber.Complete.{ber2der-Encodes}

-- What encodeTo writes for a well-formed object is an encoding of it.
mutual
  unfolding encode

  encode-Encodes :
      {o : Asn1Object} → IsWellFormed o → length (encode o) < 2 ^ 31 → Encodes o (encode o)
  encode-Encodes (wf_primitive {t} {c} {n} tg e) small =
      let sizes = length-append t (encode_length n ++ c) in
      let sizes' = length-append (encode_length n) c in
      of_primitive tg e (encode_length-IsLength n (omega arith)) refl
  encode-Encodes (wf_structured {t} {os} tg all) small =
      let ls = encode_length (length (encode_all os)) in
      let sizes = length-append t (ls ++ encode_all os) in
      let sizes' = length-append ls (encode_all os) in
      definite tg (encode_all-EncodesAll all (omega arith)) (encode_length-IsLength _ (omega arith))
        refl

  encode_all-EncodesAll :
      {os : Asn1Objects}
      → AllWellFormed os
      → length (encode_all os) < 2 ^ 31
      → EncodesAll os (encode_all os)
  encode_all-EncodesAll wf_nil small = none_left
  encode_all-EncodesAll (wf_cons {o} {os} w all) small =
      let sizes = length-append (encode o) (encode_all os) in
      one_more (encode-Encodes w (omega arith)) (encode_all-EncodesAll all (omega arith)) refl

-- BER2DER returns the DER encoding of a well-formed object as it is, if that is shorter than 2 ^ 31
-- bytes, whatever follows it.
pub ber2der-encode :
    (o : Asn1Object) (rest : Bytes)
    → IsWellFormed o
    → length (encode o) < 2 ^ 31
    → ber2der (encode o ++ rest) ≡ ok (encode o)
ber2der-encode o rest w small = ber2der-Encodes o (encode o) rest (encode-Encodes w small)
