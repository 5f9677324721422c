-- ===== src/Cms/Sign.antt =====
-- ietf-cms/sign.go: Sign and SignDetached.
use git_kmssign.Base.{List, Bytes, Result, ◌>>=◌}
use git_kmssign.Cert.{Certificate}
use git_kmssign.Protocol.{SignedData, Asn1}
use git_kmssign.Protocol.Messages.{new_signed_message, to_der}
use git_kmssign.Protocol.Signed.{detached}
use git_kmssign.Protocol.Signing.{Crypto, Signer, add_signer_info}

module _ (asn1 : Asn1) (crypto : Crypto) where
  -- The method Sign of SignedData.
  unfoldable pub sign_message : List Certificate → Signer → SignedData → Result SignedData
  sign_message chain signer sd = add_signer_info asn1 crypto chain signer sd

  unfoldable pub sign : Bytes → List Certificate → Signer → Result Bytes
  sign message chain signer = do
    sd ← new_signed_message asn1 message
    sd' ← sign_message chain signer sd
    to_der asn1 sd'

  unfoldable pub sign_detached : Bytes → List Certificate → Signer → Result Bytes
  sign_detached message chain signer = do
    sd ← new_signed_message asn1 message
    sd' ← sign_message chain signer sd
    to_der asn1 (detached sd')
