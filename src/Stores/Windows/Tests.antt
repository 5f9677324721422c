-- ===== src/Stores/Windows/Tests.antt =====
-- The theorems on the store of Windows at concrete inputs, over a small system.
use git_kmssign.Base.{ℕ, ◌≡◌, refl, true, [], ◌∷◌, ◌++◌, Option, some, Bytes, arith}
use git_kmssign.Base.Int.{pos}
use git_kmssign.Cert.{Hash, PublicKeyAlgorithm}
use git_kmssign.Stores.Run.{asn1_failed, Reply, done, or_fail}
use git_kmssign.Stores.System.{System}
use git_kmssign.Stores.Windows.{Api, WinPrivateKey, to_security_status, check_status, last_error}
use git_kmssign.Stores.Windows.Key.{
  set_bytes, swap_below, padding, encode_ecdsa, cng_sign_hash, capi_sign_with, capi_sign_hash, sign,
}
use git_kmssign.Stores.Windows.Store.{identities}
use git_kmssign.Stores.Windows.Ecdsa.{to_bytes, encode_ecdsa-to_bytes}
use git_kmssign.Stores.Windows.Signing.{SignedBy, sign-SignedBy}
use git_kmssign.Stores.Windows.Contexts.{RetainsContexts, identities-RetainsContexts}

-- A system that has two chains, and of which every other call succeeds.
abbrev api : Api ℕ
api = record {
  last_error = λ s. 0x80092004;
  open_store = λ s. (some 1, s);
  close_store = λ h s. (tt, s);
  find_chains = λ h s. (
    record { chains = 1; elements = 4 ∷ 5 ∷ [] } ∷ record { chains = 1; elements = 4 ∷ [] } ∷ [],
    s,
  );
  import_pfx = λ b t f s. (some 2, s);
  find_certificates = λ h s. (4 ∷ [], s);
  add_certificate = λ h c s. (true, s);
  delete_certificate = λ c s. (true, s);
  encoded = λ c s. [];
  acquire_key = λ c s. (some (record { handle = 3; key_spec = 1; must_free = true }), s);
  ncrypt_sign_length = λ h p d s. ((pos 0, 4), s);
  ncrypt_sign = λ h p d n s. ((pos 0, 0 ∷ 1 ∷ 2 ∷ 3 ∷ []), s);
  ncrypt_delete = λ h s. (pos 0, s);
  ncrypt_free = λ h s. (tt, s);
  release_context = λ h s. (tt, s);
  create_hash = λ p h s. (some 6, s);
  hash_size = λ h s. (some 1, s);
  set_hash = λ h d s. (true, s);
  sign_hash_length = λ h k s. (some 3, s);
  sign_hash = λ h k n s. (some (1 ∷ 2 ∷ 3 ∷ []), s);
  destroy_hash = λ h s. (tt, s);
  param_size = λ p n s. (some 1, s);
  param = λ p n k s. (some [], s);
  delete_key_set = λ c n k s. (true, s);
}

abbrev size : Hash → ℕ
size hash = 1

abbrev marshal : ℕ → ℕ → Option Bytes
marshal r s = some (r ∷ s ∷ [])

abbrev win : System ℕ (Unit {0})
win = record { os = 0; log = []; this = tt }

abbrev capi_key : WinPrivateKey
capi_key = record {
  algorithm = PublicKeyAlgorithm.rsa;
  public_key = [];
  capi_prov = 3;
  cng_handle = 0;
  key_spec = 1;
}

abbrev cng_key : WinPrivateKey
cng_key = record {
  algorithm = PublicKeyAlgorithm.ecdsa;
  public_key = [];
  capi_prov = 0;
  cng_handle = 3;
  key_spec = 0;
}

abbrev win_signed : WinPrivateKey → Reply Bytes × System ℕ (Unit {0})
win_signed key = sign api size marshal key Hash.sha256 (9 ∷ []) win

cng_signed : win_signed cng_key ≡ (done (1 ∷ 515 ∷ []), (win_signed cng_key).1)
unfolding sign cng_sign_hash padding encode_ecdsa check_status to_security_status set_bytes
cng_signed = refl

capi_signed : win_signed capi_key ≡ (done (3 ∷ 2 ∷ 1 ∷ []), (win_signed capi_key).1)
unfolding sign capi_sign_hash capi_sign_with swap_below last_error
capi_signed = refl

sign-SignedBy_example : SignedBy api size marshal capi_key Hash.sha256 (9 ∷ []) 0 (3 ∷ 2 ∷ 1 ∷ [])
sign-SignedBy_example =
    sign-SignedBy api size marshal capi_key Hash.sha256 (9 ∷ []) win (win_signed capi_key).1
      (3 ∷ 2 ∷ 1 ∷ []) capi_signed

encode_ecdsa-to_bytes_example :
    encode_ecdsa api marshal (to_bytes 2 1 ++ to_bytes 2 515) win
    ≡ or_fail (marshal 1 515) asn1_failed win
encode_ecdsa-to_bytes_example =
    encode_ecdsa-to_bytes api marshal 2 1 515 win (omega arith) (omega arith)

identities-RetainsContexts_example : RetainsContexts api (λ r i. 0) [] (identities api 1 win)
identities-RetainsContexts_example =
    identities-RetainsContexts api (λ r i. 0) 1 [] win (λ r. omega arith)
