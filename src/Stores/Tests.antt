-- ===== src/Stores/Tests.antt =====
-- The theorems on the stores of macOS and Windows at concrete inputs, over small systems.
use git_kmssign.Base.{ℕ, ◌≡◌, refl, true, [], ◌∷◌, Option, none, some, Bytes, arith}
use git_kmssign.Base.Int.{pos, negsuc}
use git_kmssign.Cert.{Certificate, Hash}
use git_kmssign.Cert.Samples.{leaf}
use git_kmssign.Protocol.Signers.{eq_ℤ}
use git_kmssign.Stores.Run.{Reply, done}
use git_kmssign.Stores.System.{System}
use git_kmssign.Stores.Counts.{acquisitions, releases}
use git_kmssign.Stores.Mac.{Security, MacIdentity}
use git_kmssign.Stores.Mac.Identity.{
  algorithm_for, os_status_error, bytes_to_cf_data, copy_cert_ref, copy_key_ref, get_cert_ref,
  get_key_ref, close, export_cert_ref, certificate, get_algo, signature_or_error, sign,
}
use git_kmssign.Stores.Mac.Store.{identities}
use git_kmssign.Stores.Mac.Released.{
  MacCall, certificates, deletes, opened, after_calls, close-Released,
}
use git_kmssign.Stores.Mac.Correct.{Signs, sign-Signs}
use git_kmssign.Stores.Mac.Listed.{RetainsRefs, identities-RetainsRefs}

-- A system of which every call succeeds, and which trusts every certificate.
abbrev security : Security ℕ
security = record {
  err_sec_success = pos 0;
  err_sec_item_not_found = negsuc 25299;
  create_dictionary = λ q s. (some 10, s);
  create_array = λ r s. (some 11, s);
  create_data = λ b s. (some 12, s);
  create_string = λ t s. (13, s);
  copy_matching = λ q s. ((pos 0, 14), s);
  delete_matching = λ q s. (pos 0, s);
  import_pkcs12 = λ b p s. ((pos 0, 15), s);
  array_values = λ r s. 1 ∷ 2 ∷ [];
  data_bytes = λ r s. r ∷ [];
  error_code = λ r s. pos 1;
  copy_certificate = λ r s. ((pos 0, 20), s);
  copy_private_key = λ r s. ((pos 0, 21), s);
  copy_certificate_data = λ r s. (some 22, s);
  create_signature = λ k a d s. ((some 23, none), s);
  create_policy = λ s. (24, s);
  create_trust = λ c p s. ((pos 0, 25), s);
  evaluate_trust = λ t s. ((true, none), s);
  certificate_count = λ t s. 1;
  copy_chain = λ t s. (some 26, s);
  chain_value = λ a i s. 27;
}

abbrev parse : Bytes → Option Certificate
parse b = some leaf

abbrev size : Hash → ℕ
size hash = 1

abbrev mac : System ℕ MacIdentity
mac = record {
  os = 0;
  log = [];
  this = record { ref = some 5; kref = none; cref = none; crt = none; chain = none };
}

abbrev mac_signed : Reply Bytes × System ℕ MacIdentity
mac_signed = sign security parse size Hash.sha256 (9 ∷ []) mac

mac_signed-runs : mac_signed ≡ (done (23 ∷ []), mac_signed.1)
unfolding sign get_key_ref copy_key_ref os_status_error bytes_to_cf_data get_algo certificate
    get_cert_ref copy_cert_ref export_cert_ref algorithm_for signature_or_error eq_ℤ
mac_signed-runs = refl

sign-Signs_example : Signs security parse size Hash.sha256 (9 ∷ []) mac.this (23 ∷ [])
sign-Signs_example =
    sign-Signs security parse size Hash.sha256 (9 ∷ []) mac mac_signed.1 (23 ∷ []) mac_signed-runs

abbrev used : System ℕ MacIdentity
used =
    (close security (
      after_calls security parse size
        (certificates ∷ MacCall.signs Hash.sha256 (9 ∷ []) ∷ deletes ∷ []) (opened security 5 0))).1

close-Released_example : acquisitions 20 used.log ≡ releases 20 used.log
close-Released_example =
    close-Released security parse size
      (certificates ∷ MacCall.signs Hash.sha256 (9 ∷ []) ∷ deletes ∷ []) 5 0 20

abbrev mac_store : System ℕ (Unit {0})
mac_store = record { os = 0; log = []; this = tt }

identities-RetainsRefs_example : RetainsRefs (λ r i. 0) [] (identities security mac_store)
identities-RetainsRefs_example =
    identities-RetainsRefs (λ r i. 0) security [] mac_store (λ r. omega arith)
