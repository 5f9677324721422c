-- ===== src/Command/Tests.antt =====
-- The theorems on the commands at concrete inputs.
use git_kmssign.Base.{◌≡◌, refl, true, false, List, [], ◌∷◌, none, some, Bytes}
use git_kmssign.Base.Int.{pos, negsuc}
use git_kmssign.Base.Text.{codes}
use git_kmssign.Cert.{Identity}
use git_kmssign.Cert.Samples.{sample_sha1, leaf, root, identity, alice}
use git_kmssign.Status.{emit, new_sig}
use git_kmssign.Status.Events.{Event}
use git_kmssign.Command.{returned, erred, Cms, System, verified}
use git_kmssign.Command.ListKeys.{Printer}
use git_kmssign.Command.Main.{Banner, run_command}
use git_kmssign.Command.Main.Correct.{Ran, run_command-Ran}
use git_kmssign.Command.Options.{Options}
use git_kmssign.Command.Sign.{command_sign}
use git_kmssign.Command.Sign.Correct.{SignsFor, command_sign-SignsFor}
use git_kmssign.Protocol.Samples.{toy_crypto, toy_signer}
use git_kmssign.Timestamp.{Exchange}
use git_kmssign.Cms.Samples.{x509_toy, asn1_signed, time_none, signed_parsed, signed_verified}
use git_kmssign.Command.Package.{package_cms}
use git_kmssign.Command.Package.Correct.{BuildsChains, VouchedFor, command_verify-VouchedFor}
use git_kmssign.Command.Run.{Run, done, failed, crashed}
use git_kmssign.Command.Verify.{
  command_verify, verify_files, verify_attached, signature_of, report, decode_pem, verify_opts,
}
use git_kmssign.Command.Verify.Correct.{Reported, CmsLaws, with_leaf, command_verify-Reported}

-- A package cms whose signed data is its bytes, and that accepts what it reads.
abbrev toy_cms : Cms
toy_cms = record {
  SignedData = Bytes;
  new_signed_data = λ content. returned content;
  sign = λ certs key sd. returned (1 ∷ sd);
  detached = λ sd. sd;
  add_timestamps = λ url sd. erred;
  set_certificates = λ certs sd. returned sd;
  to_der = λ sd. returned sd;
  parse_signed_data = λ der. returned der;
  verify = λ opts sd. verified (((leaf ∷ []) ∷ []) ∷ []);
  verify_detached = λ content opts sd. verified (((leaf ∷ []) ∷ []) ∷ []);
}

toy_laws : CmsLaws toy_cms
toy_laws = record {
  verify_lem = λ opts sd. with_leaf {chains = ((leaf ∷ []) ∷ []) ∷ []} leaf refl;
  verify_detached_lem = λ content opts sd. with_leaf {chains = ((leaf ∷ []) ∷ []) ∷ []} leaf refl;
}

abbrev idents : List Identity
idents = identity root ∷ identity leaf ∷ []

abbrev sys : System
sys = record {
  sha1 = sample_sha1;
  pgp = record { pub_key_algo_rsa = 1; pub_key_algo_ecdsa = 19; hash_to_hash_id = λ h. 8 };
  open_file = λ name. none;
  stdin = some (5 ∷ []);
  can_write = true;
  pem_decode = λ b. none;
  pem_encode = λ b. b;
  now = 1700000000;
  system_cert_pool = none;
  ca_certs = some [];
  method_value = [];
  include_certs_env = codes "-3";
  store = some (some idents);
}

abbrev options : Options
options = record {
  help = false;
  version = false;
  sign = true;
  verify = false;
  list_keys = false;
  local_user = alice;
  detach_sign = true;
  armor = false;
  status_fd = pos 2;
  tsa = [];
  include_certs = negsuc 1;
  include_certs_seen = false;
  file_args = [];
}

abbrev printer : Printer
printer = record {
  serial_number = λ c. codes "1";
  signature_algorithm = λ c. codes "SHA256-RSA";
  validity = λ c. codes "-";
  issuer = λ c. codes "CN=root";
  subject = λ c. c.subject;
  certificate_error = λ i. [];
}

abbrev banner : Banner
banner = record { usage = codes "usage"; version_string = codes "undefined" }

command_sign-SignsFor_example :
    SignsFor sys toy_cms idents options (command_sign sys toy_cms idents options)
command_sign-SignsFor_example = command_sign-SignsFor sys toy_cms idents options

command_verify-Reported_example :
    Reported sys toy_cms idents options
      (emit (pos 2) new_sig)
      (command_verify sys toy_cms idents options)
command_verify-Reported_example = command_verify-Reported sys toy_cms idents toy_laws options

run_command-Ran_example :
    Ran sys toy_cms printer banner options (run_command sys toy_cms printer banner options)
run_command-Ran_example = run_command-Ran sys toy_cms printer banner options

-- The key of the leaf, for every name.
abbrev no_exchange : Exchange
no_exchange = record { random = none; can_request = λ url. false; post = λ url request. none }

abbrev modelled : Cms
modelled =
    package_cms asn1_signed time_none toy_crypto x509_toy (λ i. no_exchange) (λ key. toy_signer) 0

-- A signature of two bytes on stdin, which is read as the signed message.
abbrev verify_sys : System
verify_sys = record sys { stdin = some (0x30 ∷ 0 ∷ []) }

toy-BuildsChains : BuildsChains x509_toy
toy-BuildsChains cert opts chains h = ([], [], cc)

abbrev events_of : Run (Unit {0}) → List Event
events_of (done events _) = events
events_of (failed events e) = events
events_of (crashed events) = events

command_verify-run :
    command_verify verify_sys modelled idents options
    ≡ done (events_of (command_verify verify_sys modelled idents options)) tt
unfolding command_verify verify_files verify_attached signature_of report package_cms decode_pem
    verify_opts
command_verify-run = rw (signed_parsed, signed_verified) refl

command_verify-VouchedFor_example :
    VouchedFor asn1_signed time_none toy_crypto x509_toy
      (λ i. no_exchange)
      (λ key. toy_signer)
      0
      verify_sys
      idents
      options
      (events_of (command_verify verify_sys modelled idents options))
command_verify-VouchedFor_example =
    command_verify-VouchedFor asn1_signed time_none toy_crypto x509_toy (λ i. no_exchange)
      (λ key. toy_signer) 0 verify_sys idents toy-BuildsChains options
      (events_of (command_verify verify_sys modelled idents options)) command_verify-run
