-- ===== src/Command/Package.antt =====
-- Package cms (ietf-cms) as the commands call it: its models fill their interface.
pub mod Correct
use git_kmssign.Base.{
  ℕ, List, [], ◌∷◌, Option, none, some, Bytes, Result, ok, err, panic, stuck, ◌>>=◌,
}
use git_kmssign.Base.Text.{Text}
use git_kmssign.Cert.{Certificate}
use git_kmssign.Protocol.{SignedData, Asn1}
use git_kmssign.Protocol.Messages.{new_signed_message, parse_signed_data, to_der}
use git_kmssign.Protocol.Signed.{detached, set_certificates}
use git_kmssign.Protocol.Signing.{Crypto, Signer}
use git_kmssign.Timestamp.{Asn1Time, Exchange}
use git_kmssign.Cms.Options as Cms_options
use git_kmssign.Cms.Options.{Pool, CertChains, X509, any_usage, zero_time}
use git_kmssign.Cms.Sign.{sign_message}
use git_kmssign.Cms.Timestamps.{add_timestamps}
use git_kmssign.Cms.Verify.{verify, verify_detached}
use git_kmssign.Command.{
  VerifyOptions, Chains, Called, returned, erred, raised, Verdict, verified, refused, broken, Cms,
}

-- `stuck` is no behaviour of the program: Verify ends where the fuel is enough.
abbrev pub called {ℓ} : {A : Type ℓ} → Result A → Called A
called (ok a) = returned a
called (err e) = erred
called panic = raised
called stuck = raised

-- An error comes with no chains.
abbrev pub verdict_of : Result (List CertChains × Option Pool) → Verdict
verdict_of (ok (chains, pool)) = verified chains
verdict_of (err e) = refused []
verdict_of panic = broken
verdict_of stuck = broken

-- verifyOpts: every key usage is accepted, at the current time, with no intermediates.
abbrev pub full_options : VerifyOptions → Cms_options.VerifyOptions
full_options opts = record {
  roots = some opts.roots;
  intermediates = none;
  key_usages = any_usage ∷ [];
  current_time = zero_time;
}

-- The method AddTimestamps, where the message that it leaves is used if it succeeds.
abbrev pub stamped_message : Result (Unit {0}) × SignedData → Result SignedData
stamped_message (r, sd) = r >>= λ _. ok sd

module _ (asn1 : Asn1) (time : Asn1Time) (crypto : Crypto) (x509 : X509) (worlds : ℕ → Exchange)
    (signer_of : Bytes → Signer) (fuel : ℕ) where
  unfoldable pub package_cms : Cms
  package_cms = record {
    SignedData = SignedData;
    new_signed_data = λ content. called (new_signed_message asn1 content);
    sign = λ chain key sd. called (sign_message asn1 crypto chain (signer_of key) sd);
    detached = detached;
    add_timestamps =
        λ url sd. called (stamped_message (add_timestamps asn1 time crypto worlds url sd));
    set_certificates = λ certs sd. called (set_certificates asn1 certs sd);
    to_der = λ sd. called (to_der asn1 sd);
    parse_signed_data = λ ber. called (parse_signed_data asn1 ber);
    verify = λ opts sd. verdict_of (verify asn1 time crypto x509 fuel (full_options opts) sd);
    verify_detached = λ content opts sd.
        verdict_of (verify_detached asn1 time crypto x509 fuel content (full_options opts) sd);
  }
