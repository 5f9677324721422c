-- ===== src/Command/Package/Correct.antt =====
-- What `--verify` vouches for, with package cms (ietf-cms) as it is modelled.
use git_kmssign.Base.{
  ℕ, ◌≡◌, refl, true, false, List, [], ◌∷◌, ◌++◌, length, ◌==◌, Option, some, Bytes, Result, ok,
  err, panic, stuck,
}
use git_kmssign.Base.Text.{Text}
use git_kmssign.Cert.{Certificate, Identity}
use git_kmssign.Protocol.{SignerInfo, SignedData, Asn1}
use git_kmssign.Protocol.Content.{e_content_value}
use git_kmssign.Protocol.Messages.{parse_signed_data}
use git_kmssign.Protocol.Signed.{is_detached}
use git_kmssign.Protocol.Signing.{Crypto, Signer}
use git_kmssign.Status.{emit, new_sig}
use git_kmssign.Status.Events.{Event}
use git_kmssign.Timestamp.{Asn1Time, Exchange}
use git_kmssign.Cms.Options as Cms_options
use git_kmssign.Cms.Options.{Pool, CertChains, X509}
use git_kmssign.Cms.Verify.{verify_token}
use git_kmssign.Cms.Verify.Accepts.{verify_iff, verify_detached_iff}
use git_kmssign.Cms.Verify.Correct.{VerifiedAll, next_verified, Accepted}
use git_kmssign.Command.{Chains, returned, Verdict, verified, Cms, System}
use git_kmssign.Command.Input.{read_file}
use git_kmssign.Command.Options.{Options}
use git_kmssign.Command.Package.{called, verdict_of, full_options, package_cms}
use git_kmssign.Command.Run.{Run, done, cannot_open_signature, cannot_read_signature}
use git_kmssign.Command.Verify.{
  leaf_of, verify_opts, decode_pem, signature_of, signed_data_of, command_verify,
}
use git_kmssign.Command.Verify.Correct.{
  IsVerdict, with_leaf, with_error, with_panic, CmsLaws, Judged, on_attached, on_detached, Reported,
  good, not_good, unreadable, panics, good_events, command_verify-Reported,
}

-- Verify of crypto/x509 returns one chain at least, and each starts with the certificate.
abbrev pub BuildsChains : X509 → Type 0
BuildsChains x509 =
    (cert : Certificate) (opts : Cms_options.VerifyOptions) (chains : CertChains)
    → x509.verify cert opts ≡ some chains
    → (rest : List Certificate) × (others : CertChains) × (chains ≡ (cert ∷ rest) ∷ others)

called-eq-returned : {A : Type 0} (r : Result A) {a : A} → called r ≡ returned a → r ≡ ok a
called-eq-returned (ok a) h = cc
called-eq-returned (err e) h = cc
called-eq-returned panic h = cc
called-eq-returned stuck h = cc

verdict_of-verified :
    (r : Result (List CertChains × Option Pool)) {chains : Chains}
    → verdict_of r ≡ verified chains
    → (pool : Option Pool) × (r ≡ ok (chains, pool))
verdict_of-verified (ok (chains, pool)) h = (pool, cc)
verdict_of-verified (err e) h = cc
verdict_of-verified panic h = cc
verdict_of-verified stuck h = cc

verdict_of-IsVerdict :
    (r : Result (List CertChains × Option Pool))
    → ((chains : Chains) (pool : Option Pool)
        → r ≡ ok (chains, pool)
        → (cert : Certificate) × (leaf_of chains ≡ some cert))
    → IsVerdict (verdict_of r)
verdict_of-IsVerdict (ok (chains, pool)) leaf =
    let (cert, e) = leaf chains pool refl in with_leaf cert e
verdict_of-IsVerdict (err e) leaf = with_error
verdict_of-IsVerdict panic leaf = with_panic
verdict_of-IsVerdict stuck leaf = with_panic

module _ (asn1 : Asn1) (time : Asn1Time) (crypto : Crypto) (x509 : X509) where
  leaf_of-VerifiedAll :
      (nested : Cms_options.VerifyOptions → SignedData → Result Pool) (econtent : Bytes)
      (sd : SignedData) (certs : List Certificate) (opts : Cms_options.VerifyOptions)
      (infos : List SignerInfo) (chains : List CertChains) (last : Option Pool)
      → BuildsChains x509
      → (length infos == 0) ≡ false
      → VerifiedAll asn1 time crypto x509 nested econtent sd certs opts infos chains last
      → (cert : Certificate) × (leaf_of chains ≡ some cert)
  leaf_of-VerifiedAll nested econtent sd certs opts [] chains last builds some_there v = cc
  leaf_of-VerifiedAll nested econtent sd certs opts (si ∷ infos) chains last builds some_there
        (next_verified {chain} v others) =
      let (rest, more, e) = builds v.cert v.used chain v.is_chain in (v.cert, rw e refl)

  module _ (worlds : ℕ → Exchange) (signer_of : Bytes → Signer) (fuel : ℕ) where
    abbrev pub the_cms : Cms
    the_cms = package_cms asn1 time crypto x509 worlds signer_of fuel

    -- The modelled package keeps the laws that the command relies on.
    pub package_cms-CmsLaws : BuildsChains x509 → CmsLaws the_cms
    unfolding package_cms
    package_cms-CmsLaws builds = record {
      verify_lem = λ opts sd. verdict_of-IsVerdict _ λ chains pool h.
          let (econtent, _, a) =
            (verify_iff asn1 time crypto x509 fuel (full_options opts) sd chains pool).0 h in
          leaf_of-VerifiedAll _ econtent sd a.certs _ sd.signer_infos chains pool builds a.is_signed
            a.are_verified;
      verify_detached_lem = λ content opts sd. verdict_of-IsVerdict _ λ chains pool h.
          let (_, a) =
            (verify_detached_iff asn1 time crypto x509 fuel content (full_options opts) sd chains
                pool).0
              h in
          leaf_of-VerifiedAll _ content sd a.certs _ sd.signer_infos chains pool builds a.is_signed
            a.are_verified;
    }

    module _ (sys : System) (idents : List Identity) where
      -- The signature that the arguments name is parsed as a message all of whose signatures are good:
      -- for its own content, or for the bytes of the second argument if there is one.
      pub data Vouched : List Text → Chains → Type 0 where
        for_content :
            {files : List Text} {buf econtent : Bytes} {sd : SignedData} {chains : Chains}
            {pool : Option Pool}
            → signature_of sys files ≡ done [] buf
            → parse_signed_data asn1 (decode_pem sys buf) ≡ ok sd
            → e_content_value asn1 sd.encap_content_info ≡ ok (some econtent)
            → Accepted asn1 time crypto x509
                (verify_token asn1 time crypto x509 fuel)
                econtent
                (full_options (verify_opts sys idents))
                sd
                chains
                pool
            → Vouched files chains
        for_message :
            {name data_name : Text} {files : List Text} {buf message : Bytes} {sd : SignedData}
            {chains : Chains} {pool : Option Pool}
            → read_file sys name cannot_open_signature cannot_read_signature ≡ done [] buf
            → parse_signed_data asn1 (decode_pem sys buf) ≡ ok sd
            → is_detached sd ≡ true
            → signed_data_of sys data_name ≡ done [] message
            → Accepted asn1 time crypto x509
                (verify_token asn1 time crypto x509 fuel)
                message
                (full_options (verify_opts sys idents))
                sd
                chains
                pool
            → Vouched (name ∷ data_name ∷ files) chains

      Judged-Vouched :
          {files : List Text} {v : Verdict} {chains : Chains}
          → Judged sys the_cms idents files v
          → v ≡ verified chains
          → Vouched files chains
      unfolding package_cms
      Judged-Vouched {chains} (on_attached sd few read parsed) h =
          let (pool, e) = verdict_of-verified _ h in
          let (econtent, value, a) =
            (verify_iff asn1 time crypto x509 fuel (full_options (verify_opts sys idents)) sd chains
                pool).0
              e in
          for_content read (called-eq-returned _ parsed) value a
      Judged-Vouched {chains} (on_detached {content} sd read parsed message) h =
          let (pool, e) = verdict_of-verified _ h in
          let (detached, a) =
            (verify_detached_iff asn1 time crypto x509 fuel content
                (full_options (verify_opts sys idents)) sd chains pool).0
              e in
          for_message read (called-eq-returned _ parsed) detached message a

      -- What `--verify` wrote when it returned nil.
      pub record VouchedFor (o : Options) (events : List Event) : Type 0 where
        pub chains : Chains
        pub cert : Certificate
        pub is_vouched : Vouched o.file_args chains
        pub is_leaf : leaf_of chains ≡ some cert
        pub is_events : events ≡ emit o.status_fd new_sig ++ good_events sys o cert

      Reported-VouchedFor :
          (o : Options) {r : Run (Unit {0})} {events : List Event}
          → Reported sys the_cms idents o (emit o.status_fd new_sig) r
          → r ≡ done events tt
          → VouchedFor o events
      Reported-VouchedFor o (good {chains} cert j leaf) h = record {
        chains = chains;
        cert = cert;
        is_vouched = Judged-Vouched j refl;
        is_leaf = leaf;
        is_events = cc;
      }
      Reported-VouchedFor o (not_good j) h = cc
      Reported-VouchedFor o (unreadable e u) h = cc
      Reported-VouchedFor o (panics p) h = cc

      -- If --verify returns nil, then the signature that it was given parses as a message all of whose
      -- signatures, one at least, are good for the content, and the lines that it wrote, GOODSIG and
      -- TRUST_FULLY among them, name the first certificate of the first chain that crypto/x509 built.
      -- Its Verify is assumed to return one chain at least, each of which starts with the certificate.
      pub command_verify-VouchedFor :
          BuildsChains x509
          → (o : Options) (events : List Event)
          → command_verify sys the_cms idents o ≡ done events tt
          → VouchedFor o events
      command_verify-VouchedFor builds o events h =
          Reported-VouchedFor o
            (command_verify-Reported sys the_cms idents (package_cms-CmsLaws builds) o) h
