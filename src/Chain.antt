-- ===== src/Chain.antt =====
-- command_sign.go: certsForSignature and chainWithoutRoot, which pick the certificates that go into a
-- signature by the value of --include-certs.
pub mod Cut
pub mod Correct
mod Tests
use git_kmssign.Base.{
  ℕ, zero, suc, ◌-◌, ◌+◌, Bool, true, false, List, [], ◌∷◌, length, take, get_elem?, Option, none,
  some, ltb, ◌==◌, ◌&&◌, not, bytes_eq, if◌then◌else◌,
}
use git_kmssign.Base.Int.{ℤ, pos, negsuc, ltb_ℤ}
use git_kmssign.Cert.{Certificate}

-- bytes.Equal(issuer.RawSubject, cert.RawIssuer) && len(cert.IssuingCertificateURL) > 0, for
-- issuer, cert := chain[i], chain[i-1]. Both indices are in range in the loop below.
pub has_aia_for : Option Certificate → Option Certificate → Bool
has_aia_for (some issuer) (some cert) =
    bytes_eq issuer.raw_subject cert.raw_issuer && ltb 0 (length cert.issuing_certificate_url)
has_aia_for _ _ = false

-- for i := len(chain) - 1; i > 0; i--, with i as the argument.
pub drop_issuers : ℕ → List Certificate → List Certificate
unfolding has_aia_for
drop_issuers zero chain = chain
drop_issuers (suc i) chain = drop_issuers i (
    if has_aia_for (get_elem? chain (suc i)) (get_elem? chain i) then take (suc i) chain else chain)

pub is_self_signed : Option Certificate → Bool
is_self_signed none = false
is_self_signed (some last) = bytes_eq last.raw_issuer last.raw_subject

pub chain_without_root : List Certificate → List Certificate
unfolding is_self_signed
chain_without_root [] = []
chain_without_root (c ∷ cs) =
    if is_self_signed (get_elem? (c ∷ cs) (length cs)) then take (length cs) (c ∷ cs) else c ∷ cs

-- `if include < -3 { include = -2 }`, then `if include > len(chain) { include = len(chain) }`.
pub clamp_include : ℤ → ℕ → ℤ
clamp_include include len =
    let low = if ltb_ℤ include (negsuc 2) then negsuc 1 else include in
    if ltb_ℤ (pos len) low then pos len else low

-- The switch: -3, -2 and -1, and a number of certificates from the leaf.
pub select_certs : ℤ → List Certificate → List Certificate
select_certs (negsuc zero) chain = chain
select_certs (negsuc (suc zero)) chain = chain_without_root chain
select_certs (negsuc (suc (suc k))) chain =
    chain_without_root (drop_issuers (length chain - 1) chain)
select_certs (pos n) chain = take n chain

-- It always returns a nil error.
pub certs_for_signature : ℤ → List Certificate → List Certificate
certs_for_signature include chain = select_certs (clamp_include include (length chain)) chain
