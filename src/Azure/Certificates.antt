-- ===== src/Azure/Certificates.antt =====
-- azuresign/cert.go.
pub mod Correct
use git_kmssign.Base.{
  ℕ, zero, suc, ◌<◌, ◌≤◌, ◌≡◌, ◌≢◌, refl, sym, ap, ◌∙◌, subst, ◌↔◌, Bool, true, false, not, List,
  [], ◌∷◌, ◌==◌, length, Bytes, bytes_eq, bytes_eq_iff, Bool-cases, Option-cases, inl, inr,
  if◌then◌else◌, Option, none, some, Result, ok, err, stuck, ◌>>=◌, ◌>>◌, fail_if, or_err,
  parsing_failed, file_failed, no_pem_certificates, >>=-eq-ok, or_err-eq-ok, fail_if-eq-ok,
  ok-injective, arith,
}
use git_kmssign.Base.Text.{Text, codes}
use git_kmssign.Cert.{Certificate}
use git_kmssign.Azure.{Block, Environment}

abbrev pub is_certificate : Block → Bool
is_certificate block = bytes_eq block.kind (codes "CERTIFICATE")

module _ (env : Environment) where
  -- One block, and what the loop makes of those behind it.
  unfoldable pub add_block : Block → Result (List Certificate) → Result (List Certificate)
  add_block block others =
      let with_cert = do
        cert ← or_err (env.parse_certificate block.bytes) parsing_failed
        certs ← others
        ok (cert ∷ certs)
      in if not (is_certificate block) then others else with_cert

  -- The loop over the blocks, on fuel.
  unfoldable pub load_blocks : ℕ → Bytes → Result (List Certificate)
  load_blocks zero rest = elim (env.pem_decode rest) [ none ↦ ok [] | some _ ↦ stuck ]
  load_blocks (suc f) rest = elim (env.pem_decode rest) [
    | none ↦ ok []
    | some (block, rest') ↦ add_block block (load_blocks f rest')
  ]

  unfoldable pub load_certificates : Text → Result (List Certificate)
  load_certificates path = do
    contents ← or_err (env.read_file path) file_failed
    certs ← load_blocks (length contents) contents
    fail_if (length certs == 0) no_pem_certificates
    ok certs
