-- ===== src/Azure/Certificates/Correct.antt =====
-- The certificates that azuresign/cert.go reads from a file.
use git_kmssign.Base.{
  ℕ, zero, suc, ◌<◌, ◌≤◌, ◌≡◌, refl, List, [], ◌∷◌, ◌==◌, length, Bytes, Bool-cases, Option-cases,
  inl, inr, if◌then◌else◌, none, some, Result, ok, ◌>>=◌, fail_if, or_err, parsing_failed,
  no_pem_certificates, arith,
}
use git_kmssign.Base.Text.{Text}
use git_kmssign.Cert.{Certificate}
use git_kmssign.Azure.{Block, Environment}
use git_kmssign.Azure.Certificates.{is_certificate, add_block, load_blocks, load_certificates}

module _ (env : Environment) where
  -- The blocks of a file, in order.
  pub data Blocks : Bytes → List Block → Type 0 where
    no_block : {rest : Bytes} → env.pem_decode rest ≡ none → Blocks rest []
    next_block :
        {rest rest' : Bytes} {block : Block} {blocks : List Block}
        → env.pem_decode rest ≡ some (block, rest')
        → Blocks rest' blocks
        → Blocks rest (block ∷ blocks)

  -- The certificates of blocks: those of the type CERTIFICATE, all of which must parse.
  unfoldable pub certificates_of : List Block → Result (List Certificate)
  certificates_of [] = ok []
  certificates_of (block ∷ blocks) =
      if is_certificate block
      then (or_err (env.parse_certificate block.bytes) parsing_failed >>= λ cert.
          certificates_of blocks >>= λ certs. ok (cert ∷ certs))
      else certificates_of blocks

  -- pem.Decode returns fewer bytes than it was given with a block.
  abbrev pub DecodesBytes : Type 0
  DecodesBytes =
      (rest : Bytes) (block : Block) (rest' : Bytes)
      → env.pem_decode rest ≡ some (block, rest')
      → length rest' < length rest

  -- A step of the loop is one of the reference.
  add_block-certificates_of :
      (block : Block) (blocks : List Block) {others : Result (List Certificate)}
      → others ≡ certificates_of blocks
      → add_block env block others ≡ certificates_of (block ∷ blocks)
  unfolding add_block certificates_of
  add_block-certificates_of block blocks e = elim (Bool-cases (is_certificate block)) [
    | inl yes_cert ↦ rw (yes_cert, e) refl
    | inr no_cert ↦ rw (no_cert, e) refl
  ]

  load_blocks-certificates_of :
      (f : ℕ) (rest : Bytes)
      → DecodesBytes
      → length rest ≤ f
      → (blocks : List Block) × Blocks rest blocks
        × (load_blocks env f rest ≡ certificates_of blocks)
  unfolding load_blocks certificates_of
  load_blocks-certificates_of zero rest shrinks h = elim (Option-cases (env.pem_decode rest)) [
    | inl e ↦ ([], no_block e, rw (load_blocks, e) refl)
    | inr ((block, rest'), e) ↦ let shorter = shrinks rest block rest' e in absurd (omega arith)
  ]
  load_blocks-certificates_of (suc f) rest shrinks h = elim (Option-cases (env.pem_decode rest)) [
    | inl e ↦ ([], no_block e, rw (load_blocks, e) refl)
    | inr ((block, rest'), e) ↦
        let shorter = shrinks rest block rest' e in
        let (blocks, read, same) = load_blocks-certificates_of f rest' shrinks (omega arith) in
        (
          block ∷ blocks,
          next_block e read,
          rw (load_blocks, e) (add_block-certificates_of block blocks same),
        )
  ]

  -- LoadCertificates reads every block of the file, in order, and returns the certificates of the
  -- blocks of the type CERTIFICATE, one at least, or an error; the loop ends. It is assumed that
  -- pem.Decode returns fewer bytes than it was given with a block.
  pub load_certificates-certificates_of :
      (path : Text) (contents : Bytes)
      → DecodesBytes
      → env.read_file path ≡ some contents
      → (blocks : List Block) × Blocks contents blocks
        × (load_certificates env path ≡ (
            certificates_of blocks >>= λ certs.
            fail_if (length certs == 0) no_pem_certificates >>= λ _. ok certs))
  unfolding load_certificates
  load_certificates-certificates_of path contents shrinks e =
      let (blocks, read, same) =
        load_blocks-certificates_of (length contents) contents shrinks (omega arith) in
      (blocks, read, rw (e, same) refl)
