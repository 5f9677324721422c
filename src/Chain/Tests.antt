-- ===== src/Chain/Tests.antt =====
-- The theorems on the certificates of a signature (command_sign.go) at concrete inputs.
use git_kmssign.Base.{[], ◌∷◌, arith}
use git_kmssign.Base.Int.{negsuc}
use git_kmssign.Cert.Samples.{leaf, root}
use git_kmssign.Chain.{certs_for_signature}
use git_kmssign.Chain.Cut.{Chain}
use git_kmssign.Chain.Correct.{CutChain, certs_for_signature-aia}

abbrev two : Chain
two = leaf ∷ root ∷ []

certs_for_signature-aia_example : CutChain two (certs_for_signature (negsuc 2) two)
certs_for_signature-aia_example = certs_for_signature-aia two (omega arith)
