-- ===== src/Chain/Correct.antt =====
-- What certsForSignature of command_sign.go returns, for every value of --include-certs.
use git_kmssign.Base.{
  ℕ, zero, suc, ◌-◌, ◌≤◌, ◌<◌, ◌≡◌, ◌≢◌, ◌↔◌, subst, Option, none, &&-split, bytes_eq_iff, refl,
  sym, ◌∙◌, ap, true, List, [], ◌∷◌, ◌++◌, length, take, get_elem?, some, bytes_eq, ltb, arith,
  if◌then◌else◌, Bool-cases, inl, inr, ◌⊎◌, ltb→lt, ltb→ge, length-append, take-append,
}
use git_kmssign.Base.Int.{ℤ, pos, negsuc}
use git_kmssign.Base.Text.{Text}
use git_kmssign.Cert.{Certificate}
use git_kmssign.Chain.Cut.{
  Chain, Front, take-take, take-length, length-take_min, can_fetch, CutAt, drop_issuers-CutAt,
}
use git_kmssign.Chain.{
  has_aia_for, drop_issuers, is_self_signed, chain_without_root, clamp_include, select_certs,
  certs_for_signature,
}

clamp_include-negsuc : (k len : ℕ) → k ≤ 2 → clamp_include (negsuc k) len ≡ negsuc k
unfolding clamp_include
clamp_include-negsuc k len h = ground arith

clamp_include-low : (k len : ℕ) → clamp_include (negsuc (suc (suc (suc k)))) len ≡ negsuc 1
unfolding clamp_include
clamp_include-low k len = ground arith

clamp_include-pos :
    (n len : ℕ)
    → ((n ≤ len) × (clamp_include (pos n) len ≡ pos n))
      ⊎ ((len < n) × (clamp_include (pos n) len ≡ pos len))
unfolding clamp_include
clamp_include-pos n len = elim (Bool-cases (ltb len n)) [
  | inl many ↦ inr (ltb→lt len n many, ground arith)
  | inr few ↦ inl (ltb→ge len n few, ground arith)
]

certs_for_signature-CutAt :
    (chain : Chain)
    → 0 < length chain
    → (k : ℕ) × (certs_for_signature (negsuc 2) chain ≡ chain_without_root (take k chain))
      × CutAt chain (length chain - 1) (length chain) k
unfolding certs_for_signature select_certs
certs_for_signature-CutAt chain pos' =
    let (k, e, c) =
      drop_issuers-CutAt (length chain - 1) (length chain) chain (omega arith) (omega arith) in
    (
      k,
      rw (clamp_include-negsuc 2 (length chain) (omega arith))
          (ap chain_without_root (rw (take-length chain) at e)),
      c,
    )

take-of_le : (n : ℕ) (l : Chain) → length l ≤ n → take n l ≡ l
take-of_le zero [] h = refl
take-of_le zero (x ∷ l) h = absurd (omega arith)
take-of_le (suc n) [] h = refl
take-of_le (suc n) (x ∷ l) h = ap (λ t. x ∷ t) (take-of_le n l (omega arith))

-- A number n takes the first n certificates, all if there are fewer; -1 takes all; -2 and every value
-- below -3 take all but a root at the end.
pub certs_for_signature_cases :
    (n k : ℕ) (chain : Chain)
    → (certs_for_signature (pos n) chain ≡ take n chain)
      × (certs_for_signature (negsuc 0) chain ≡ chain)
      × (certs_for_signature (negsuc 1) chain ≡ chain_without_root chain)
      × (certs_for_signature (negsuc (suc (suc (suc k)))) chain ≡ chain_without_root chain)
unfolding certs_for_signature select_certs
certs_for_signature_cases n k chain =
    let len = length chain in
    (
      number,
      rw (clamp_include-negsuc 0 len (omega arith)) refl,
      rw (clamp_include-negsuc 1 len (omega arith)) refl,
      rw (clamp_include-low k len) refl,
    )
  where
    number : certs_for_signature (pos n) chain ≡ take n chain
    number = elim (clamp_include-pos n (length chain)) [
      | inl (le, e) ↦ rw e refl
      | inr (lt, e) ↦ rw e (take-length chain ∙ sym (take-of_le n chain (omega arith)))
    ]

get_elem?-last :
    (front : Chain) (c : Certificate) (n : ℕ)
    → n ≡ length front
    → get_elem? (front ++ (c ∷ [])) n ≡ some c
get_elem?-last [] c zero e = refl
get_elem?-last [] c (suc n) e = absurd (omega arith)
get_elem?-last (x ∷ front) c zero e = absurd (omega arith)
get_elem?-last (x ∷ front) c (suc n) e = get_elem?-last front c n (omega arith)

-- The last certificate is dropped exactly if its issuer is its subject.
pub chain_without_root-last :
    (front : Chain) (last : Certificate)
    → chain_without_root (front ++ (last ∷ []))
      ≡ (if bytes_eq last.raw_issuer last.raw_subject then front else front ++ (last ∷ []))
unfolding chain_without_root
chain_without_root-last [] last = refl
chain_without_root-last (x ∷ front) last =
    let size : length (front ++ (last ∷ [])) ≡ suc (length front) =
      omega (arith, length-append front (last ∷ [])) in
    rw (size, get_elem?-last front last (length front) refl)
      (unfold is_self_signed in rw (take-append (length front) front (last ∷ []) refl) refl)

-- The certificate at i gives a URL for its issuer's certificate, and the next certificate is of that
-- issuer.
pub data CanFetch (chain : Chain) (i : ℕ) : Type 0 where
  can_fetch_issuer :
      {cert issuer : Certificate}
      → get_elem? chain i ≡ some cert
      → get_elem? chain (suc i) ≡ some issuer
      → issuer.raw_subject ≡ cert.raw_issuer
      → cert.issuing_certificate_url ≢ []
      → CanFetch chain i

has_url : (urls : List Text) → (ltb 0 (length urls) ≡ true) ↔ (urls ≢ [])
has_url [] = (λ h. cc, λ ne. absurd (ne refl))
has_url (url ∷ urls) = (λ h e. cc, λ ne. ground arith)

has_aia_for-CanFetch :
    (chain : Chain) (i : ℕ) (issuer cert : Option Certificate)
    → get_elem? chain (suc i) ≡ issuer
    → get_elem? chain i ≡ cert
    → has_aia_for issuer cert ≡ true
    → CanFetch chain i
unfolding has_aia_for
has_aia_for-CanFetch chain i (some issuer) (some cert) e e' h =
    let (named, url) = &&-split _ _ h in
    can_fetch_issuer e' e ((bytes_eq_iff issuer.raw_subject cert.raw_issuer).0 named)
      ((has_url cert.issuing_certificate_url).0 url)
has_aia_for-CanFetch chain i none cert e e' h = cc
has_aia_for-CanFetch chain i (some issuer) none e e' h = cc

CanFetch-true : (chain : Chain) (i : ℕ) → CanFetch chain i → can_fetch chain i ≡ true
unfolding has_aia_for
CanFetch-true chain i (can_fetch_issuer {cert} {issuer} e e' named url) =
    let same : bytes_eq issuer.raw_subject cert.raw_issuer ≡ true = (bytes_eq_iff _ _).1 named in
    let some_url : ltb 0 (length cert.issuing_certificate_url) ≡ true =
      (has_url cert.issuing_certificate_url).1 url in
    rw (e, e', same, some_url) refl

-- A chain whose last certificate is left out if it is its own issuer.
pub data WithoutRoot : Chain → Chain → Type 0 where
  root_dropped :
      (front : Chain) (last : Certificate)
      → last.raw_issuer ≡ last.raw_subject
      → WithoutRoot (front ++ (last ∷ [])) front
  no_root :
      (front : Chain) (last : Certificate)
      → last.raw_issuer ≢ last.raw_subject
      → WithoutRoot (front ++ (last ∷ [])) (front ++ (last ∷ []))

ends_with :
    (chain : Chain)
    → 0 < length chain
    → (front : Chain) × (last : Certificate) × (chain ≡ front ++ (last ∷ []))
ends_with [] h = absurd (omega arith)
ends_with (c ∷ []) h = ([], c, refl)
ends_with (c ∷ c' ∷ chain) h =
    let (front, last, e) = ends_with (c' ∷ chain) (omega arith) in
    (c ∷ front, last, ap (λ l. c ∷ l) e)

chain_without_root-WithoutRoot :
    (chain : Chain) → 0 < length chain → WithoutRoot chain (chain_without_root chain)
chain_without_root-WithoutRoot chain some_certs =
    let (front, last, e) = ends_with chain some_certs in
    let dropped = chain_without_root-last front last in
    subst (λ l. WithoutRoot l (chain_without_root l)) (sym e)
      (elim (Bool-cases (bytes_eq last.raw_issuer last.raw_subject)) [
        | inl root ↦ rw (dropped, root) (root_dropped front last ((bytes_eq_iff _ _).0 root))
        | inr plain ↦
            rw (dropped, plain)
              (no_root front last (λ same. let root = (bytes_eq_iff _ _).1 same in cc))
      ])

-- What -3 makes of a chain: its first certificates up to the first one whose issuer can be fetched,
-- without a root at their end.
pub record CutChain (chain result : Chain) : Type 0 where
  pub kept : ℕ
  pub is_positive : 0 < kept
  pub is_within : kept ≤ length chain
  pub none_before : (j : ℕ) → suc j < kept → ¬ CanFetch chain j
  pub cut_here : kept < length chain → CanFetch chain (kept - 1)
  pub is_result : WithoutRoot (take kept chain) result

-- With -3, a chain that is not empty is cut behind the first certificate that gives a URL for the
-- certificate of its issuer, which comes next, and the last of what is left is dropped if it is its own
-- issuer.
pub certs_for_signature-aia :
    (chain : Chain) → 0 < length chain → CutChain chain (certs_for_signature (negsuc 2) chain)
certs_for_signature-aia chain some_certs =
    let (k, e, c) = certs_for_signature-CutAt chain some_certs in
    let size = length-take_min k chain c.within in
    record {
      kept = k;
      is_positive = c.positive;
      is_within = c.within;
      none_before = λ j lt fetch.
          let no = c.none_before j (omega (arith, c.within)) lt in
          let yes = CanFetch-true chain j fetch in cc;
      cut_here = λ lt. has_aia_for-CanFetch chain (k - 1) _ _ refl refl (c.cut_here lt);
      is_result =
          subst (WithoutRoot (take k chain)) (sym e)
            (chain_without_root-WithoutRoot (take k chain) (omega (arith, size, c.positive)));
    }

chain_without_root-Front : (chain : Chain) → Front chain (chain_without_root chain)
unfolding chain_without_root
chain_without_root-Front [] = (0, omega arith, refl)
chain_without_root-Front (c ∷ cs) =
    elim (Bool-cases (is_self_signed (get_elem? (c ∷ cs) (length cs)))) [
      | inl root ↦ (length cs, omega arith, rw root refl)
      | inr plain ↦ (suc (length cs), omega arith, rw plain (sym (take-length (c ∷ cs))))
    ]

-- Whatever the option says, the certificates are the first of the chain, in its order, and no more
-- than it has: the slice expressions are in range.
certs_for_signature-Front :
    (include : ℤ) (chain : Chain) → Front chain (certs_for_signature include chain)
unfolding certs_for_signature select_certs
certs_for_signature-Front (pos n) chain = elim (clamp_include-pos n (length chain)) [
  | inl (le, e) ↦ (n, le, rw e refl)
  | inr (lt, e) ↦ (length chain, omega arith, rw e refl)
]
certs_for_signature-Front (negsuc zero) chain = (
  length chain,
  omega arith,
  rw (clamp_include-negsuc 0 (length chain) (omega arith)) (sym (take-length chain)),
)
certs_for_signature-Front (negsuc (suc zero)) chain =
    rw (clamp_include-negsuc 1 (length chain) (omega arith)) (chain_without_root-Front chain)
certs_for_signature-Front (negsuc (suc (suc zero))) [] =
    rw (clamp_include-negsuc 2 0 (omega arith)) (unfold drop_issuers in chain_without_root-Front [])
certs_for_signature-Front (negsuc (suc (suc zero))) (c ∷ cs) =
    let (k, e, at) = certs_for_signature-CutAt (c ∷ cs) (omega arith) in
    let (m, le, e') = chain_without_root-Front (take k (c ∷ cs)) in
    let size = length-take_min k (c ∷ cs) at.within in
    (m, omega (arith, at.within), e ∙ e' ∙ take-take m k (c ∷ cs) (omega arith))
certs_for_signature-Front (negsuc (suc (suc (suc k)))) chain =
    rw (clamp_include-low k (length chain)) (chain_without_root-Front chain)
