-- ===== src/Timestamp/Correct.antt =====
-- What the messages of ietf-cms/timestamp/timestamp.go stand for.
use git_kmssign.Base.{
  ℕ, not-eq-false, ◌≡◌, ◌≢◌, refl, sym, ap, ◌∙◌, subst, ◌↔◌, Bool, true, false, not, ◌&&◌, ◌||◌,
  List, [], ◌∷◌, Bytes, bytes_eq, bytes_eq_iff, length, ==_iff, ◌==◌, if◌then◌else◌, Option, none,
  some, ok, fail_if, or_err, >>=-eq-ok, or_err-eq-ok, fail_if-eq-ok, ok-injective, unsupported,
  wrong_type, missing_content, request_refused,
}
use git_kmssign.Base.Int.{ℤ, pos, negsuc}
use git_kmssign.Cert.{Hash}
use git_kmssign.Oids.{content_type_tst_info, crypto_hash_to_digest_algorithm}
use git_kmssign.Oids.Correct.{crypto_hash_round_trip}
use git_kmssign.Protocol.{SignedData, EncapsulatedContentInfo, Asn1}
use git_kmssign.Protocol.Content.{e_content_value}
use git_kmssign.Protocol.Messages.{signed_data_content}
use git_kmssign.Protocol.Signers.{eq_ℤ, whole}
use git_kmssign.Protocol.Signing.{Crypto}
use git_kmssign.Timestamp.{MessageImprint, Request, Info, Response, PkiFreeText, Asn1Time}
use git_kmssign.Timestamp.Imprint.{new_message_imprint, imprint_hash, has_parameters, imprint_equal}
use git_kmssign.Timestamp.FreeText.{append, strings, is_error}
use git_kmssign.Timestamp.Service.{same_nonce, request_matches, parse_info, response_info}

pub eq_ℤ_iff : (a b : ℤ) → (eq_ℤ a b ≡ true) ↔ (a ≡ b)
unfolding eq_ℤ
eq_ℤ_iff (pos m) (pos n) = (λ h. ap pos ((==_iff m n).0 h), λ h. (==_iff m n).1 (cc))
eq_ℤ_iff (pos m) (negsuc n) = (λ h. cc, λ h. cc)
eq_ℤ_iff (negsuc m) (pos n) = (λ h. cc, λ h. cc)
eq_ℤ_iff (negsuc m) (negsuc n) = (λ h. ap negsuc ((==_iff m n).0 h), λ h. (==_iff m n).1 (cc))

if_false-eq-false : (b : Bool) → (if b then false else true) ≡ false → b ≡ true
if_false-eq-false true h = refl
if_false-eq-false false h = cc

pub whole-eq-ok : {A : Type 0} (o : Option (A × Bytes)) {a : A} → whole o ≡ ok a → o ≡ some (a, [])
whole-eq-ok none h = cc
whole-eq-ok (some (b, [])) h = ap (λ x. some (x, [])) (ok-injective h)
whole-eq-ok (some (b, _ ∷ _)) h = cc

-- The same algorithm and digest, and the same encoded parameters if one of them has parameters.
abbrev pub SameImprint : MessageImprint → MessageImprint → Type 0
SameImprint mi other =
    (mi.hash_algorithm.algorithm ≡ other.hash_algorithm.algorithm)
    × (mi.hashed_message ≡ other.hashed_message)
    × ((has_parameters mi || has_parameters other) ≡ true
        → mi.hash_algorithm.parameters.full_bytes ≡ other.hash_algorithm.parameters.full_bytes)

-- The three guards of Equal, on their tests.
guards_iff :
    (a p f m : Bool)
    → ((if not a then false else if p && not f then false else if not m then false else true)
        ≡ true)
      ↔ ((a ≡ true) × (m ≡ true) × (p ≡ true → f ≡ true))
guards_iff false p f m = (λ h. cc, λ h. cc)
guards_iff true true false m = (λ h. cc, λ (_, _, f). let e = f refl in cc)
guards_iff true true true false = (λ h. cc, λ h. cc)
guards_iff true true true true = (λ h. (refl, refl, λ p. refl), λ h. refl)
guards_iff true false f false = (λ h. cc, λ h. cc)
guards_iff true false f true = (λ h. (refl, refl, λ p. cc), λ h. refl)

-- Equal holds exactly if two imprints have the same algorithm and digest, and the same encoded
-- parameters if one of them has parameters.
pub imprint_equal_iff :
    (mi other : MessageImprint) → (imprint_equal mi other ≡ true) ↔ SameImprint mi other
unfolding imprint_equal
imprint_equal_iff mi other =
    let (to, back) =
      guards_iff (bytes_eq mi.hash_algorithm.algorithm other.hash_algorithm.algorithm)
        (has_parameters mi || has_parameters other)
        (bytes_eq mi.hash_algorithm.parameters.full_bytes
          other.hash_algorithm.parameters.full_bytes)
        (bytes_eq mi.hashed_message other.hashed_message) in
    (
      λ h.
          let (a, m, f) = to h in
          ((bytes_eq_iff _ _).0 a, (bytes_eq_iff _ _).0 m, λ p. (bytes_eq_iff _ _).0 (f p)),
      λ h.
          let (a, m, f) = h in
          back ((bytes_eq_iff _ _).1 a, (bytes_eq_iff _ _).1 m, λ p. (bytes_eq_iff _ _).1 (f p)),
    )

-- A fresh imprint holds the digest of the data, and its algorithm is read as the hash.
pub new_message_imprint-imprint_hash :
    (crypto : Crypto) (hash : Hash) (message : Bytes) (mi : MessageImprint)
    → new_message_imprint crypto hash message ≡ ok mi
    → (imprint_hash crypto mi ≡ ok hash) × (mi.hashed_message ≡ crypto.digest hash message)
unfolding new_message_imprint imprint_hash
new_message_imprint-imprint_hash crypto hash message mi h =
    let (_, _, h₁) =
      >>=-eq-ok (fail_if (length (crypto_hash_to_digest_algorithm hash) == 0) unsupported) _ h in
    let (_, e, h₂) = >>=-eq-ok (fail_if (not (crypto.available hash)) unsupported) _ h₁ in
    let goal : MessageImprint → Type 0 =
      λ mi. (imprint_hash crypto mi ≡ ok hash) × (mi.hashed_message ≡ crypto.digest hash message) in
    subst goal (ok-injective h₂)
      (rw (crypto_hash_round_trip hash, fail_if-eq-ok _ unsupported e) refl, refl)

-- Matches, on the answer of Equal and the nonces.
matches_cases :
    {P : Type 0} {same : Bool}
    → (same ≡ true) ↔ P
    → (answered : Option ℤ) (n : ℤ)
    → ((if not same then ok false else same_nonce (some n) answered) ≡ ok true)
      ↔ (P × (answered ≡ some n))
unfolding same_nonce
matches_cases {same = false} (to, back) answered n = (λ h. cc, λ (p, _). let e = back p in cc)
matches_cases {same = true} (to, back) none n = (λ h. cc, λ (_, e). cc)
matches_cases {same = true} (to, back) (some m) n =
    let (to', back') = eq_ℤ_iff n m in
    (
      λ h. (to refl, ap (λ k. some k) (sym (to' (ok-injective h)))),
      λ (_, e). ap (λ b. ok b) (back' (cc)),
    )

-- Matches on a request with a nonce holds exactly if the imprints are the same and the answer has the nonce.
pub request_matches_iff :
    (req : Request) (tsti : Info) (n : ℤ)
    → req.nonce ≡ some n
    → (request_matches req tsti ≡ ok true)
      ↔ (SameImprint req.message_imprint tsti.message_imprint × (tsti.nonce ≡ some n))
unfolding request_matches same_nonce
request_matches_iff req tsti n e =
    rw e (matches_cases (imprint_equal_iff req.message_imprint tsti.message_imprint) tsti.nonce n)

module _ (time : Asn1Time) where
  -- If encoding/asn1 cannot read a string from no bytes, Strings fails on every text that Append returned.
  strings-append :
      (ft : PkiFreeText) (t : Bytes) (strs : List (List ℕ))
      → time.unmarshal_text [] ≡ none
      → strings time (append ft t) ≢ ok strs
  unfolding strings append
  strings-append [] t strs h = rw h (λ e. cc)
  strings-append (raw ∷ ft) t strs h = λ e.
      let (str, _, e₁) = >>=-eq-ok (whole (time.unmarshal_text raw.full_bytes)) _ e in
      let (strs', e₂, _) = >>=-eq-ok (strings time (append ft t)) _ e₁ in
      strings-append ft t strs' h e₂

  module _ (asn1 : Asn1) where
    -- What ParseInfo read.
    abbrev pub Holds : EncapsulatedContentInfo → Info → Type 0
    Holds eci i =
        (eci.e_content_type ≡ content_type_tst_info)
        × (content : Bytes) × (e_content_value asn1 eci ≡ ok (some content))
        × (time.unmarshal_info content ≡ some (i, []))

    pub parse_info-Holds :
        (eci : EncapsulatedContentInfo) (i : Info) → parse_info time asn1 eci ≡ ok i → Holds eci i
    unfolding parse_info
    parse_info-Holds eci i h =
        let (_, e₁, h₁) =
          >>=-eq-ok (fail_if (not (bytes_eq eci.e_content_type content_type_tst_info)) wrong_type) _
            h in
        let (value, e₂, h₂) = >>=-eq-ok (e_content_value asn1 eci) _ h₁ in
        let (content, e₃, h₃) = >>=-eq-ok (or_err value missing_content) _ h₂ in
        let found = e₂ ∙ ap ok (or_err-eq-ok value missing_content e₃) in
        (
          (bytes_eq_iff _ _).0 (not-eq-false (fail_if-eq-ok _ wrong_type e₁)),
          content,
          found,
          whole-eq-ok _ h₃,
        )

    -- Info that returns no error found the status granted, and read the whole content of the token, whose
    -- type is TSTInfo.
    response_info-Granted :
        (r : Response) (i : Info)
        → response_info time asn1 r ≡ ok i
        → (r.status.status ≡ pos 0)
          × (sd : SignedData) × (signed_data_content asn1 r.time_stamp_token ≡ ok sd)
          × Holds sd.encap_content_info i
    unfolding response_info is_error
    response_info-Granted r i h =
        let (_, e₁, h₁) = >>=-eq-ok (fail_if (is_error r.status) request_refused) _ h in
        let (sd, e₂, h₂) = >>=-eq-ok (signed_data_content asn1 r.time_stamp_token) _ h₁ in
        (
          (eq_ℤ_iff r.status.status (pos 0)).0
              (if_false-eq-false _ (fail_if-eq-ok (is_error r.status) request_refused e₁)),
          sd,
          e₂,
          parse_info-Holds sd.encap_content_info i h₂,
        )
