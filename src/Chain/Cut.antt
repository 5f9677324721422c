-- ===== src/Chain/Cut.antt =====
-- Where the loop of certsForSignature in command_sign.go cuts a chain.
use git_kmssign.Base.{
  ℕ, zero, suc, ◌-◌, ◌≤◌, ◌<◌, ◌≡◌, refl, ap, Bool, true, false, List, [], ◌∷◌, length, take,
  get_elem?, ltb, arith, Bool-cases, inl, inr, ltb→lt, ltb→ge,
}
use git_kmssign.Cert.{Certificate}
use git_kmssign.Chain.{has_aia_for, drop_issuers}

abbrev pub Chain : Type 0
Chain = List Certificate

-- What is taken from a chain: its first n certificates, n within the chain.
abbrev pub Front : Chain → Chain → Type 0
Front chain result = (n : ℕ) × (n ≤ length chain) × (result ≡ take n chain)

pub take-take : (m n : ℕ) (l : Chain) → m ≤ n → take m (take n l) ≡ take m l
take-take zero n l h = refl
take-take (suc m) zero l h = absurd (omega arith)
take-take (suc m) (suc n) [] h = refl
take-take (suc m) (suc n) (x ∷ l) h = ap (λ t. x ∷ t) (take-take m n l (omega arith))

pub take-length : (l : Chain) → take (length l) l ≡ l
take-length [] = refl
take-length (x ∷ l) = ap (λ t. x ∷ t) (take-length l)

pub length-take_min : (n : ℕ) (l : Chain) → n ≤ length l → length (take n l) ≡ n
length-take_min zero l h = refl
length-take_min (suc n) [] h = absurd (omega arith)
length-take_min (suc n) (x ∷ l) h = ap suc (length-take_min n l (omega arith))

get_elem?-take : (i n : ℕ) (l : Chain) → i < n → get_elem? (take n l) i ≡ get_elem? l i
get_elem?-take i zero l h = absurd (omega arith)
get_elem?-take i (suc n) [] h = refl
get_elem?-take zero (suc n) (x ∷ l) h = refl
get_elem?-take (suc i) (suc n) (x ∷ l) h = get_elem?-take i n l (omega arith)

-- An issuer can be left out where the certificate below it says where to fetch it.
abbrev pub can_fetch : Chain → ℕ → Bool
can_fetch chain i = has_aia_for (get_elem? chain (suc i)) (get_elem? chain i)

-- The chain is cut in front of the first issuer that can be fetched: k certificates are left.
pub record CutAt (chain : Chain) (i n k : ℕ) : Type 0 where
  pub positive : 0 < k
  pub within : k ≤ n
  -- No certificate but the last one left has an issuer that can be fetched, among those looked at.
  pub none_before : (j : ℕ) → j < i → suc j < k → can_fetch chain j ≡ false
  pub cut_here : k < n → can_fetch chain (k - 1) ≡ true

CutAt-cut :
    (chain : Chain) (i n k : ℕ)
    → CutAt chain i (suc i) k
    → suc i < n
    → can_fetch chain i ≡ true
    → CutAt chain (suc i) n k
CutAt-cut chain i n k c lt cut = record {
  positive = c.positive;
  within = omega arith;
  none_before = λ j p q. c.none_before j (omega arith) q;
  cut_here = λ p. elim (Bool-cases (ltb k (suc i))) [
    | inl before ↦ c.cut_here (ltb→lt k (suc i) before)
    | inr at ↦
        let e : k - 1 ≡ i = omega (arith, ltb→ge k (suc i) at) in
        rw (ap (λ m. can_fetch chain m) e) cut
  ];
}

CutAt-keep :
    (chain : Chain) (i n k : ℕ)
    → CutAt chain i n k
    → can_fetch chain i ≡ false
    → CutAt chain (suc i) n k
CutAt-keep chain i n k c keep = record {
  positive = c.positive;
  within = c.within;
  none_before = λ j p q. elim (Bool-cases (ltb j i)) [
    | inl before ↦ c.none_before j (ltb→lt j i before) q
    | inr at ↦
        let e : j ≡ i = omega (arith, ltb→ge j i at) in rw (ap (λ m. can_fetch chain m) e) keep
  ];
  cut_here = c.cut_here;
}

pub drop_issuers-CutAt :
    (i n : ℕ) (chain : Chain)
    → i < n
    → n ≤ length chain
    → (k : ℕ) × (drop_issuers i (take n chain) ≡ take k chain) × CutAt chain i n k
unfolding drop_issuers
drop_issuers-CutAt zero n chain lt le = (
  n,
  refl,
  record {
    positive = lt;
    within = omega arith;
    none_before = λ j p q. absurd (omega arith);
    cut_here = λ p. absurd (omega arith);
  },
)
drop_issuers-CutAt (suc i) n chain lt le =
    let hi = get_elem?-take (suc i) n chain lt in
    let lo = get_elem?-take i n chain (omega arith) in
    elim (Bool-cases (can_fetch chain i)) [
      | inl cut ↦
          let (k, e, c) = drop_issuers-CutAt i (suc i) chain (omega arith) (omega arith) in
          (
            k,
            rw (hi, lo, cut, take-take (suc i) n chain (omega arith)) e,
            CutAt-cut chain i n k c lt cut,
          )
      | inr keep ↦
          let (k, e, c) = drop_issuers-CutAt i n chain (omega arith) le in
          (k, rw (hi, lo, keep) e, CutAt-keep chain i n k c keep)
    ]
