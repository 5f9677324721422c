-- ===== src/Ber/Format.antt =====
-- What the code of ietf-cms/protocol/ber.go should read, stated with no reading function: the byte
-- strings that encode an object in BER (X.690), with the length forms that the source accepts.
use git_kmssign.Base.{
  ℕ, ◌+◌, ◌*◌, ◌<◌, ◌≡◌, ◌≢◌, bit_and, Bool, true, false, [], ◌∷◌, ◌++◌, Bytes, length, leb, ◌==◌,
  arith,
}
use git_kmssign.Ber.{Asn1Object, Asn1Objects, structured, primitive, nil, cons}

-- The bytes of a tag number behind the first byte: all but the last have the top bit set.
pub data IsTagNumber : Bytes → Type 0 where
  last_byte : {b : ℕ} → leb 0x80 b ≡ false → IsTagNumber (b ∷ [])
  inner_byte : {b : ℕ} {bs : Bytes} → leb 0x80 b ≡ true → IsTagNumber bs → IsTagNumber (b ∷ bs)

-- The bytes of a tag; the flag says that the encoding is primitive.
pub data IsTag : Bool → Bytes → Type 0 where
  low_tag :
      {p : Bool} {b : ℕ}
      → (bit_and b 0x1F == 0x1F) ≡ false
      → (bit_and b 0x20 == 0) ≡ p
      → IsTag p (b ∷ [])
  high_tag :
      {p : Bool} {b : ℕ} {bs : Bytes}
      → (bit_and b 0x1F == 0x1F) ≡ true
      → (bit_and b 0x20 == 0) ≡ p
      → IsTagNumber bs
      → IsTag p (b ∷ bs)

-- The number that big-endian bytes stand for.
abbrev pub big_endian : ℕ → Bytes → ℕ
big_endian acc [] = acc
big_endian acc (b ∷ bs) = big_endian (acc * 256 + b) bs

-- A definite length: the short form, or one to four bytes behind their count, with no leading zero
-- and, if there are four, no top bit.
pub data IsLength (n : ℕ) : Bytes → Type 0 where
  short_form : n < 128 → IsLength n (n ∷ [])
  long_form :
      (b : ℕ) (bs : Bytes)
      → length bs < 4
      → b ≢ 0
      → (length bs ≡ 3 → b < 128)
      → big_endian b bs ≡ n
      → {l : ℕ} → l ≡ 129 + length bs
      → IsLength n (l ∷ b ∷ bs)

-- No object is taken for an end-of-contents mark: no tag starts with a zero byte.
abbrev pub NonZero : Bytes → Type 0
NonZero [] = ⊥
NonZero (b ∷ bs) = b ≢ 0

abbrev pub tag_bytes : Asn1Object → Bytes
tag_bytes (structured t os) = t
tag_bytes (primitive t n c) = t

abbrev pub NoMarks : Asn1Objects → Type 0
NoMarks nil = Unit
NoMarks (cons o os) = NonZero (tag_bytes o) × NoMarks os

abbrev pub NonEmpty : Asn1Objects → Type 0
NonEmpty nil = ⊥
NonEmpty (cons o os) = Unit

-- `Encodes o bs`: the bytes bs are a BER encoding of o.
mutual
  pub data Encodes : Asn1Object → Bytes → Type 0 where
    of_primitive :
        {t ls c bs : Bytes} {n : ℕ}
        → IsTag true t
        → n ≡ length c
        → IsLength n ls
        → bs ≡ t ++ (ls ++ c)
        → Encodes (primitive t n c) bs
    definite :
        {t ls cs bs : Bytes} {os : Asn1Objects}
        → IsTag false t
        → EncodesAll os cs
        → IsLength (length cs) ls
        → bs ≡ t ++ (ls ++ cs)
        → Encodes (structured t os) bs
    indefinite :
        {t cs bs : Bytes} {os : Asn1Objects}
        → IsTag false t
        → EncodesAll os cs
        → NonEmpty os
        → NoMarks os
        → bs ≡ t ++ (0x80 ∷ (cs ++ (0 ∷ 0 ∷ [])))
        → Encodes (structured t os) bs

  pub data EncodesAll : Asn1Objects → Bytes → Type 0 where
    none_left : EncodesAll nil []
    one_more :
        {o : Asn1Object} {os : Asn1Objects} {bs cs ds : Bytes}
        → Encodes o bs
        → EncodesAll os cs
        → ds ≡ bs ++ cs
        → EncodesAll (cons o os) ds

-- An object whose parts fit together: its tag says whether it is primitive, and the length that a
-- primitive carries is that of its content.
mutual
  pub data IsWellFormed : Asn1Object → Type 0 where
    wf_primitive :
        {t c : Bytes} {n : ℕ} → IsTag true t → n ≡ length c → IsWellFormed (primitive t n c)
    wf_structured :
        {t : Bytes} {os : Asn1Objects}
        → IsTag false t
        → AllWellFormed os
        → IsWellFormed (structured t os)

  pub data AllWellFormed : Asn1Objects → Type 0 where
    wf_nil : AllWellFormed nil
    wf_cons :
        {o : Asn1Object} {os : Asn1Objects}
        → IsWellFormed o
        → AllWellFormed os
        → AllWellFormed (cons o os)

-- A tag has a byte.
pub IsTag-pos : {p : Bool} {t : Bytes} → IsTag p t → 0 < length t
IsTag-pos (low_tag h k) = omega arith
IsTag-pos (high_tag h k m) = omega arith

pub IsLength-pos : {n : ℕ} {ls : Bytes} → IsLength n ls → 0 < length ls
IsLength-pos (short_form h) = omega arith
IsLength-pos (long_form b bs h1 h2 h3 h4 h5) = omega arith
