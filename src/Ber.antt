-- ===== src/Ber.antt =====
-- ietf-cms/protocol/ber.go: transcoding BER to DER. A byte slice is a list of numbers below 256, an
-- offset is an index into the whole input, and an index out of range is `panic`. `int` is taken to
-- be 64 bits wide. The counter `encodeIndent` is only written (it serves commented-out prints), and
-- errors of bytes.Buffer writes, which never occur, are left out.
pub mod Format
pub mod Lengths
pub mod Read
pub mod Rounds
pub mod Complete
pub mod Canonical
pub mod Total
pub mod Quirks
mod Tests
use git_kmssign.Base.{
  ℕ, zero, suc, ◌+◌, ◌-◌, ◌*◌, ◌/◌, ◌%◌, ◌^◌, bit_and, bit_or, Bool, true, false, ◌&&◌, ◌||◌, [],
  ◌∷◌, ◌++◌, Bytes, length, get_elem?, drop, slice, ltb, leb, ◌==◌, if◌then◌else◌, Result, ok, err,
  stuck, ◌>>=◌, ◌>>◌, fail_if, or_panic, ber_empty, length_too_long, length_negative,
  length_leading_zero, length_too_large, indefinite_primitive, invalid_ber,
}

-- asn1Object, with asn1Structured and asn1Primitive as its implementations.
mutual
  pub data Asn1Object : Type 0 where
    structured : Bytes → Asn1Objects → Asn1Object
    primitive : Bytes → ℕ → Bytes → Asn1Object

  pub data Asn1Objects : Type 0 where
    nil : Asn1Objects
    cons : Asn1Object → Asn1Objects → Asn1Objects

-- The loop of lengthLength, on fuel: an int has at most eight bytes.
length_length_loop : ℕ → ℕ → ℕ → ℕ
length_length_loop zero i num_bytes = num_bytes
length_length_loop (suc f) i num_bytes =
    let rest = length_length_loop f (i / 256) (num_bytes + 1) in
    if ltb 255 i then rest else num_bytes

pub length_length : ℕ → ℕ
unfolding length_length_loop
length_length i = length_length_loop 8 i 1

-- The loop of marshalLongLength, with n bytes still to write: byte(i >> ((n-1)*8)).
pub marshal_long_length : ℕ → ℕ → Bytes
marshal_long_length zero i = []
marshal_long_length (suc n) i = (i / 256 ^ n % 256) ∷ marshal_long_length n i

unfoldable pub encode_length : ℕ → Bytes
unfolding length_length marshal_long_length
encode_length len =
    if leb 128 len
    then bit_or 0x80 (length_length len % 256) ∷ marshal_long_length (length_length len) len
    else len % 256 ∷ []

-- encodeTo: the bytes that are appended to the buffer.
unfoldable mutual
  pub encode : Asn1Object → Bytes
  encode (structured tag_bytes content) =
      tag_bytes ++ (encode_length (length (encode_all content)) ++ encode_all content)
  encode (primitive tag_bytes len content) = tag_bytes ++ (encode_length len ++ content)

  pub encode_all : Asn1Objects → Bytes
  encode_all nil = []
  encode_all (cons o os) = encode o ++ encode_all os

-- The long form of a tag: the tag number (a byte, which nothing reads) and the offset behind it.
pub read_long_tag : ℕ → Bytes → ℕ → ℕ → Result (ℕ × ℕ)
read_long_tag zero ber tag offset = stuck
read_long_tag (suc f) ber tag offset = do
  b ← or_panic (get_elem? ber offset)
  let tag' = (tag * 128 + b + 256 - 0x80) % 256
  let more = read_long_tag f ber tag' (offset + 1)
  if leb 0x80 b then more else ok (tag', offset + 1)

-- The offset behind the tag that starts at `offset` with the byte b.
unfoldable pub read_tag : Bytes → ℕ → ℕ → Result ℕ
unfolding read_long_tag
read_tag ber b offset =
    let long =
      read_long_tag (suc (length ber)) ber 0 (offset + 1) >>= λ (tag, tag_end). ok tag_end in
    if bit_and b 0x1F == 0x1F then long else ok (offset + 1)

-- The loop over the bytes of a long length, with `number_of_bytes` of them left.
pub read_length_bytes : ℕ → Bytes → ℕ → ℕ → Result (ℕ × ℕ)
read_length_bytes zero ber len offset = ok (len, offset)
read_length_bytes (suc n) ber len offset = do
  b ← or_panic (get_elem? ber offset)
  read_length_bytes n ber (len * 256 + b) (offset + 1)

pub read_long_length : Bytes → ℕ → ℕ → Result (ℕ × ℕ)
read_long_length ber number_of_bytes offset = do
  fail_if (ltb 4 number_of_bytes) length_too_long
  b ← or_panic (get_elem? ber offset)
  fail_if (number_of_bytes == 4 && ltb 0x7F b) length_negative
  fail_if (0 == b) length_leading_zero
  read_length_bytes number_of_bytes ber 0 offset

-- The length, the offset behind it, and whether the form is indefinite.
unfoldable pub read_length : Bytes → ℕ → Result (ℕ × ℕ × Bool)
unfolding read_long_length
read_length ber offset = do
  l ← or_panic (get_elem? ber offset)
  let long = do
    (len, offset') ← read_long_length ber (bit_and l 0x7F) (offset + 1)
    ok (len, offset', false)
  if ltb 0x80 l
      then long
      else if l == 0x80
      then ok (0, offset + 1, true)
      else ok (l, offset + 1, false)

-- bytes.Index(rest, {0, 0}) == 0
abbrev starts_with_zeros : Bytes → Bool
starts_with_zeros (a ∷ b ∷ _) = a == 0 && b == 0
starts_with_zeros _ = false

pub is_indefinite_termination : Bytes → ℕ → Result Bool
is_indefinite_termination ber offset =
    if ltb (length ber - offset) 2
    then err invalid_ber
    else ok (starts_with_zeros (drop offset ber))

-- readObject, and the loop over its sub-objects. Each returns what it read and the offset behind.
unfoldable mutual
  pub read_object : ℕ → Bytes → ℕ → Result (Asn1Object × ℕ)
  read_object zero ber tag_start = stuck
  read_object (suc f) ber tag_start = do
    b ← or_panic (get_elem? ber tag_start)
    tag_end ← read_tag ber b tag_start
    (len, offset, indefinite) ← read_length ber tag_end
    let content_end = offset + len
    fail_if (ltb (length ber) content_end) length_too_large
    fail_if (indefinite && bit_and b 0x20 == 0) indefinite_primitive
    let tag_bytes = slice ber tag_start tag_end
    let sub = do
      (sub_objects, offset') ← read_sub_objects f ber offset content_end indefinite
      ok (structured tag_bytes sub_objects, (if indefinite then offset' + 2 else content_end))
    if bit_and b 0x20 == 0
        then ok (primitive tag_bytes len (slice ber offset content_end), content_end)
        else sub

  pub read_sub_objects : ℕ → Bytes → ℕ → ℕ → Bool → Result (Asn1Objects × ℕ)
  read_sub_objects zero ber offset content_end indefinite = stuck
  read_sub_objects (suc f) ber offset content_end indefinite =
      let round = do
        (o, offset') ← read_object f ber offset
        let again = do
          (os, last) ← read_sub_objects f ber offset' content_end indefinite
          ok (cons o os, last)
        let check = do
          terminated ← is_indefinite_termination ber offset'
          if terminated then ok (cons o nil, offset') else again
        if indefinite then check else again
      in if ltb offset content_end || indefinite then round else ok (nil, offset)

-- Enough for every input: see Ber/Total.antt.
abbrev pub fuel_for : Bytes → ℕ
fuel_for ber = suc (suc (length ber))

unfoldable pub ber2der : Bytes → Result Bytes
ber2der [] = err ber_empty
ber2der (b ∷ rest) = do (obj, _) ← read_object (fuel_for (b ∷ rest)) (b ∷ rest) 0; ok (encode obj)
