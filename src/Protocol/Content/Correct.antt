-- ===== src/Protocol/Content/Correct.antt =====
-- What EContentValue of ietf-cms/protocol/protocol.go finds.
use git_kmssign.Base.{
  ℕ, zero, suc, ◌≤◌, ◌≡◌, refl, ap, ◌∙◌, true, false, List, [], ◌∷◌, ◌++◌, append-nil, append_assoc,
  length, Bytes, Option, none, some, ok, ◌>>=◌, arith,
}
use git_kmssign.Cert.{Oid}
use git_kmssign.Protocol.{RawValue, EncapsulatedContentInfo, Asn1}
use git_kmssign.Protocol.Attributes.{class_universal}
use git_kmssign.Protocol.Signers.{tag_octet_string}
use git_kmssign.Protocol.Content.{
  octet_string, append_segment, new_encapsulated_content_info, join_segments, octets_value,
  e_content_value_of, e_content_value,
}

abbrev pub concatenated : List Bytes → Bytes
concatenated [] = []
concatenated (segment ∷ segments) = segment ++ concatenated segments

module _ (asn1 : Asn1) where
  -- Bytes that encoding/asn1 reads as a sequence of primitive octet strings.
  pub data Segments : Bytes → List Bytes → Type 0 where
    no_more : Segments [] []
    next_segment :
        {b : ℕ} {der rest : Bytes} {rv : RawValue} {segments : List Bytes}
        → asn1.unmarshal_raw (b ∷ der) ≡ some (rv, rest)
        → length rest ≤ length der
        → rv.tag_class ≡ class_universal
        → rv.tag ≡ tag_octet_string
        → rv.is_compound ≡ false
        → Segments rest segments
        → Segments (b ∷ der) (rv.bytes ∷ segments)

  join_segments-some :
      (f : ℕ) (der value : Bytes) {segments : List Bytes}
      → length der ≤ f
      → Segments der segments
      → join_segments asn1 f der (some value) ≡ ok (some (value ++ concatenated segments))
  unfolding join_segments append_segment
  join_segments-some f _ value le no_more = rw append-nil refl
  join_segments-some zero _ value le (next_segment e lt c t p s) = absurd (omega arith)
  join_segments-some (suc f) _ value le (next_segment {rest = rest} {rv} {segments} e lt c t p s) =
      rw (e, c, t, p)
        (join_segments-some f rest (value ++ rv.bytes) (omega arith) s
          ∙ ap (λ v. ok (some v)) (append_assoc value rv.bytes (concatenated segments)))

  -- The segments joined; nil if all of them are empty.
  abbrev pub joined : List Bytes → Option Bytes
  joined [] = none
  joined ([] ∷ segments) = joined segments
  joined ((b ∷ bs) ∷ segments) = some ((b ∷ bs) ++ concatenated segments)

  join_segments-step :
      (f : ℕ) (rest : Bytes) (segment : Bytes) {segments : List Bytes}
      → length rest ≤ f
      → Segments rest segments
      → join_segments asn1 f rest none ≡ ok (joined segments)
      → join_segments asn1 f rest (append_segment none segment) ≡ ok (joined (segment ∷ segments))
  unfolding append_segment
  join_segments-step f rest [] le s h = h
  join_segments-step f rest (b ∷ bs) le s h = join_segments-some f rest (b ∷ bs) le s

  join_segments-joined :
      (f : ℕ) (der : Bytes) {segments : List Bytes}
      → length der ≤ f
      → Segments der segments
      → join_segments asn1 f der none ≡ ok (joined segments)
  unfolding join_segments
  join_segments-joined f _ le no_more = refl
  join_segments-joined zero _ le (next_segment e lt c t p s) = absurd (omega arith)
  join_segments-joined (suc f) _ le (next_segment {rest = rest} {rv} e lt c t p s) =
      rw (e, c, t, p)
        (join_segments-step f rest rv.bytes (omega arith) s
          (join_segments-joined f rest (omega arith) s))

  -- The value of content that is a constructed octet string, as gpgsm writes it, is what its segments
  -- are joined to; if all of them are empty it is nil, which stands for detached content.
  pub e_content_value-Segments :
      (eci : EncapsulatedContentInfo) (e_content octets : RawValue) (segments : List Bytes)
      → eci.e_content ≡ some e_content
      → asn1.unmarshal_raw e_content.bytes ≡ some (octets, [])
      → octets.tag_class ≡ class_universal
      → octets.tag ≡ tag_octet_string
      → octets.is_compound ≡ true
      → Segments octets.bytes segments
      → e_content_value asn1 eci ≡ ok (joined segments)
  unfolding e_content_value e_content_value_of octets_value
  e_content_value-Segments eci e_content octets segments here e c t p s =
      ap (e_content_value_of asn1) here
      ∙ rw (e, c, t, p) (join_segments-joined (length octets.bytes) octets.bytes (omega arith) s)

  -- Content that NewEncapsulatedContentInfo stores is found by EContentValue, if encoding/asn1 reads
  -- the octet string that it wrote.
  pub e_content_value-new :
      (content_type : Oid) (content octets : Bytes) (rv : RawValue)
      → asn1.marshal_raw (octet_string content) ≡ some octets
      → asn1.unmarshal_raw octets ≡ some (rv, [])
      → rv.tag_class ≡ class_universal
      → rv.tag ≡ tag_octet_string
      → rv.is_compound ≡ false
      → rv.bytes ≡ content
      → (new_encapsulated_content_info asn1 content_type content >>= e_content_value asn1)
        ≡ ok (some content)
  unfolding new_encapsulated_content_info e_content_value e_content_value_of octets_value
  e_content_value-new content_type content octets rv m e c t p b = rw (m, e, c, t, p, b) refl
