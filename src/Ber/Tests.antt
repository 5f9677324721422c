-- ===== src/Ber/Tests.antt =====
-- Runs of the transcoder of ietf-cms/protocol/ber.go, and its theorems at concrete inputs.
use git_kmssign.Base.{◌≡◌, ◌≢◌, refl, false, [], ◌∷◌, ◌++◌, Bytes, arith, ok, panic, stuck, Ensures}
use git_kmssign.Ber.{
  Asn1Object, structured, primitive, nil, cons, encode, encode_length, read_object,
  read_sub_objects, read_tag, read_length, read_long_length, read_length_bytes, read_long_tag,
  is_indefinite_termination, ber2der,
}
use git_kmssign.Ber.Format.{
  low_tag, short_form, Encodes, of_primitive, indefinite, none_left, one_more, IsWellFormed,
  wf_primitive, wf_structured, wf_nil, wf_cons,
}
use git_kmssign.Ber.Complete.{ber2der-Encodes}
use git_kmssign.Ber.Canonical.{ber2der-encode}
use git_kmssign.Ber.Total.{ber2der-Ensures, ber2der-ne-stuck}
use git_kmssign.Ber.Quirks.{ber2der-truncated}

-- 30 80 04 01 aa 00 00
abbrev gpgsm_like : Bytes
gpgsm_like = 0x30 ∷ 0x80 ∷ 4 ∷ 1 ∷ 0xaa ∷ 0 ∷ 0 ∷ []

abbrev octets : Asn1Object
octets = primitive (4 ∷ []) 1 (0xaa ∷ [])

abbrev sequence : Asn1Object
sequence = structured (0x30 ∷ []) (cons octets nil)

gpgsm_like_run : ber2der gpgsm_like ≡ ok (0x30 ∷ 3 ∷ 4 ∷ 1 ∷ 0xaa ∷ [])
unfolding ber2der read_object read_sub_objects read_tag read_length is_indefinite_termination encode
    encode_length
gpgsm_like_run = refl

-- The examples of the comment on encodeLength.
encode_length_200 : encode_length 200 ≡ 0x81 ∷ 0xC8 ∷ []
unfolding encode_length
encode_length_200 = refl

encode_length_500 : encode_length 500 ≡ 0x82 ∷ 0x01 ∷ 0xF4 ∷ []
unfolding encode_length
encode_length_500 = refl

high_tag_run :
    ber2der (0x1F ∷ 0x81 ∷ 0x01 ∷ 0x81 ∷ 0x01 ∷ 7 ∷ []) ≡ ok (0x1F ∷ 0x81 ∷ 1 ∷ 1 ∷ 7 ∷ [])
unfolding ber2der read_object read_sub_objects read_tag read_long_tag read_length read_long_length
    read_length_bytes encode encode_length
high_tag_run = refl

octets-Encodes : Encodes octets (4 ∷ 1 ∷ 0xaa ∷ [])
octets-Encodes =
    of_primitive {c = 0xaa ∷ []} (low_tag refl refl) refl (short_form (omega arith)) refl

gpgsm_like-Encodes : Encodes sequence gpgsm_like
gpgsm_like-Encodes =
    indefinite (low_tag refl refl) (one_more octets-Encodes none_left refl) tt
      ((λ e. omega arith), tt) refl

sequence-IsWellFormed : IsWellFormed sequence
sequence-IsWellFormed =
    wf_structured (low_tag refl refl)
      (wf_cons (wf_primitive {c = 0xaa ∷ []} (low_tag refl refl) refl) wf_nil)

ber2der-Encodes_example : ber2der (gpgsm_like ++ (7 ∷ [])) ≡ ok (encode sequence)
ber2der-Encodes_example = ber2der-Encodes sequence gpgsm_like (7 ∷ []) gpgsm_like-Encodes

ber2der-encode_example : ber2der (encode sequence ++ (7 ∷ [])) ≡ ok (encode sequence)
ber2der-encode_example =
    ber2der-encode sequence (7 ∷ []) sequence-IsWellFormed
      (unfold encode encode_length in omega arith)

ber2der-Ensures_example :
    Ensures (λ der. (o : Asn1Object) × IsWellFormed o × (der ≡ encode o)) (ber2der (0x30 ∷ []))
ber2der-Ensures_example = ber2der-Ensures (0x30 ∷ [])

ber2der-ne-stuck_example : ber2der gpgsm_like ≢ stuck
ber2der-ne-stuck_example = ber2der-ne-stuck gpgsm_like

ber2der-truncated_example : ber2der (0x30 ∷ []) ≡ panic
ber2der-truncated_example = ber2der-truncated (0x30 ∷ []) (low_tag {p = false} refl refl)
