-- ===== src/Timestamp/FreeText.antt =====
-- PKIFreeText and PKIStatusInfo of ietf-cms/timestamp/timestamp.go.
use git_kmssign.Base.{
  ℕ, Bool, true, false, List, [], ◌∷◌, ◌++◌, Bytes, Result, ok, ◌>>=◌, map, if◌then◌else◌, ltb,
  length, suc,
}
use git_kmssign.Base.Int.{ℤ, pos, negsuc}
use git_kmssign.Base.Text.{Text, codes}
use git_kmssign.Protocol.Attributes.{class_universal}
use git_kmssign.Protocol.Signers.{eq_ℤ, whole}
use git_kmssign.Status.Signature.{decimal}
use git_kmssign.Timestamp.{PkiFreeText, PkiStatusInfo, Asn1Time}

-- asn1.TagUTF8String
abbrev pub tag_utf8_string : ℕ
tag_utf8_string = 12

-- The string comes as its bytes.
unfoldable pub append : PkiFreeText → Bytes → PkiFreeText
append ft t =
    ft
    ++ (record {
      tag_class = class_universal;
      tag = tag_utf8_string;
      is_compound = false;
      bytes = t;
      full_bytes = [];
    }
        ∷ [])

-- %d of an int.
pub signed_decimal : ℤ → Text
signed_decimal (pos n) = decimal n
signed_decimal (negsuc n) = codes "-" ++ decimal (suc n)

-- strings.Join
unfoldable pub join_texts : Text → List Text → Text
join_texts separator [] = []
join_texts separator (t ∷ []) = t
join_texts separator (t ∷ u ∷ texts) = t ++ separator ++ join_texts separator (u ∷ texts)

-- The loop that makes fibin.
abbrev pub bit_digit : Bool → ℕ
bit_digit true = 0x31
bit_digit false = 0x30

unfoldable pub fail_info_text : List Bool → Text
fail_info_text [] = []
fail_info_text (b ∷ bits) = codes " FailInfo(0b" ++ map bit_digit (b ∷ bits) ++ codes ")"

-- GetError; `false` is a nil error.
unfoldable pub is_error : PkiStatusInfo → Bool
is_error si = if eq_ℤ si.status (pos 0) then false else true

-- statusStr, with what Strings returned.
abbrev pub status_text : Result (List Text) → Text
status_text (ok strs) = codes " StatusString(" ++ join_texts (codes ",") strs ++ codes ")"
status_text _ = []

module _ (asn1 : Asn1Time) where
  unfoldable pub strings : PkiFreeText → Result (List Text)
  strings [] = ok []
  strings (raw ∷ ft) = do
    str ← whole (asn1.unmarshal_text raw.full_bytes)
    strs ← strings ft
    ok (str ∷ strs)

  unfoldable pub error_text : PkiStatusInfo → Text
  error_text si =
      let status_str =
        if ltb 0 (length si.status_string) then status_text (strings si.status_string) else [] in
      codes "Bad TimeStampResp: Status("
      ++ signed_decimal si.status
      ++ codes ")"
      ++ status_str
      ++ fail_info_text si.fail_info
