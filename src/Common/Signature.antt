-- ===== src/Common/Signature.antt =====
-- `Signature` of src/QingStorCommon.cpp, and the two functions of src/lib/encode.cpp that it calls.
-- The HMAC and the base-64 filter are OpenSSL's: parameters. The date is `strftime` of the clock.
pub mod Laws
use qing_stor_c_sdk.Prelude.{
  ℕ, ◌≡◌, Bool, true, false, ◌&&◌, not, List, [], ◌∷◌, ◌++◌, Bytes, codes, is_empty, decimal, take,
  if◌then◌else◌, Option, none, some,
}
use qing_stor_c_sdk.Errors.{Result, ok, throw, fault, ◌>>=◌, invalid_parameter}
use qing_stor_c_sdk.Common.Header.{
  Credential, RequestType, none_request, list_bucket, create_bucket, delete_bucket, list_object,
  head_object, delete_object, get_data, init_mp_upload, upload_mp, abort_mp_upload, comp_mp_upload,
  HeaderContent, content_length, date, content_type, authorization, add,
}

-- OpenSSL's `HMAC` with SHA-256 (key, then text), and its base-64 filter.
pub record Crypto : Type 0 where
  pub hmac_sha256 : Bytes → Bytes → Bytes
  pub base64 : Bytes → Bytes

-- How the Content-Length header of a request comes about.
pub data LengthRule : Type 0 where
  zero_length size_left no_length : LengthRule

abbrev pub length_rule : RequestType → LengthRule
length_rule list_object = zero_length
length_rule init_mp_upload = zero_length
length_rule get_data = zero_length
length_rule list_bucket = zero_length
length_rule head_object = zero_length
length_rule delete_object = zero_length
length_rule abort_mp_upload = zero_length
length_rule upload_mp = size_left
length_rule comp_mp_upload = size_left
length_rule _ = no_length

-- The method and the content type of the text to sign; `none` throws.
abbrev pub signed_method : RequestType → Option (Bytes × Bytes)
signed_method list_object = some (codes "GET", [])
signed_method get_data = some (codes "GET", [])
signed_method list_bucket = some (codes "GET", [])
signed_method head_object = some (codes "HEAD", [])
signed_method delete_object = some (codes "DELETE", [])
signed_method delete_bucket = some (codes "DELETE", [])
signed_method abort_mp_upload = some (codes "DELETE", [])
signed_method init_mp_upload = some (codes "POST", codes "plain/text")
signed_method create_bucket = some (codes "PUT", [])
signed_method upload_mp = some (codes "PUT", codes "plain/text")
signed_method comp_mp_upload = some (codes "POST", codes "application/json")
signed_method none_request = none

newline : Bytes
newline = 10 ∷ []

-- METHOD, MD5 (always empty), content type, date and resource, a line each.
unfoldable pub string_to_sign : Bytes → Bytes → Bytes → Bytes → Bytes
unfolding newline
string_to_sign method ctype timebuf path =
    method ++ (newline ++ (newline ++ (ctype ++ (newline ++ (timebuf ++ (newline ++ path))))))

-- `md->sizeleft` through a null `md` is a fault.
unfoldable pub add_length : HeaderContent → RequestType → Option ℕ → Result HeaderContent
add_length h qsrt md = elim (length_rule qsrt) [
  | zero_length ↦ ok (add h content_length (codes "0"))
  | size_left ↦ elim md [ none ↦ fault | some n ↦ ok (add h content_length (decimal n)) ]
  | no_length ↦ ok h
]

module _ (crypto : Crypto) where
  -- `sha256hmac`: the 32 bytes of the digest and a NUL.
  pub sha256hmac : Bytes → Bytes → Bytes
  sha256hmac str secret = take 32 (crypto.hmac_sha256 secret str) ++ (0 ∷ [])

  -- `Base64Encode`
  pub base64_encode : Bytes → ℕ → Bytes
  base64_encode buffer length = crypto.base64 (take length buffer)

  unfoldable pub authorization_value : Credential → Bytes → Bytes
  unfolding sha256hmac base64_encode
  authorization_value cred text =
      codes "QS-HMAC-SHA256 "
      ++ (cred.keyid ++ (codes ":" ++ base64_encode (sha256hmac text cred.secret) 32))

  -- `Signature`: `md` is the number of bytes left to send, if there is a `MemoryData`.
  unfoldable pub signature :
      HeaderContent → Bytes → Credential → RequestType → Option ℕ → Bytes → Result HeaderContent
  unfolding add_length
  signature h path_with_query cred qsrt md timebuf = add_length h qsrt md >>= λ h₁.
      let h₂ = add h₁ date timebuf in
      elim (signed_method qsrt) [
        | none ↦ throw invalid_parameter
        | some (method, ctype) ↦
            let h₃ = add h₂ content_type ctype in
            let text = string_to_sign method ctype timebuf path_with_query in
            ok (
              if not (is_empty cred.keyid) && not (is_empty cred.secret)
              then add h₃ authorization (authorization_value cred text)
              else h₃)
      ]
