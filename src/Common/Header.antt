-- ===== src/Common/Header.antt =====
-- `HeaderField`, `HeaderContent` and `HeaderContent_Add` (src/QingStorCommon.h and .cpp), with the
-- request types and credentials that travel beside them.
use qing_stor_c_sdk.Prelude.{
  Bool, true, false, List, [], ◌∷◌, ◌++◌, Bytes, codes, is_empty, if◌then◌else◌,
}

pub record Credential : Type 0 where
  pub keyid : Bytes
  pub secret : Bytes

-- `QSRequestType`
pub data RequestType : Type 0 where
  none_request list_bucket create_bucket delete_bucket list_object head_object : RequestType
  delete_object get_data init_mp_upload upload_mp abort_mp_upload comp_mp_upload : RequestType

pub data HeaderField : Type 0 where
  host location range date content_length content_md5 content_type : HeaderField
  expect authorization etag : HeaderField

abbrev pub get_field_string : HeaderField → Bytes
get_field_string host = codes "Host"
get_field_string location = codes "Location"
get_field_string range = codes "Range"
get_field_string date = codes "Date"
get_field_string content_length = codes "Content-Length"
get_field_string content_md5 = codes "Content-MD5"
get_field_string content_type = codes "Content-Type"
get_field_string expect = codes "Expect"
get_field_string authorization = codes "Authorization"
get_field_string etag = codes "ETag"

-- The `fields` of a `HeaderContent`, and the `curl_slist` that `HeaderContent_GetList` copies from
-- it.
abbrev pub HeaderContent : Type 0
HeaderContent = List Bytes

abbrev pub header_line : HeaderField → Bytes → Bytes
header_line f v = get_field_string f ++ (codes ": " ++ v)

-- Whether the field was added, and the list.
unfoldable pub header_add : HeaderContent → HeaderField → Bytes → Bool × HeaderContent
header_add h f v = if is_empty v then (false, h) else (true, h ++ (header_line f v ∷ []))

-- The calls that drop the Boolean.
abbrev pub add : HeaderContent → HeaderField → Bytes → HeaderContent
add h f v = (header_add h f v).1
