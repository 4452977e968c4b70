-- ===== src/Common/Url.antt =====
-- `qs_parse_url` and `extract_field` of src/QingStorCommon.cpp, and the resource that a request
-- signs. The URL scanner is the vendored http_parser: a parameter, which answers with the offset
-- and length of each field, or with an error code.
use qing_stor_c_sdk.Prelude.{
  ℕ, ◌+◌, ◌*◌, ◌≡◌, [], ◌∷◌, ◌++◌, Bytes, codes, length, Lacks, bytes_eq, take, drop, ◌==◌,
  if◌then◌else◌, Option, none, some, arith,
}
use qing_stor_c_sdk.Errors.{Result, ok, throw, fault, invalid_parameter}

-- `struct http_parser_url`: a field that `field_set` names has an offset and a length.
pub record UrlFields : Type 0 where
  pub schema : Option (ℕ × ℕ)
  pub host : Option (ℕ × ℕ)
  pub path : Option (ℕ × ℕ)
  pub query : Option (ℕ × ℕ)

-- `http_parser_parse_url(url, len, false, &u)`
abbrev pub UrlParser : Type 0
UrlParser = Bytes → Option UrlFields

abbrev pub extract_field : Bytes → Option (ℕ × ℕ) → Option Bytes
extract_field url none = none
extract_field url (some (off, len)) = some (take len (drop off url))

-- The loop that counts the slashes of the query, and the size of the buffer that it allots.
unfoldable pub slash_count : Bytes → ℕ
slash_count [] = 0
slash_count (c ∷ cs) = (if c == b'/' then 1 else 0) + slash_count cs

unfoldable pub escaped_size : Bytes → ℕ
unfolding slash_count
escaped_size query = length query + 2 * slash_count query + 1

-- The loop that writes the buffer, up to the NUL.
unfoldable pub escape_slashes : Bytes → Bytes
escape_slashes [] = []
escape_slashes (c ∷ cs) =
    (if c == b'/' then b'%' ∷ b'2' ∷ b'F' ∷ [] else c ∷ []) ++ escape_slashes cs

-- What the caller gets through its pointers.
pub record ParsedUrl : Type 0 where
  pub schema : Option Bytes
  pub host : Option Bytes
  pub path : Bytes
  pub query : Option Bytes

-- A path of one slash becomes the empty text.
abbrev clear_root : Bytes → Bytes
clear_root path = if bytes_eq path (codes "/") then [] else path

abbrev escape_query : Option Bytes → Option Bytes
escape_query none = none
escape_query (some q) = some (escape_slashes q)

-- `strlen(*path)` of a URL with no path reads through a null pointer.
unfoldable pub fields_of : Bytes → UrlFields → Result ParsedUrl
fields_of url u = elim (extract_field url u.path) [
  | none ↦ fault
  | some path ↦ ok (record {
    schema = extract_field url u.schema;
    host = extract_field url u.host;
    path = clear_root path;
    query = escape_query (extract_field url u.query);
  })
]

-- A null URL and one that the scanner refuses throw.
unfoldable pub qs_parse_url : UrlParser → Option Bytes → Result ParsedUrl
unfolding fields_of
qs_parse_url scan none = throw invalid_parameter
qs_parse_url scan (some url) = elim (scan url) [
  | none ↦ throw invalid_parameter
  | some u ↦ fields_of url u
]

-- `"/" << bucket << path << "?" << query`. A null bucket, which the list of buckets passes, sets
-- the stream's `badbit`, and nothing behind it is written.
unfoldable pub resource : Option Bytes → ParsedUrl → Bytes
resource none u = codes "/"
resource (some bucket) u = elim u.query [
  | some q ↦ codes "/" ++ (bucket ++ (u.path ++ (codes "?" ++ q)))
  | none ↦ codes "/" ++ (bucket ++ u.path)
]

-- The loop fills the buffer exactly, NUL included: the text that is written is as long as the count
-- of slashes says, and no slash is left in it.
pub escape_slashes_lem :
    (q : Bytes) → (length (escape_slashes q) + 1 ≡ escaped_size q) × Lacks b'/' (escape_slashes q)
unfolding escape_slashes escaped_size
escape_slashes_lem [] = (omega arith, tt)
escape_slashes_lem (c ∷ cs) = ground (arith, escape_slashes_lem cs)
