-- ===== src/Common/HttpHeader.antt =====
-- `ParseHttpHeader` of src/QingStorCommon.cpp: the header block of a HEAD response, rewritten as
-- the text of a JSON object, which json-c then parses.
use qing_stor_c_sdk.Prelude.{
  Bool, ◌||◌, List, [], ◌∷◌, ◌++◌, Bytes, codes, bytes_eq, is_empty, upto, split_at, ◌==◌,
  if◌then◌else◌, Option, none, some,
}

-- `getline` on a stream: the pieces between line feeds; an empty last piece is not one.
abbrev lines_from : Bytes → Bytes → List Bytes
lines_from cur [] = if is_empty cur then [] else cur ∷ []
lines_from cur (c ∷ cs) =
    let after_feed = lines_from [] cs in
    let further = lines_from (cur ++ (c ∷ [])) cs in if c == 10 then cur ∷ after_feed else further

abbrev pub lines : Bytes → List Bytes
lines = lines_from []

-- Content-Length and ETag values are written without quotes.
abbrev is_bare : Bytes → Bool
is_bare key = bytes_eq key (codes "Content-Length") || bytes_eq key (codes "ETag")

abbrev quote : Bytes
quote = b'"' ∷ []

-- `"key": "value",` or `"key": value,` and a line feed.
unfoldable pub json_entry : Bytes → Bytes → Bytes
json_entry key value =
    if is_bare key
    then quote ++ (key ++ (quote ++ (codes ": " ++ (value ++ (b',' ∷ 10 ∷ [])))))
    else quote
      ++ (key ++ (quote ++ (codes ": " ++ (quote ++ (value ++ (quote ++ (b',' ∷ 10 ∷ [])))))))

-- A line adds an entry, adds nothing, or makes the whole block fail. `rest` is the text behind the
-- colon at `pos`: the test `pos + 2 >= str.length()` says that it has at most one byte.
unfoldable pub line_entry : Bytes → Option Bytes
line_entry str = elim (split_at b':' str) [
  | none ↦ some []
  | some (key, rest) ↦ elim rest [
    | [] ↦ none
    | (c ∷ []) ↦ none
    | (c ∷ v) ↦ some (json_entry key (upto 13 v))
  ]
]

unfoldable pub entries : List Bytes → Option Bytes
entries [] = some []
entries (l ∷ ls) = elim (line_entry l) [
  | none ↦ none
  | some e ↦ elim (entries ls) [ none ↦ none | some es ↦ some (e ++ es) ]
]

-- The text that `ParseHttpHeader` hands to `json_tokener_parse`; `none` is its early `return NULL`.
unfoldable pub header_json : Bytes → Option Bytes
header_json content = elim (entries (lines content)) [
  | none ↦ none
  | some es ↦ some (codes "{" ++ (10 ∷ (es ++ codes "}")))
]
