-- ===== src/Common/Tests.antt =====
-- Runs of src/QingStorCommon.cpp on small inputs, and the theorems at them.
use qing_stor_c_sdk.Prelude.{◌≡◌, refl, [], ◌∷◌, ◌++◌, codes, none, some, arith}
use qing_stor_c_sdk.Errors.{ok, fault}
use qing_stor_c_sdk.Common.Header.{Credential, list_object, upload_mp, header_add}
use qing_stor_c_sdk.Common.Signature.{Crypto, signature, authorization_value}
use qing_stor_c_sdk.Common.Signature.Laws.{Outcome, string_to_sign-injective, signature-Outcome}
use qing_stor_c_sdk.Common.Buffer.{BufferInfo, no_data, receive, concat, Holds, receive_lem}
use qing_stor_c_sdk.Common.Upload.{MemoryData, mem_read_callback, send_body}
use qing_stor_c_sdk.Common.Url.{UrlFields, qs_parse_url, escape_slashes}
use qing_stor_c_sdk.Common.HttpHeader.{header_json, entries, line_entry, json_entry}

-- A signer that returns its key, and an encoder that changes nothing.
abbrev plain_crypto : Crypto
plain_crypto = record { hmac_sha256 = λ key text. key; base64 = λ b. b }

abbrev cred : Credential
cred = record { keyid = codes "ID"; secret = codes "S" }

list_headers :
    signature plain_crypto [] (codes "/b") cred list_object none (codes "D")
    ≡ ok (
        codes "Content-Length: 0"
        ∷ codes "Date: D"
        ∷ (codes "Authorization: QS-HMAC-SHA256 ID:S" ++ (0 ∷ []))
        ∷ [])
unfolding signature header_add authorization_value
list_headers = refl

signature-Outcome_example :
    Outcome plain_crypto
      (codes "/b")
      cred
      (codes "D")
      []
      upload_mp
      (some 12)
      (signature plain_crypto [] (codes "/b") cred upload_mp (some 12) (codes "D"))
signature-Outcome_example =
    signature-Outcome plain_crypto [] (codes "/b") cred (codes "D") upload_mp (some 12)

string_to_sign-injective_example :
    (codes "GET" ≡ codes "GET")
    × (codes "" ≡ codes "")
    × (codes "D" ≡ codes "D")
    × (codes "/b" ≡ codes "/b")
string_to_sign-injective_example =
    string_to_sign-injective (codes "GET") (codes "GET") (codes "") (codes "") (codes "D")
      (codes "D") (codes "/b") (codes "/b") (omega arith) (omega arith) (omega arith) (omega arith)
      (omega arith) (omega arith) refl

receive_lem_example :
    (b : BufferInfo) × (receive no_data (codes "ab" ∷ codes "c" ∷ []) ≡ some b)
    × Holds b (concat (codes "ab" ∷ codes "c" ∷ []))
receive_lem_example = receive_lem (codes "ab") (codes "c" ∷ []) (omega arith)

abbrev body : MemoryData
body = record { advance = codes "hello"; sizeleft = 5 }

send_body_run :
    send_body (2 ∷ 2 ∷ []) body ≡ (codes "hell", record { advance = codes "o"; sizeleft = 1 })
unfolding send_body mem_read_callback
send_body_run = refl

escape_run : escape_slashes (codes "a/b/") ≡ codes "a%2Fb%2F"
unfolding escape_slashes
escape_run = refl

-- A URL with no path, as the scanner reports it.
no_path : UrlFields
no_path = record { schema = some (0, 4); host = some (7, 1); path = none; query = none }

no_path_faults : qs_parse_url (λ u. some no_path) (some (codes "http://h")) ≡ fault
unfolding qs_parse_url no_path
no_path_faults = refl

header_run :
    header_json (codes "HTTP/1.1 200 OK\r\nContent-Length: 12\r\nContent-Type: text\r\n\r\n")
    ≡ some (codes "{\n\"Content-Length\": 12,\n\"Content-Type\": \"text\",\n}")
unfolding header_json entries line_entry json_entry
header_run = refl
