-- ===== src/Config.antt =====
-- The settings of the SDK (src/Configuration.cpp): from explicit values, or from a YAML file.
-- The YAML scanner is a library: its tokens are an argument. Past the tokens of the list the
-- scanner has failed, and `yaml_parser_scan` leaves YAML_NO_TOKEN.
pub mod Atoi
pub mod Scan
pub mod Settings
mod Tests
use qing_stor_c_sdk.Prelude.{
  ℕ, ◌+◌, ◌*◌, Bool, true, false, ◌||◌, List, [], ◌∷◌, Bytes, codes, bytes_eq, is_empty,
  if◌then◌else◌, Option, none, some,
}
use qing_stor_c_sdk.Prelude.Int.{ℤ, pos, negsuc, pos_part, neg_part, ltb_ℤ, ◌≤ℤ◌}
use qing_stor_c_sdk.Errors.{Result, ok, throw, ◌>>=◌, config_invalid, out_of_memory, io}
use Atoi.{atoi}

pub record Configuration : Type 0 where
  pub access_key_id : Bytes
  pub secret_access_key : Bytes
  pub host : Bytes
  pub location : Bytes
  pub port : ℤ
  pub protocol : Bytes
  pub connection_retries : ℤ
  pub num_connections : ℤ
  pub chunk_size : ℤ
  pub log_level : Bytes

-- `Configuration(location, access_key_id, secret_access_key, chunk_size)`
abbrev pub from_values : Bytes → Bytes → Bytes → ℤ → Configuration
from_values location access_key_id secret_access_key chunk_size = record {
  access_key_id = access_key_id;
  secret_access_key = secret_access_key;
  host = codes "qingstor.com";
  location = location;
  port = pos 443;
  protocol = codes "https";
  connection_retries = pos 3;
  num_connections = pos 3;
  chunk_size = chunk_size;
  log_level = codes "debug";
}

-- The token types that the scanner loop tells apart; `other` is any further one, by its number.
pub data Token : Type 0 where
  stream_start stream_end block_sequence_start block_entry block_end block_mapping_start : Token
  key value : Token
  scalar : Bytes → Token
  other : ℕ → Token

-- `std::map<std::string, std::string>`, by the order of insertion.
abbrev pub Kvs : Type 0
Kvs = List (Bytes × Bytes)

abbrev pub lookup : Bytes → Kvs → Option Bytes
lookup k [] = none
lookup k ((j, v) ∷ m) = if bytes_eq j k then some v else lookup k m

-- `kvs.insert(...)` leaves a key that is there as it is.
abbrev pub insert : Bytes → Bytes → Kvs → Kvs
insert k v m = elim (lookup k m) [ none ↦ (k, v) ∷ m | some w ↦ m ]

-- `kvs[k]` is the empty string at a key that is not there.
abbrev pub at : Bytes → Kvs → Bytes
at k m = elim (lookup k m) [ none ↦ [] | some v ↦ v ]

-- The variables of the scanner loop.
pub record Scanner : Type 0 where
  pub kvs : Kvs
  pub token_key : Bytes
  pub token_value : Bytes
  pub reach_key : Bool
  pub reach_value : Bool

abbrev pub scanner_start : Scanner
scanner_start = record {
  kvs = [];
  token_key = [];
  token_value = [];
  reach_key = false;
  reach_value = false;
}

-- A scalar that passed: the pair is inserted, and both strings are cleared.
abbrev store_pair : Scanner → Scanner
store_pair s = record s {
  kvs = insert s.token_key s.token_value s.kvs;
  token_key = [];
  token_value = [];
}

-- `case YAML_SCALAR_TOKEN`
unfoldable pub scan_scalar : Scanner → Bytes → Result Scanner
scan_scalar s text =
    if s.reach_key
    then ok (store_pair (record s { token_key = text; reach_key = false }))
    else if s.reach_value
    then (if is_empty s.token_key || is_empty text
        then throw config_invalid
        else ok (store_pair (record s { token_value = text; reach_value = false })))
    else throw config_invalid

-- The body of the scanner loop, but for the end of the stream.
unfoldable pub scan_token : Scanner → Token → Result Scanner
unfolding scan_scalar
scan_token s key = ok (record s { reach_key = true })
scan_token s value = ok (record s { reach_value = true })
scan_token s (scalar text) = scan_scalar s text
scan_token s (other n) = throw config_invalid
scan_token s _ = ok s

-- `do { … } while (token.type != YAML_STREAM_END_TOKEN)`
unfoldable pub scan : Scanner → List Token → Result Kvs
scan s [] = throw config_invalid
scan s (stream_end ∷ ts) = ok s.kvs
scan s (t ∷ ts) = scan_token s t >>= λ s'. scan s' ts

-- `if (kvs[k].empty()) x = d; else x = kvs[k];`
abbrev text_setting : Bytes → Bytes → Kvs → Bytes
text_setting k d m = if is_empty (at k m) then d else at k m

-- The same for a number, which a value outside 1 … `most` leaves at the default.
abbrev number_setting : Bytes → ℤ → ℤ → Kvs → ℤ
number_setting k d most m =
    let n = atoi (at k m) in
    if is_empty (at k m) then d else if ltb_ℤ n (pos 1) || ltb_ℤ most n then d else n

-- `chunk_size` has no upper test.
abbrev chunk_setting : Kvs → ℤ
chunk_setting m =
    let n = atoi (at (codes "chunk_size") m) in
    if is_empty (at (codes "chunk_size") m)
    then pos (32 * 1024 * 1024)
    else if ltb_ℤ n (pos 1)
    then pos (32 * 1024 * 1024)
    else n

-- The fields as the key-value pairs set them.
abbrev settings : Kvs → Configuration
settings m = record {
  access_key_id = at (codes "access_key_id") m;
  secret_access_key = at (codes "secret_access_key") m;
  host = text_setting (codes "host") (codes "qingstor.com") m;
  location = text_setting (codes "location") (codes "pek3a") m;
  port = number_setting (codes "port") (pos 443) (pos 65535) m;
  protocol = text_setting (codes "protocol") (codes "https") m;
  connection_retries = number_setting (codes "connection_retries") (pos 3) (pos 16) m;
  num_connections = number_setting (codes "num_connections") (pos 3) (pos 8) m;
  chunk_size = chunk_setting m;
  log_level = text_setting (codes "log_level") (codes "debug") m;
}

-- The part of `Configuration(config_file)` behind the scanner loop.
unfoldable pub from_settings : Kvs → Result Configuration
from_settings m =
    if is_empty (at (codes "access_key_id") m)
    then throw config_invalid
    else if is_empty (at (codes "secret_access_key") m)
    then throw config_invalid
    else ok (settings m)

-- `Configuration(config_file)`: whether the parser could be set up, and the tokens of the file if
-- it could be opened.
unfoldable pub from_file : Bool → Option (List Token) → Result Configuration
from_file false opened = throw out_of_memory
from_file true none = throw io
from_file true (some ts) = scan scanner_start ts >>= from_settings
