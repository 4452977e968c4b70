-- ===== src/Config/Scan.antt =====
-- What the scanner loop of src/Configuration.cpp hands on, whatever the tokens of the file are.
-- A key's scalar is stored and cleared at once, with the value still empty; a value's scalar then
-- meets an empty key.
use qing_stor_c_sdk.Prelude.{
  ◌≡◌, refl, Bool, true, false, ◌⊎◌, inl, inr, List, [], ◌∷◌, Bytes, some, arith,
}
use qing_stor_c_sdk.Errors.{Result, ok, throw, ◌>>=◌, config_invalid}
use qing_stor_c_sdk.Config.{
  Token, stream_end, scalar, Kvs, at, insert, Scanner, scanner_start, store_pair, scan_scalar,
  scan_token, scan, from_settings, from_file,
}

-- No key has a value.
abbrev AllBlank : Kvs → Type 0
AllBlank m = (k : Bytes) → at k m ≡ []

insert-AllBlank : (k : Bytes) (m : Kvs) → AllBlank m → AllBlank (insert k [] m)
insert-AllBlank k m h j = ground (arith, h j)

record IsBlank (s : Scanner) : Type 0 where
  blank : AllBlank s.kvs
  key_clear : s.token_key ≡ []
  value_clear : s.token_value ≡ []

abbrev Outcome : Result Scanner → Type 0
Outcome r = (r ≡ throw config_invalid) ⊎ ((s : Scanner) × (r ≡ ok s) × IsBlank s)

scan_scalar_cases : (s : Scanner) (text : Bytes) → IsBlank s → Outcome (scan_scalar s text)
unfolding scan_scalar
scan_scalar_cases s text h = go s.reach_key s.reach_value refl refl
  where
    go : (a b : Bool) → s.reach_key ≡ a → s.reach_value ≡ b → Outcome (scan_scalar s text)
    go true b p q = inr (
      store_pair (record s { token_key = text; reach_key = false }),
      rw p,
      record {
        blank = rw h.value_clear (insert-AllBlank text s.kvs h.blank);
        key_clear = refl;
        value_clear = refl;
      },
    )
    go false b p q = inl (ground (arith, h.key_clear))

scan_token_cases : (s : Scanner) (t : Token) → IsBlank s → Outcome (scan_token s t)
unfolding scan_token
scan_token_cases s (scalar text) h = scan_scalar_cases s text h
scan_token_cases s (Token.other n) h = inl refl
scan_token_cases s _ h =
    inr (_, refl, record { blank = h.blank; key_clear = h.key_clear; value_clear = h.value_clear })

from_settings-AllBlank : (m : Kvs) → AllBlank m → from_settings m ≡ throw config_invalid
unfolding from_settings
from_settings-AllBlank m h = rw h

scan_invalid :
    (s : Scanner) (ts : List Token)
    → IsBlank s
    → (scan s ts >>= from_settings) ≡ throw config_invalid
unfolding scan
scan_invalid s [] h = refl
scan_invalid s (stream_end ∷ ts) h = from_settings-AllBlank s.kvs h.blank
scan_invalid s (t ∷ ts) h = elim (scan_token_cases s t h) [
  | inl e ↦ rw e
  | inr (s', e, h') ↦ rw e (scan_invalid s' ts h')
]

-- No configuration file is accepted: whatever tokens the YAML scanner reads from it, the
-- constructor throws QingStorConfigInvalid.
pub from_file_invalid : (ts : List Token) → from_file true (some ts) ≡ throw config_invalid
unfolding from_file
from_file_invalid ts =
    scan_invalid scanner_start ts
      (record { blank = λ k. refl; key_clear = refl; value_clear = refl })
