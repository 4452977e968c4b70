-- ===== src/Common/Signature/Laws.antt =====
-- What `Signature` of src/QingStorCommon.cpp signs, and when it fails.
use qing_stor_c_sdk.Prelude.{
  ℕ, ◌≡◌, refl, ap, sym, ◌∙◌, [], ◌∷◌, ◌++◌, append-nil, append_assoc, Bytes, Lacks, split_at,
  split_at-append, Option, none, some, is_empty, codes, decimal, take, ◌&&◌, not, if◌then◌else◌,
}
use qing_stor_c_sdk.Errors.{Result, ok, throw, fault, invalid_parameter}
use qing_stor_c_sdk.Common.Header.{
  Credential, RequestType, none_request, list_bucket, create_bucket, delete_bucket, list_object,
  head_object, delete_object, get_data, init_mp_upload, upload_mp, abort_mp_upload, comp_mp_upload,
  HeaderContent, HeaderField, content_length, date, content_type, authorization, get_field_string,
  header_add, add,
}
use qing_stor_c_sdk.Common.Signature.{
  Crypto, string_to_sign, signature, add_length, signed_method, authorization_value,
}

-- Two texts cut at their first line feed.
cut_feed :
    (a b r s : Bytes) → Lacks 10 a → Lacks 10 b → a ++ 10 ∷ r ≡ b ++ 10 ∷ s → (a ≡ b) × (r ≡ s)
cut_feed a b r s ha hb e =
    let p : some (a, r) ≡ some (b, s) =
      sym (split_at-append 10 a r ha) ∙ ap (split_at 10) e ∙ split_at-append 10 b s hb in
    (cc p, cc p)

-- The text to sign tells requests apart: if two methods, two content types and two dates have no
-- line feed and the texts agree, then the methods, the types, the dates and the resources agree.
pub string_to_sign-injective :
    (m m' c c' t t' p p' : Bytes)
    → Lacks 10 m
    → Lacks 10 m'
    → Lacks 10 c
    → Lacks 10 c'
    → Lacks 10 t
    → Lacks 10 t'
    → string_to_sign m c t p ≡ string_to_sign m' c' t' p'
    → (m ≡ m') × (c ≡ c') × (t ≡ t') × (p ≡ p')
unfolding string_to_sign
string_to_sign-injective m m' c c' t t' p p' hm hm' hc hc' ht ht' e =
    let (em, e₁) = cut_feed m m' _ _ hm hm' e in
    let (_, e₂) = cut_feed [] [] _ _ tt tt e₁ in
    let (ec, e₃) = cut_feed c c' _ _ hc hc' e₂ in
    let (et, ep) = cut_feed t t' _ _ ht ht' e₃ in (em, ec, et, ep)

-- A header line, unless the value is empty.
abbrev line_if : Bytes → Bytes → HeaderContent
line_if name [] = []
line_if name (c ∷ v) = (name ++ c ∷ v) ∷ []

module _ (crypto : Crypto) where
  -- The Authorization line for a text to sign, if there are a key id and a secret.
  abbrev authorized : Bytes → Bytes → Bytes → HeaderContent
  authorized [] secret text = []
  authorized (k ∷ ks) [] text = []
  authorized (k ∷ ks) (s ∷ ss) text =
      (codes "Authorization: QS-HMAC-SHA256 "
        ++ ((k ∷ ks)
            ++ (codes ":"
                ++ crypto.base64
                    (take 32 (take 32 (crypto.hmac_sha256 (s ∷ ss) text) ++ (0 ∷ []))))))
      ∷ []

  -- The lines behind the Content-Length: Date, Content-Type, and the signature of method, empty
  -- MD5, content type, date and path, a line each.
  abbrev signed : Bytes → Credential → Bytes → Bytes → Bytes → HeaderContent
  signed path cred timebuf method ctype =
      line_if (codes "Date: ") timebuf
      ++ (line_if (codes "Content-Type: ") ctype
          ++ authorized cred.keyid cred.secret
              (method ++ 10 ∷ 10 ∷ (ctype ++ 10 ∷ (timebuf ++ 10 ∷ path))))

  -- The lines for the data of an object.
  abbrev pub data_lines : Bytes → Credential → Bytes → HeaderContent
  data_lines path cred timebuf =
      codes "Content-Length: 0" ∷ signed path cred timebuf (codes "GET") []

add-line :
    (h : HeaderContent) (f : HeaderField) (v : Bytes)
    → add h f v ≡ h ++ line_if (get_field_string f ++ codes ": ") v
unfolding header_add
add-line h f [] = sym (append-nil h)
add-line h f (c ∷ v) =
    ap (λ l. h ++ (l ∷ [])) (sym (append_assoc (get_field_string f) (codes ": ") (c ∷ v)))

-- Three additions.
join : (h a b c : HeaderContent) → ((h ++ a) ++ b) ++ c ≡ h ++ (a ++ (b ++ c))
join h a b c = append_assoc (h ++ a) b c ∙ append_assoc h a (b ++ c)

module _ (crypto : Crypto) where
  authorize :
      (g : HeaderContent) (keyid secret text : Bytes)
      → (if not (is_empty keyid) && not (is_empty secret)
          then add g authorization
              (authorization_value crypto (record { keyid = keyid; secret = secret }) text)
          else g)
        ≡ g ++ authorized crypto keyid secret text
  unfolding header_add authorization_value
  authorize g [] secret text = sym (append-nil g)
  authorize g (k ∷ ks) [] text = sym (append-nil g)
  authorize g (k ∷ ks) (s ∷ ss) text = refl

module _ (crypto : Crypto) (path : Bytes) (cred : Credential) (timebuf : Bytes) where
  -- What `Signature` comes to for the headers `h`, a request type and the bytes that are left of a
  -- `MemoryData`.
  abbrev pub Outcome : HeaderContent → RequestType → Option ℕ → Result HeaderContent → Type 0
  Outcome h none_request md r = r ≡ throw invalid_parameter
  Outcome h upload_mp none r = r ≡ fault
  Outcome h comp_mp_upload none r = r ≡ fault
  Outcome h upload_mp (some n) r =
      r
      ≡ ok (
          h
          ++ (line_if (codes "Content-Length: ") (decimal n)
              ++ signed crypto path cred timebuf (codes "PUT") (codes "plain/text")))
  Outcome h comp_mp_upload (some n) r =
      r
      ≡ ok (
          h
          ++ (line_if (codes "Content-Length: ") (decimal n)
              ++ signed crypto path cred timebuf (codes "POST") (codes "application/json")))
  Outcome h get_data md r = r ≡ ok (h ++ data_lines crypto path cred timebuf)
  Outcome h list_object md r = r ≡ ok (h ++ data_lines crypto path cred timebuf)
  Outcome h list_bucket md r = r ≡ ok (h ++ data_lines crypto path cred timebuf)
  Outcome h head_object md r =
      r ≡ ok (h ++ (codes "Content-Length: 0" ∷ signed crypto path cred timebuf (codes "HEAD") []))
  Outcome h delete_object md r =
      r
      ≡ ok (h ++ (codes "Content-Length: 0" ∷ signed crypto path cred timebuf (codes "DELETE") []))
  Outcome h abort_mp_upload md r =
      r
      ≡ ok (h ++ (codes "Content-Length: 0" ∷ signed crypto path cred timebuf (codes "DELETE") []))
  Outcome h init_mp_upload md r =
      r
      ≡ ok (
          h
          ++ (codes "Content-Length: 0"
              ∷ signed crypto path cred timebuf (codes "POST") (codes "plain/text")))
  Outcome h create_bucket md r = r ≡ ok (h ++ signed crypto path cred timebuf (codes "PUT") [])
  Outcome h delete_bucket md r = r ≡ ok (h ++ signed crypto path cred timebuf (codes "DELETE") [])

module _ (crypto : Crypto) (h : HeaderContent) (path : Bytes) (cred : Credential)
    (timebuf : Bytes) where
  signs :
      (qsrt : RequestType) (md : Option ℕ) (l : HeaderContent) {h₁ : HeaderContent}
      {method ctype : Bytes}
      → add_length h qsrt md ≡ ok h₁
      → signed_method qsrt ≡ some (method, ctype)
      → h₁ ≡ h ++ l
      → signature crypto h path cred qsrt md timebuf
        ≡ ok (h ++ (l ++ signed crypto path cred timebuf method ctype))
  unfolding signature string_to_sign
  signs qsrt md l {h₁} {method} {ctype} e₁ e₂ x =
      let text = string_to_sign method ctype timebuf path in
      let dated = add-line h₁ date timebuf in
      let typed = add-line (add h₁ date timebuf) content_type ctype in
      let lines =
        authorize crypto (add (add h₁ date timebuf) content_type ctype) cred.keyid cred.secret
          text in
      let d = line_if (codes "Date: ") timebuf in
      let t = line_if (codes "Content-Type: ") ctype in
      let z = authorized crypto cred.keyid cred.secret text in
      let whole =
        lines
        ∙ ap (λ g. g ++ z) (typed ∙ ap (λ g. g ++ t) (dated ∙ ap (λ g. g ++ d) x))
        ∙ join (h ++ l) d t z
        ∙ append_assoc h l (d ++ (t ++ z)) in
      rw (e₁, e₂, signature) (ap ok whole)

  with_length : (v : Bytes) → add h content_length v ≡ h ++ line_if (codes "Content-Length: ") v
  with_length v = add-line h content_length v

  -- `Signature` throws InvalidParameter for QSRT_NONE and reads through a null `MemoryData` for the
  -- two kinds that send one. Else it returns the headers that it was given and then, each unless its
  -- value is empty: the Content-Length, which is what is left for these two kinds, 0 for the others
  -- and missing where a bucket is created or deleted; the Date; the Content-Type of the kind; and,
  -- with a key id and a secret, the Authorization by the HMAC of the method of the kind, the content
  -- type, the date and the path.
  pub signature-Outcome :
      (qsrt : RequestType) (md : Option ℕ)
      → Outcome crypto path cred timebuf h qsrt md (signature crypto h path cred qsrt md timebuf)
  signature-Outcome none_request md = unfold signature in refl
  signature-Outcome upload_mp none = unfold signature in refl
  signature-Outcome upload_mp (some n) =
      unfold add_length in signs upload_mp (some n) _ refl refl (with_length _)
  signature-Outcome comp_mp_upload none = unfold signature in refl
  signature-Outcome comp_mp_upload (some n) =
      unfold add_length in signs comp_mp_upload (some n) _ refl refl (with_length _)
  signature-Outcome create_bucket md =
      unfold add_length in signs create_bucket md [] refl refl (sym (append-nil h))
  signature-Outcome delete_bucket md =
      unfold add_length in signs delete_bucket md [] refl refl (sym (append-nil h))
  signature-Outcome list_bucket md =
      unfold add_length in signs list_bucket md _ refl refl (with_length _)
  signature-Outcome list_object md =
      unfold add_length in signs list_object md _ refl refl (with_length _)
  signature-Outcome head_object md =
      unfold add_length in signs head_object md _ refl refl (with_length _)
  signature-Outcome delete_object md =
      unfold add_length in signs delete_object md _ refl refl (with_length _)
  signature-Outcome get_data md = unfold add_length in signs get_data md _ refl refl (with_length _)
  signature-Outcome init_mp_upload md =
      unfold add_length in signs init_mp_upload md _ refl refl (with_length _)
  signature-Outcome abort_mp_upload md =
      unfold add_length in signs abort_mp_upload md _ refl refl (with_length _)
