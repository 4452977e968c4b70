-- ===== src/Common/HeaderList.antt =====
-- `HeaderContent_GetList` (src/QingStorCommon.cpp): the `curl_slist` of the headers.
use qing_stor_c_sdk.Prelude.{
  ℕ, suc, ◌+◌, ◌<◌, ◌≤◌, ◌≡◌, sym, ap, ◌∙◌, Bool, true, false, List, [], ◌∷◌, ◌++◌, append_assoc,
  append-nil, length, Bytes, if◌then◌else◌, arith,
}
use qing_stor_c_sdk.Common.Header.{HeaderContent}

-- `curl_slist_append` returns NULL when it gets no memory, and the list before is not kept.
abbrev pub appended : Bool → List Bytes → Bytes → List Bytes
appended granted chunk field = if granted then chunk ++ (field ∷ []) else []

-- The loop, from the field with the number `i`: whether the memory for each field is granted.
unfoldable pub get_list_from : (ℕ → Bool) → ℕ → List Bytes → HeaderContent → List Bytes
get_list_from granted i chunk [] = chunk
get_list_from granted i chunk (field ∷ fields) =
    get_list_from granted (suc i) (appended (granted i) chunk field) fields

abbrev pub get_list : (ℕ → Bool) → HeaderContent → List Bytes
get_list granted h = get_list_from granted 0 [] h

-- The fields from the number `i` on, all granted, come behind the list.
get_list_from-granted :
    (granted : ℕ → Bool) (i : ℕ) (chunk : List Bytes) (fields : HeaderContent)
    → ((j : ℕ) → i ≤ j → granted j ≡ true)
    → get_list_from granted i chunk fields ≡ chunk ++ fields
unfolding get_list_from
get_list_from-granted granted i chunk [] all = sym (append-nil chunk)
get_list_from-granted granted i chunk (field ∷ fields) all =
    rw (all i (omega arith), get_list_from)
      (get_list_from-granted granted (suc i) (chunk ++ (field ∷ [])) fields
          (λ j le. all j (omega (arith, le)))
        ∙ append_assoc chunk (field ∷ []) fields)

-- When all the memory is granted the list holds the headers, in order.
pub get_list-granted :
    (granted : ℕ → Bool) (h : HeaderContent) → ((j : ℕ) → granted j ≡ true) → get_list granted h ≡ h
get_list-granted granted h all = get_list_from-granted granted 0 [] h λ j le. all j

refused_from :
    (granted : ℕ → Bool) (i : ℕ) (chunk : List Bytes) (front : HeaderContent) (x : Bytes)
    (back : HeaderContent)
    → granted (i + length front) ≡ false
    → ((j : ℕ) → i + length front < j → granted j ≡ true)
    → get_list_from granted i chunk (front ++ (x ∷ back)) ≡ back
unfolding get_list_from
refused_from granted i chunk [] x back missing later =
    let here : i ≡ i + 0 = omega arith in
    rw (ap granted here ∙ missing, get_list_from)
      (get_list_from-granted granted (suc i) [] back λ j le. later j (omega (arith, le)))
refused_from granted i chunk (y ∷ front) x back missing later =
    let on : suc i + length front ≡ i + length (y ∷ front) = omega arith in
    refused_from granted (suc i) (appended (granted i) chunk y) front x back
      (ap granted on ∙ missing) λ j lt. later j (omega (arith, lt, on))

-- When the memory for one header is refused, and that for the later ones is granted, the list holds
-- the later ones only: the headers before it are not sent.
pub get_list-refused :
    (granted : ℕ → Bool) (front : HeaderContent) (x : Bytes) (back : HeaderContent)
    → granted (length front) ≡ false
    → ((j : ℕ) → length front < j → granted j ≡ true)
    → get_list granted (front ++ (x ∷ back)) ≡ back
get_list-refused granted front x back missing later =
    let at : length front ≡ 0 + length front = omega arith in
    refused_from granted 0 [] front x back (ap granted (sym at) ∙ missing)
      λ j lt. later j (omega (arith, lt))
