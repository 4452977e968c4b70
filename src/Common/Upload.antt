-- ===== src/Common/Upload.antt =====
-- `MemoryData` and `mem_read_callback` of src/QingStorCommon.cpp: a request body that curl takes
-- piece by piece. `advance` is the text from the pointer on.
use qing_stor_c_sdk.Prelude.{
  ℕ, ◌+◌, ◌-◌, ◌≤◌, ◌≡◌, refl, List, [], ◌∷◌, ◌++◌, append_assoc, Bytes, length, take, drop,
  take-append-drop, length-drop, ltb, ◌==◌, if◌then◌else◌, arith,
}

pub record MemoryData : Type 0 where
  pub advance : Bytes
  pub sizeleft : ℕ

-- `n2read`
abbrev pub to_read : ℕ → MemoryData → ℕ
to_read realsize md = if ltb realsize md.sizeleft then realsize else md.sizeleft

-- The bytes that are copied out (their number is returned), and what is left.
unfoldable pub mem_read_callback : ℕ → MemoryData → Bytes × MemoryData
mem_read_callback realsize md =
    let n = to_read realsize md in
    if n == 0
    then ([], md)
    else (take n md.advance, record md { advance = drop n md.advance; sizeleft = md.sizeleft - n })

-- The calls of one transfer, by the sizes that curl asks for.
unfoldable pub send_body : List ℕ → MemoryData → Bytes × MemoryData
send_body [] md = ([], md)
send_body (n ∷ ns) md =
    let (out, md') = mem_read_callback n md in
    let (rest, md'') = send_body ns md' in (out ++ rest, md'')

-- The pointer and the count agree.
abbrev pub IsMemory : MemoryData → Type 0
IsMemory md = length md.advance ≡ md.sizeleft

-- What one call gives out, and what it leaves.
pub record Sends (md : MemoryData) (asked : ℕ) (out : Bytes × MemoryData) : Type 0 where
  pub text : out.0 ++ out.1.advance ≡ md.advance
  pub agrees : IsMemory out.1
  pub enough : md.sizeleft ≤ asked + out.1.sizeleft

mem_read_callback-Sends :
    (n : ℕ) (md : MemoryData) → IsMemory md → Sends md n (mem_read_callback n md)
unfolding mem_read_callback
mem_read_callback-Sends n md h =
    ground
      (arith, take-append-drop (to_read n md) md.advance, length-drop (to_read n md) md.advance)

abbrev pub total : List ℕ → ℕ
total [] = 0
total (n ∷ ns) = n + total ns

pub send_body-Sends :
    (ns : List ℕ) (md : MemoryData) → IsMemory md → Sends md (total ns) (send_body ns md)
unfolding send_body
send_body-Sends [] md h = record { text = refl; agrees = h; enough = omega arith }
send_body-Sends (n ∷ ns) md h =
    let a = mem_read_callback-Sends n md h in
    let b = send_body-Sends ns (mem_read_callback n md).1 a.agrees in
    record {
      text = rw (append_assoc, b.text, a.text);
      agrees = b.agrees;
      enough = omega (arith, a.enough, b.enough);
    }
