-- ===== src/Writer/Moves.antt =====
-- `transferData` (src/QingStorWriter.cpp) with a buffer: one full buffer sent,
-- and the bytes accounted for.
use qing_stor_c_sdk.Prelude.{
  ℕ, suc, ◌+◌, ◌^◌, ◌<◌, ◌≡◌, refl, sym, ap, ◌∙◌, true, false, List, [], ◌∷◌, ◌++◌, Bytes, codes,
  decimal, length, ◌==◌, Option, none, some, arith, append_assoc, append-nil,
}
use mathlib.Core.Path.{subst}
use qing_stor_c_sdk.Errors.{Result, ok, throw, fault, qingstor, rethrow_copy}
use qing_stor_c_sdk.Common.Header.{upload_mp, RequestType}
use qing_stor_c_sdk.Common.Upload.{MemoryData}
use qing_stor_c_sdk.Common.Buffer.{concat}
use qing_stor_c_sdk.Request.{Request}
use qing_stor_c_sdk.Request.Outcome.{Outcome}
use qing_stor_c_sdk.Writer.{
  Writer, Session, Issued, part_request, memory_of, size_of_int32, call, held, do_send, send_full,
  Step, sent_part, rethrown, reset, ◌then_do◌,
}
use qing_stor_c_sdk.Writer.Requests.{Client, Ran, RanBadly}
use qing_stor_c_sdk.Writer.Fill.{IsWriter, filled, with_buffer, with_buffer_same}

-- A text that is to be sent whole.
abbrev pub whole_text : Bytes → MemoryData
whole_text b = record { advance = b; sizeleft = length b }

size_of_int32_same : (n : ℕ) → n < 2 ^ 31 → size_of_int32 n ≡ n
size_of_int32_same n lt = ground (arith, lt)

pub memory_of-whole : (b : Bytes) (n : ℕ) → length b ≡ n → n < 2 ^ 31 → memory_of b n ≡ whole_text b
memory_of-whole b n e lt =
    ap (λ m. record { advance = b; sizeleft = m }) (size_of_int32_same n lt ∙ sym e)

-- A request of a kind to the URL of the object, with what follows the `?`.
abbrev pub asked : RequestType → Writer → Bytes → Request
asked kind w query =
    let host = w.bucket ++ (codes "." ++ (w.config.location ++ (codes "." ++ w.config.host))) in
    record {
      host_name = host;
      url_text =
          (w.config.protocol ++ (codes "://" ++ (host ++ (codes "/" ++ w.key))))
          ++ (codes "?" ++ query);
      bucket = some w.bucket;
      place = none;
      cred = w.cred;
      kind = kind;
    }

-- The request for part `n`.
abbrev pub part_asked : Writer → ℕ → Request
part_asked w n =
    asked upload_mp w (codes "part_number=" ++ (decimal n ++ (codes "&upload_id=" ++ w.upload_id)))

-- The request about the whole upload.
abbrev pub upload_asked : RequestType → Writer → Request
upload_asked kind w = asked kind w (codes "upload_id=" ++ w.upload_id)

-- The uploads of parts, numbered from `n` on.
abbrev pub part_calls : Writer → ℕ → List Bytes → List Issued
part_calls w n [] = []
part_calls w n (b ∷ bs) = (part_asked w n, some (whole_text b)) ∷ part_calls w (suc n) bs

-- Parts of `n` bytes each.
abbrev pub AllFull : ℕ → List Bytes → Type 0
AllFull n [] = Unit
AllFull n (b ∷ bs) = (length b ≡ n) × AllFull n bs

module _ {World Json : Type 0} (client : Client World Json) where
  -- The buffer has gone out as one part.
  abbrev pub emptied : Session World → World → Session World
  emptied s x = record {
    writer = record s.writer { part_num = suc s.writer.part_num; write_pos = 0; buffer = some [] };
    world = x;
    issued = s.issued ++ part_calls s.writer s.writer.part_num (held s.writer ∷ []);
  }

  -- It was tried, and the buffer is still full.
  abbrev refused : Session World → World → Session World
  refused s x = record s {
    world = x;
    issued = s.issued ++ part_calls s.writer s.writer.part_num (held s.writer ∷ []);
  }

  abbrev pub Sent : Session World → Step client → Type 0
  Sent s (fault, s') = Ran client fault
  Sent s (throw e, s') = (e ≡ qingstor) × RanBadly client × (x : World) × (s' ≡ refused s x)
  Sent s (ok u, s') = (x : World) × (s' ≡ emptied s x)

  answer-Sent :
      (s : Session World) (r : Result (Option Json)) (x : World)
      → Outcome upload_mp r
      → Ran client r
      → Sent s
          (◌then_do◌ client (sent_part client (rethrown client (r, refused s x))) (reset client))
  unfolding rethrow_copy
  answer-Sent s fault x h ran = ran
  answer-Sent s (throw e) x h ran = rw h (refl, (e, ran), x, refl)
  answer-Sent s (ok none) x h ran = (x, refl)
  answer-Sent s (ok (some j)) x h ran = cc

  pub send_full-Sent :
      (s : Session World)
      → length (held s.writer) ≡ s.writer.buff_size
      → s.writer.write_pos ≡ s.writer.buff_size
      → s.writer.buff_size < 2 ^ 31
      → Sent s (send_full client s)
  unfolding send_full do_send
  send_full-Sent s n e small =
      let t : s.writer.write_pos == s.writer.buff_size ≡ true = ground arith in
      let body = held s.writer in
      let q = part_request s.writer s.writer.part_num in
      rw t (
        subst
          (λ md. Sent s (
            ◌then_do◌ client (sent_part client (rethrown client (call client q (some md) s)))
              (reset client)))
          (sym (memory_of-whole body s.writer.buff_size n small))
          (answer-Sent s _ _ (client.run-Outcome q (some (whole_text body)) _ _)
            (q, some (whole_text body), _, _, refl)))

  pub send_full_skip :
      (s : Session World)
      → s.writer.write_pos == s.writer.buff_size ≡ false
      → send_full client s ≡ (ok tt, s)
  unfolding send_full
  send_full_skip s e = rw e refl

  -- From `s` to `s'`: the parts that went out, the parts that were tried, and the bytes taken from
  -- the caller. The bytes that were held and those that were taken are the parts, each of them a
  -- full buffer, and the bytes that are held now; the uploads are numbered on from `part_num`.
  pub record Moved (s s' : Session World) (parts tried : List Bytes) (taken : Bytes) : Type 0 where
    pub after : s'.writer ≡ record (with_buffer s.writer (held s'.writer) s'.writer.write_pos) {
      part_num = s.writer.part_num + length parts;
    }
    pub text : held s.writer ++ taken ≡ concat parts ++ held s'.writer
    pub sized : AllFull s.writer.buff_size parts
    pub requests : s'.issued ≡ s.issued ++ part_calls s.writer s.writer.part_num tried
    pub valid : IsWriter s'.writer

  -- What `transferData` may come to: it has taken the text, and the buffer has room; or an upload
  -- failed, and the part that was refused is still in the full buffer.
  abbrev pub Pumped : Session World → Bytes → Step client → Type 0
  Pumped s text (fault, s') = Ran client fault
  Pumped s text (ok u, s') =
      (parts : List Bytes) × Moved s s' parts parts text
      × (s'.writer.write_pos < s'.writer.buff_size)
  Pumped s text (throw e, s') =
      (e ≡ qingstor)
      × RanBadly client
      × (parts : List Bytes) × (taken : Bytes) × (lost : Bytes) × (text ≡ taken ++ lost)
      × Moved s s' parts (parts ++ (held s'.writer ∷ [])) taken
      × (s'.writer.write_pos ≡ s'.writer.buff_size)

  -- The buffer with the bytes that it takes.
  abbrev pub loaded : Session World → Bytes → Session World
  loaded s taken = record s { writer = filled s.writer taken }

  -- A full buffer goes out, and the loop goes on.
  pub Moved-emptied :
      (s s' : Session World) (x : World) (now later : Bytes) (parts tried : List Bytes)
      → length (held s.writer ++ now) ≡ s.writer.buff_size
      → Moved (emptied (loaded s now) x) s' parts tried later
      → Moved s s' ((held s.writer ++ now) ∷ parts) ((held s.writer ++ now) ∷ tried) (now ++ later)
  Moved-emptied s s' x now later parts tried full m = record {
    after =
        m.after
        ∙ ap
            (λ n. record (with_buffer s.writer (held s'.writer) s'.writer.write_pos) {
              part_num = n;
            })
            (omega arith);
    text =
        sym (append_assoc (held s.writer) now later)
        ∙ ap (λ r. held s.writer ++ now ++ r) m.text
        ∙ sym (append_assoc (held s.writer ++ now) (concat parts) (held s'.writer));
    sized = (full, m.sized);
    requests = m.requests ∙ append_assoc s.issued _ _;
    valid = m.valid;
  }

  pub Moved-refl :
      (s : Session World) (x : World) (now : Bytes) (tried : List Bytes) (log : List Issued)
      → IsWriter (filled s.writer now)
      → log ≡ s.issued ++ part_calls s.writer s.writer.part_num tried
      → Moved s (record (loaded s now) { world = x; issued = log }) [] tried now
  Moved-refl s x now tried log h e = record {
    after = ap (λ n. record (filled s.writer now) { part_num = n }) (omega arith);
    text = refl;
    sized = tt;
    requests = e;
    valid = h;
  }

  pub Moved-nil : (s : Session World) → IsWriter s.writer → Moved s s [] [] []
  Moved-nil s v = record {
    after =
        with_buffer_same s.writer v.buffered
        ∙ ap
            (λ n. record (with_buffer s.writer (held s.writer) s.writer.write_pos) { part_num = n })
            (omega arith);
    text = append-nil (held s.writer);
    sized = tt;
    requests = sym (append-nil s.issued);
    valid = v;
  }
