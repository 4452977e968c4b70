-- ===== src/Writer/Close.antt =====
-- `close` and `cancel` (src/QingStorWriter.cpp), and an upload from its first write to its end.
use qing_stor_c_sdk.Prelude.{
  ℕ, zero, suc, ◌+◌, ◌≡◌, refl, ap, ap₂, ◌∙◌, true, false, List, [], ◌∷◌, ◌++◌, Bytes, Option, none,
  some, append_assoc, if◌then◌else◌, ◌==◌, arith,
}
use mathlib.Core.Path.{subst}
use qing_stor_c_sdk.Errors.{Result, ok, throw, fault, qingstor, rethrow_copy}
use qing_stor_c_sdk.Common.Header.{upload_mp, comp_mp_upload, abort_mp_upload, RequestType}
use qing_stor_c_sdk.Request.Outcome.{Outcome}
use qing_stor_c_sdk.Writer.{
  Writer, Session, Issued, upload_request, memory_of, part_request, held, do_send, Step, sent_part,
  rethrown, reset, ◌then_do◌, answered, numbers_from, complete, flush, release, close,
  mark_canceled, cancel,
}
use qing_stor_c_sdk.Writer.Requests.{Client, Ran, RanBadly}
use qing_stor_c_sdk.Writer.Fill.{IsWriter}
use qing_stor_c_sdk.Writer.Moves.{part_calls, memory_of-whole, upload_asked, whole_text}

-- The part numbers below `n`, in order.
abbrev pub part_numbers : ℕ → List ℕ
part_numbers zero = []
part_numbers (suc n) = part_numbers n ++ (n ∷ [])

module _ {World Json : Type 0} (client : Client World Json) where
  numbers_from-snoc :
      (i n : ℕ) → numbers_from client i (suc n) ≡ numbers_from client i n ++ ((i + n) ∷ [])
  numbers_from-snoc i zero = ap (λ k. k ∷ []) (omega arith)
  numbers_from-snoc i (suc n) =
      let e : suc i + n ≡ i + suc n = omega arith in
      ap (λ l. i ∷ l)
        (numbers_from-snoc (suc i) n ∙ ap (λ k. numbers_from client (suc i) n ++ (k ∷ [])) e)

  numbers_from-part_numbers : (n : ℕ) → numbers_from client 0 n ≡ part_numbers n
  numbers_from-part_numbers zero = refl
  numbers_from-part_numbers (suc n) =
      let e : 0 + n ≡ n = omega arith in
      numbers_from-snoc 0 n ∙ ap₂ (λ l k. l ++ (k ∷ [])) (numbers_from-part_numbers n) e

  -- The request that completes an upload of `n` parts.
  abbrev pub complete_call : Writer → ℕ → Issued
  complete_call w n =
      (upload_asked comp_mp_upload w, some (whole_text (client.parts_text (part_numbers n))))

  -- A step that ends well has issued just these requests.
  abbrev pub Issues : Session World → List Issued → Step client → Type 0
  Issues s calls (fault, s') = Ran client fault
  Issues s calls (throw e, s') = (e ≡ qingstor) × RanBadly client
  Issues s calls (ok u, s') = s'.issued ≡ s.issued ++ calls

  -- Nothing is sent after `cancel`: `close` of a cancelled writer only frees the buffer.
  pub close-canceled :
      (s : Session World) → s.writer.canceled ≡ true → close client s ≡ release client s
  unfolding close
  close-canceled s e =
      ap
        (λ b.
          ◌then_do◌ client
            (if b then (ok tt, s) else ◌then_do◌ client (flush client s) (complete client))
            (release client))
        e

  answered-cancel :
      (s : Session World) (r : Result (Option Json)) (x : World) (call : Issued)
      → Outcome abort_mp_upload r
      → Ran client r
      → Issues s (call ∷ []) (
          ◌then_do◌ client
            (◌then_do◌ client
              (answered client
                (rethrown client (r, record s { world = x; issued = s.issued ++ (call ∷ []) })))
              (mark_canceled client))
            (close client))
  unfolding rethrow_copy
  answered-cancel s fault x call h ran = ran
  answered-cancel s (throw e) x call h ran = rw h (refl, (e, ran))
  answered-cancel s (ok v) x call h ran =
      let w = record s.writer { part_num = 0; canceled = true } in
      let s' = record s { writer = w; world = x; issued = s.issued ++ (call ∷ []) } in
      rw (close-canceled s' refl) refl

  -- A writer that is cancelled and then closed issues one request, which aborts the upload: nothing
  -- is flushed and nothing is completed. It throws only if a request can throw, and then a plain
  -- `QingStorException`, and its behaviour is undefined only if that of a request can be.
  pub cancel-close :
      (s : Session World)
      → Issues s
          ((upload_request abort_mp_upload s.writer, none) ∷ [])
          (◌then_do◌ client (cancel client s) (close client))
  unfolding cancel
  cancel-close s =
      answered-cancel s _ _ _
        (client.run-Outcome (upload_request abort_mp_upload s.writer) none _ _)
        (upload_request abort_mp_upload s.writer, none, _, _, refl)

  -- The part went out.
  abbrev part_done : Session World → Bytes → ℕ → World → Session World
  part_done s text n x = record s {
    writer = record s.writer { part_num = suc s.writer.part_num };
    world = x;
    issued = s.issued ++ ((part_request s.writer s.writer.part_num, some (memory_of text n)) ∷ []);
  }

  abbrev PartSent : Session World → Bytes → ℕ → Step client → Type 0
  PartSent s text n (fault, s') = Ran client fault
  PartSent s text n (throw e, s') = (e ≡ qingstor) × RanBadly client
  PartSent s text n (ok u, s') = (x : World) × (s' ≡ part_done s text n x)

  answer-PartSent :
      (s : Session World) (text : Bytes) (n : ℕ) (r : Result (Option Json)) (x : World)
      → Outcome upload_mp r
      → Ran client r
      → PartSent s text n (
          sent_part client
            (rethrown client (r, record (part_done s text n x) { writer = s.writer })))
  unfolding rethrow_copy
  answer-PartSent s text n fault x h ran = ran
  answer-PartSent s text n (throw e) x h ran = rw h (refl, (e, ran))
  answer-PartSent s text n (ok none) x h ran = (x, refl)
  answer-PartSent s text n (ok (some j)) x h ran = cc

  pub do_send-PartSent :
      (s : Session World) (text : Bytes) (n : ℕ) → PartSent s text n (do_send client text n s)
  unfolding do_send
  do_send-PartSent s text n =
      answer-PartSent s text n _ _
        (client.run-Outcome (part_request s.writer s.writer.part_num) (some (memory_of text n)) _ _)
        (part_request s.writer s.writer.part_num, some (memory_of text n), _, _, refl)

  answer-Issues :
      (s : Session World) (call : Issued) (kind : RequestType) (r : Result (Option Json))
      (x : World)
      → Outcome kind r
      → Ran client r
      → Issues s (call ∷ []) (
          ◌then_do◌ client
            (answered client
              (rethrown client (r, record s { world = x; issued = s.issued ++ (call ∷ []) })))
            (release client))
  unfolding rethrow_copy
  answer-Issues s call kind fault x h ran = ran
  answer-Issues s call kind (throw e) x h ran = rw h (refl, (e, ran))
  answer-Issues s call kind (ok v) x h ran = refl

  complete-Issues :
      (s : Session World)
      → Issues s
          (complete_call s.writer s.writer.part_num ∷ [])
          (◌then_do◌ client (complete client s) (release client))
  unfolding complete
  complete-Issues s =
      let body = client.parts_text (numbers_from client 0 s.writer.part_num) in
      subst
        (λ l.
          Issues s
            ((upload_asked comp_mp_upload s.writer, some (whole_text (client.parts_text l))) ∷ [])
            (◌then_do◌ client (complete client s) (release client)))
        (numbers_from-part_numbers s.writer.part_num)
        (answer-Issues s (upload_asked comp_mp_upload s.writer, some (whole_text body))
          comp_mp_upload _ _ (client.run-Outcome (upload_request comp_mp_upload s.writer) _ _ _)
          (upload_request comp_mp_upload s.writer, _, _, _, refl))

  -- Requests before others.
  Issues-append :
      (s s' : Session World) (first later : List Issued) (step : Step client)
      → s'.issued ≡ s.issued ++ first
      → Issues s' later step
      → Issues s (first ++ later) step
  Issues-append s s' first later (fault, t) e h = h
  Issues-append s s' first later (throw x, t) e h = h
  Issues-append s s' first later (ok u, t) e h = h ∙ rw e (append_assoc s.issued first later)

  assoc_then_do :
      (d : Step client) (f g : Session World → Step client)
      → ◌then_do◌ client (◌then_do◌ client d f) g
        ≡ ◌then_do◌ client d (λ s. ◌then_do◌ client (f s) g)
  assoc_then_do (fault, s) f g = refl
  assoc_then_do (throw e, s) f g = refl
  assoc_then_do (ok u, s) f g = refl

  -- The last part, then the completion.
  last_part-Issues :
      (s : Session World) (text : Bytes) (n : ℕ) (d : Step client)
      → PartSent s text n d
      → Issues s
          ((part_request s.writer s.writer.part_num, some (memory_of text n))
            ∷ complete_call s.writer (suc s.writer.part_num)
            ∷ [])
          (◌then_do◌ client
            (◌then_do◌ client (◌then_do◌ client d (reset client)) (complete client))
            (release client))
  last_part-Issues s text n (fault, s') h = h
  last_part-Issues s text n (throw e, s') h = h
  last_part-Issues s text n (ok u, s') (x, r) = rw r (
      let p = part_done s text n x in
      let t = record p { writer = record p.writer { write_pos = 0; buffer = some [] } } in
      Issues-append s t ((part_request s.writer s.writer.part_num, some (memory_of text n)) ∷ [])
        (complete_call s.writer (suc s.writer.part_num) ∷ [])
        (◌then_do◌ client (complete client t) (release client)) refl (complete-Issues t))

  pub flush-cache :
      (s : Session World)
      → s.writer.cache ≡ true
      → flush client s
        ≡ ◌then_do◌ client (do_send client (held s.writer) s.writer.write_pos s) (reset client)
  unfolding flush
  flush-cache s e =
      let sent = do_send client (held s.writer) s.writer.write_pos s in
      ap
        (λ b.
          if b
          then ◌then_do◌ client sent (reset client)
          else if s.writer.part_num == 0
          then sent
          else (ok tt, s))
        e

  pub close-open :
      (s : Session World)
      → s.writer.canceled ≡ false
      → close client s
        ≡ ◌then_do◌ client (◌then_do◌ client (flush client s) (complete client)) (release client)
  unfolding close
  close-open s e =
      ap
        (λ b.
          ◌then_do◌ client
            (if b then (ok tt, s) else ◌then_do◌ client (flush client s) (complete client))
            (release client))
        e

  -- `close` with a buffer: the bytes that are held go out as the last part, however few they are,
  -- and the upload is completed with the numbers of all its parts.
  pub close-Issues :
      (s : Session World)
      → IsWriter s.writer
      → s.writer.canceled ≡ false
      → Issues s
          (part_calls s.writer s.writer.part_num (held s.writer ∷ [])
            ++ (complete_call s.writer (suc s.writer.part_num) ∷ []))
          (close client s)
  close-Issues s v e =
      let body = held s.writer in
      let n = s.writer.write_pos in
      rw (close-open s e, flush-cache s v.caches)
        (subst
          (λ md.
            Issues s
              ((part_request s.writer s.writer.part_num, some md)
                ∷ complete_call s.writer (suc s.writer.part_num)
                ∷ [])
              (◌then_do◌ client
                (◌then_do◌ client (◌then_do◌ client (do_send client body n s) (reset client))
                  (complete client))
                (release client)))
          (memory_of-whole body n v.counted (omega (arith, v.inside, v.small)))
          (last_part-Issues s body n _ (do_send-PartSent s body n)))
