-- ===== src/Writer/Upload.antt =====
-- An upload with a buffer (src/QingStorWriter.cpp), from its first write to `close`.
use qing_stor_c_sdk.Prelude.{
  ℕ, suc, ◌+◌, ◌<◌, ◌≡◌, refl, sym, ap, ap₂, ◌∙◌, false, List, [], ◌∷◌, ◌++◌, Bytes, length, Option,
  none, some, arith, append_assoc, length-append,
}
use mathlib.Core.Path.{subst}
use qing_stor_c_sdk.Errors.{ok, throw, fault, qingstor}
use qing_stor_c_sdk.Common.Buffer.{concat}
use qing_stor_c_sdk.Writer.{Writer, Session, Issued, held, Step, close, transfer_data}
use qing_stor_c_sdk.Writer.Requests.{Client, Ran, RanBadly}
use qing_stor_c_sdk.Writer.Fill.{IsWriter, IsFresh, with_buffer}
use qing_stor_c_sdk.Writer.Moves.{part_calls, AllFull, Moved, Pumped, Moved-nil}
use qing_stor_c_sdk.Writer.Parts.{transfer_data-Pumped}
use qing_stor_c_sdk.Writer.Close.{complete_call, Issues, close-Issues}

part_calls-append :
    (w : Writer) (n : ℕ) (xs ys : List Bytes)
    → part_calls w n (xs ++ ys) ≡ part_calls w n xs ++ part_calls w (n + length xs) ys
part_calls-append w n [] ys = ap (λ m. part_calls w m ys) (omega arith)
part_calls-append w n (x ∷ xs) ys =
    ap (λ r. part_calls w n (x ∷ []) ++ r)
      (part_calls-append w (suc n) xs ys
        ∙ ap (λ m. part_calls w (suc n) xs ++ part_calls w m ys) (omega arith))

concat-append : (xs ys : List Bytes) → concat (xs ++ ys) ≡ concat xs ++ concat ys
concat-append [] ys = refl
concat-append (x ∷ xs) ys = rw (concat-append xs ys) (sym (append_assoc x (concat xs) (concat ys)))

AllFull-append : (n : ℕ) (xs ys : List Bytes) → AllFull n xs → AllFull n ys → AllFull n (xs ++ ys)
AllFull-append n [] ys f g = g
AllFull-append n (x ∷ xs) ys (e, f) g = (e, AllFull-append n xs ys f g)

-- The writer with another buffer and part number; its uploads are spelled the same.
abbrev moved : Writer → Bytes → ℕ → ℕ → Writer
moved w b n k = record (with_buffer w b n) { part_num = k }

part_calls-moved :
    (w : Writer) (b : Bytes) (n k i : ℕ) (xs : List Bytes)
    → part_calls (moved w b n k) i xs ≡ part_calls w i xs
part_calls-moved w b n k i [] = refl
part_calls-moved w b n k i (x ∷ xs) = rw (part_calls-moved w b n k (suc i) xs) refl

module _ {World Json : Type 0} (client : Client World Json) where
  Moved-trans :
      (s s' s'' : Session World) (p p' : List Bytes) (t t' : Bytes)
      → Moved client s s' p p t
      → Moved client s' s'' p' p' t'
      → Moved client s s'' (p ++ p') (p ++ p') (t ++ t')
  Moved-trans s s' s'' p p' t t' m m' =
      let calls : part_calls s'.writer s'.writer.part_num p'
          ≡ part_calls s.writer (s.writer.part_num + length p) p' =
        rw m.after (
          part_calls-moved s.writer (held s'.writer) s'.writer.write_pos
            (s.writer.part_num + length p) (s.writer.part_num + length p) p') in
      let size : s'.writer.buff_size ≡ s.writer.buff_size = ap (λ w. w.buff_size) m.after in
      record {
        after =
            m'.after
            ∙ rw m.after (
                ap (moved s.writer (held s''.writer) s''.writer.write_pos)
                  (omega (arith, length-append p p')));
        text =
            sym (append_assoc (held s.writer) t t')
            ∙ rw (m.text, append_assoc, m'.text, concat-append p p')
                (sym (append_assoc (concat p) (concat p') (held s''.writer)));
        sized = AllFull-append _ p p' m.sized (subst (λ n. AllFull n p') size m'.sized);
        requests =
            m'.requests
            ∙ rw (m.requests, calls, part_calls-append s.writer s.writer.part_num p p')
                (append_assoc s.issued _ _);
        valid = m'.valid;
      }

  -- One write after another; a write that throws ends them.
  abbrev pub chained :
      Option (Step client) → (Session World → Option (Step client)) → Option (Step client)
  chained none next = none
  chained (some (ok u, s)) next = next s
  chained (some (throw e, s)) next = some (throw e, s)
  chained (some (fault, s)) next = some (fault, s)

  abbrev pub write_all : List Bytes → Session World → Option (Step client)
  write_all [] s = some (ok tt, s)
  write_all (t ∷ ts) s = chained (transfer_data client t s) (write_all ts)

  -- The writes, and `close`.
  abbrev pub whole_upload : List Bytes → Session World → Option (Step client)
  whole_upload texts s = chained (write_all texts s) (λ s'. some (close client s'))

  abbrev AllMoved : Session World → List Bytes → Step client → Type 0
  AllMoved s texts (fault, s') = Ran client fault
  AllMoved s texts (throw e, s') = (e ≡ qingstor) × RanBadly client
  AllMoved s texts (ok u, s') =
      (parts : List Bytes) × Moved client s s' parts parts (concat texts)
      × (s'.writer.write_pos < s'.writer.buff_size)

  after_write :
      (s : Session World) (t : Bytes) (ts : List Bytes) (d : Step client)
      → Pumped client s t d
      → ((s' : Session World)
          → IsWriter s'.writer
          → s'.writer.write_pos < s'.writer.buff_size
          → (step : Step client) × (write_all ts s' ≡ some step) × AllMoved s' ts step)
      → (step : Step client) × (chained (some d) (write_all ts) ≡ some step)
        × AllMoved s (t ∷ ts) step
  after_write s t ts (fault, s') h rest = ((fault, s'), refl, h)
  after_write s t ts (throw e, s') (q, bad, parts, taken, lost, left, m, top) rest =
      ((throw e, s'), refl, (q, bad))
  after_write s t ts (ok u, s') (parts, m, low) rest =
      let (step, e, a) = rest s' m.valid low in (step, e, join step a)
    where
      join : (step : Step client) → AllMoved s' ts step → AllMoved s (t ∷ ts) step
      join (fault, s'') a = a
      join (throw e, s'') a = a
      join (ok v, s'') (parts', m', low') =
          (parts ++ parts', Moved-trans s s' s'' parts parts' t (concat ts) m m', low')

  write_all-AllMoved :
      (texts : List Bytes) (s : Session World)
      → IsWriter s.writer
      → s.writer.write_pos < s.writer.buff_size
      → (step : Step client) × (write_all texts s ≡ some step) × AllMoved s texts step
  write_all-AllMoved [] s v low = ((ok tt, s), refl, ([], Moved-nil client s v, low))
  write_all-AllMoved (t ∷ ts) s v low =
      let (d, e, p) = transfer_data-Pumped client s t v low in
      rw e (after_write s t ts d p (write_all-AllMoved ts))

  -- The requests of an upload that ended well: full buffers and a last part that is shorter, which
  -- make up the text, numbered from 0, and the completion with as many numbers.
  pub record UploadOf (s : Session World) (text : Bytes) (issued : List Issued) : Type 0 where
    pub parts : List Bytes
    pub last : Bytes
    pub whole : concat parts ++ last ≡ text
    pub sized : AllFull s.writer.buff_size parts
    pub short : length last < s.writer.buff_size
    pub requests :
        issued
        ≡ s.issued
          ++ (part_calls s.writer 0 (parts ++ (last ∷ []))
              ++ (complete_call client s.writer (suc (length parts)) ∷ []))

  abbrev pub Uploaded : Session World → Bytes → Step client → Type 0
  Uploaded s text (fault, s') = Ran client fault
  Uploaded s text (throw e, s') = (e ≡ qingstor) × RanBadly client
  Uploaded s text (ok u, s') = UploadOf s text s'.issued

  -- The uploads and the completion, as one list of requests.
  gathered :
      (w : Writer) (log : List Issued) (parts : List Bytes) (b : Bytes) (n : ℕ)
      → n ≡ 0
      → log
          ++ part_calls w n parts
          ++ (part_calls w (n + length parts) (b ∷ [])
              ++ (complete_call client w (suc (n + length parts)) ∷ []))
        ≡ log
          ++ (part_calls w 0 (parts ++ (b ∷ []))
              ++ (complete_call client w (suc (length parts)) ∷ []))
  gathered w log parts b n e =
      let k : n + length parts ≡ length parts = omega (arith, e) in
      let z : 0 + length parts ≡ length parts = omega arith in
      let c = complete_call client w (suc (length parts)) ∷ [] in
      let q = part_calls w (length parts) (b ∷ []) in
      rw (k, e, part_calls-append w 0 parts (b ∷ []), z)
        (append_assoc log (part_calls w 0 parts) (q ++ c)
          ∙ ap (λ r. log ++ r) (sym (append_assoc (part_calls w 0 parts) q c)))

  close-Uploaded :
      (s s' : Session World) (parts : List Bytes) (text : Bytes) (d : Step client)
      → IsFresh s.writer
      → Moved client s s' parts parts text
      → s'.writer.write_pos < s'.writer.buff_size
      → Issues client s'
          (part_calls s'.writer s'.writer.part_num (held s'.writer ∷ [])
            ++ (complete_call client s'.writer (suc s'.writer.part_num) ∷ []))
          d
      → Uploaded s text d
  close-Uploaded s s' parts text (fault, t) f m low h = h
  close-Uploaded s s' parts text (throw e, t) f m low h = h
  close-Uploaded s s' parts text (ok u, t) f m low h = record {
    parts = parts;
    last = held s'.writer;
    whole = sym m.text ∙ ap (λ b. b ++ text) f.nothing_held;
    sized = m.sized;
    short = omega (arith, m.valid.counted, low, ap (λ w. w.buff_size) m.after);
    requests =
        h
        ∙ ap₂ (λ log tail. log ++ tail) m.requests
            (ap
              (λ w.
                part_calls w w.part_num (held s'.writer ∷ [])
                ++ (complete_call client w (suc w.part_num) ∷ []))
              m.after)
        ∙ gathered s.writer s.issued parts (held s'.writer) s.writer.part_num f.no_part;
  }

  after_writes :
      (s : Session World) (texts : List Bytes) (d : Step client)
      → IsFresh s.writer
      → AllMoved s texts d
      → (step : Step client) × (chained (some d) (λ s'. some (close client s')) ≡ some step)
        × Uploaded s (concat texts) step
  after_writes s texts (fault, s') f a = ((fault, s'), refl, a)
  after_writes s texts (throw e, s') f a = ((throw e, s'), refl, a)
  after_writes s texts (ok u, s') f (parts, m, low) =
      let open_still : s'.writer.canceled ≡ false = ap (λ w. w.canceled) m.after ∙ f.not_canceled in
      (
        close client s',
        refl,
        close-Uploaded s s' parts (concat texts) _ f m low
            (close-Issues client s' m.valid open_still),
      )

  -- A whole upload through a fresh buffer of fewer than 2 ^ 31 bytes comes to an end, and if nothing
  -- throws the calls of `DoGetJSON` are exactly these, after those before: one upload for each full
  -- buffer and then one for a shorter last part, each with the whole part and its length as what is
  -- to be sent, with the part numbers from 0 on, where the parts put together are the bytes of all
  -- the writes in order; and the completion with just those numbers. What is thrown is a plain
  -- `QingStorException`. It throws only if a request can throw, and its behaviour is undefined only
  -- if that of a request can be.
  pub whole_upload-Uploaded :
      (texts : List Bytes) (s : Session World)
      → IsFresh s.writer
      → (step : Step client) × (whole_upload texts s ≡ some step) × Uploaded s (concat texts) step
  whole_upload-Uploaded texts s f =
      let low : s.writer.write_pos < s.writer.buff_size =
        omega (arith, f.valid.counted, f.valid.room, ap length f.nothing_held) in
      let (d, e, a) = write_all-AllMoved texts s f.valid low in rw e (after_writes s texts d f a)
