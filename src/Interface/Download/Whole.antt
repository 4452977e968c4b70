-- ===== src/Interface/Download/Whole.antt =====
-- A whole download through the C interface (src/QingStor.cpp): `qingstorGetObject`, and `qingstorRead`
-- until it returns 0.
use qing_stor_c_sdk.Prelude.{
  ℕ, suc, ◌-◌, ◌^◌, ◌<◌, ◌≡◌, refl, sym, ap, ◌∙◌, true, List, [], ◌++◌, Bytes, Option, none, some,
  arith,
}
use mathlib.Core.Path.{subst}
use qing_stor_c_sdk.Prelude.Int.{ℤ, pos, pos_part, neg_part, ◌+ℤ◌, ◌≤ℤ◌}
use qing_stor_c_sdk.Errors.{Result, ok, throw, fault}
use qing_stor_c_sdk.Common.Signature.{Crypto}
use qing_stor_c_sdk.Common.Url.{UrlParser}
use qing_stor_c_sdk.Config.{Configuration}
use qing_stor_c_sdk.Pipeline.{Pipeline, Round}
use qing_stor_c_sdk.Pipeline.Download.{IsSoundPipeline, left}
use qing_stor_c_sdk.Pipeline.Download.Read.{FitsRounds}
use qing_stor_c_sdk.Pipeline.Download.Opened.{between, chunk_fetchers-AllSound, chunk_fetchers-dues}
use qing_stor_c_sdk.Writer.Requests.{Client}
use qing_stor_c_sdk.Context.{head_object_of}
use qing_stor_c_sdk.Context.Extract.{JsonNumbers, HeadObjectResult}
use qing_stor_c_sdk.Interface.{Api, Texts, given}
use qing_stor_c_sdk.Interface.Handles.{
  Pointer, null, reader_of, writer_of, Object, as_read, object_info, range_start_of, range_end_of,
}
use qing_stor_c_sdk.Interface.Objects.{get_object, read_object}
use qing_stor_c_sdk.Interface.Ranges.{get_object-chunks}
use qing_stor_c_sdk.Interface.Download.{Handed, read_object-Handed}

module _ {World : Type 0} (texts : Texts) (object : Bytes) (crypto : Crypto) (scan : UrlParser)
    (max_write : ℕ) (small : max_write < 2 ^ 63) (c : Configuration) where
  -- Calls of `qingstorRead` for the same object, with arrays of any size, of which the last returns
  -- 0; a call that fails may come between them. The bytes that they put into the arrays, joined.
  pub data Downloaded : Pipeline → Api World → Bytes → Type 0 where
    last :
        (rs : List Round) (n : ℤ) (p q : Pipeline) (a b : Api World)
        → FitsRounds object crypto scan max_write small rs (pos_part n) p
        → read_object texts crypto scan max_write rs (some c) (some (as_read p)) true n a
          ≡ some (ok (pos 0, []), (some (as_read q), b))
        → Downloaded p a []
    more :
        (rs : List Round) (n v : ℤ) (p q : Pipeline) (a b : Api World) (bytes rest : Bytes)
        → FitsRounds object crypto scan max_write small rs (pos_part n) p
        → read_object texts crypto scan max_write rs (some c) (some (as_read p)) true n a
          ≡ some (ok (v, bytes), (some (as_read q), b))
        → Downloaded q b rest
        → Downloaded p a (bytes ++ rest)

  Downloaded-left :
      (p : Pipeline) (a : Api World) (all : Bytes)
      → pos 1 ≤ℤ p.connections
      → IsSoundPipeline object p
      → Downloaded p a all
      → all ≡ left object p
  Downloaded-left p a all one s (last rs n p' q a' b fits e) =
      let h =
        read_object-Handed texts object crypto scan max_write small rs (some c) p true n a one s
          fits in
      let (kept, sound, bytes, end) = subst (Handed object p) e h in sym (end refl)
  Downloaded-left p a all one s (more rs n v p' q a' b bytes rest fits e later) =
      let h =
        read_object-Handed texts object crypto scan max_write small rs (some c) p true n a one s
          fits in
      let (kept, sound, handed, end) = subst (Handed object p) e h in
      ap (λ t. bytes ++ t)
        (Downloaded-left q b rest (omega (arith, one, ap pos_part kept, ap neg_part kept)) sound
          later)
      ∙ sym handed

range_start_of-pos : (start : ℤ) → pos 0 ≤ℤ range_start_of start
range_start_of-pos start = ground arith

-- The pipeline of a handle that was returned.
abbrev pub pipeline_of :
    {World : Type 0} → Pipeline → Option (Result (Option Object) × Api World) → Pipeline
pipeline_of p none = p
pipeline_of p (some (throw e, a)) = p
pipeline_of p (some (fault, a)) = p
pipeline_of p (some (ok none, a)) = p
pipeline_of p (some (ok (some o), a)) = pointed o.rw
  where
    pointed : Pointer → Pipeline
    pointed null = p
    pointed (reader_of q) = q
    pointed (writer_of w) = p

module _ {World Json : Type 0} (texts : Texts) (client : Client World Json)
    (numbers : JsonNumbers Json) (object : Bytes) (crypto : Crypto) (scan : UrlParser)
    (max_write : ℕ) (small : max_write < 2 ^ 63) where
  -- A whole download. An object that `headObject` finds under the bucket and key is opened by
  -- `qingstorGetObject`, with at least two connections and chunks of 1 to 2 ^ 31 - 1 bytes, for a
  -- range that is not empty and whose start is not behind the end as given, with as much fuel as the
  -- range has bytes; then `qingstorRead` is called until it returns 0, with arrays of any size,
  -- calls that fail included. If curl delivers to each transfer what the range of its fetcher has
  -- next, in pieces and in an order between the transfers as it likes, and reports a transfer as
  -- successful only when it has delivered all of the range, and CURL_MAX_WRITE_SIZE is below 2 ^ 63,
  -- then the bytes that the calls have put into the arrays are, joined, the bytes of the object from
  -- the start to the end of the range: none is missing, repeated or out of place.
  pub get_object-Downloaded :
      (fuel : ℕ) (c : Configuration) (bucket key : Bytes) (start end : ℤ) (a : Api World)
      (head : HeadObjectResult) (p : Pipeline) (opened : Api World) (bytes : Bytes)
      → given (some bucket) ≡ true
      → given (some key) ≡ true
      → start ≤ℤ end
      → pos 2 ≤ℤ c.num_connections
      → pos 1 ≤ℤ c.chunk_size
      → c.chunk_size ≤ℤ pos (2 ^ 31 - 1)
      → (head_object_of client numbers c bucket key a.world).0 ≡ ok head
      → range_start_of start ≤ℤ range_end_of head.content_length end
      → range_end_of head.content_length end ≤ℤ range_start_of start +ℤ pos fuel
      → get_object texts client numbers
          (suc fuel)
          true
          (some c)
          (some bucket)
          (some key)
          start
          end
          a
        ≡ some (ok (some (as_read p)), opened)
      → Downloaded texts object crypto scan max_write small c p opened bytes
      → bytes ≡ between object (range_start_of start) (range_end_of head.content_length end)
  unfolding object_info
  get_object-Downloaded fuel c bucket key start end a head p opened bytes gb gk le many low high
        found some_bytes enough returns run =
      let (l, e, t) =
        get_object-chunks texts client numbers fuel c bucket key start end a head gb gk le many low
          found some_bytes enough in
      let same = ap (pipeline_of p) (sym returns ∙ e) in
      let info = object_info key head start end in
      let connected = ap (λ r. r.connections) same in
      let sound =
        subst (IsSoundPipeline object) (sym same)
          (tt, chunk_fetchers-AllSound object c bucket info l) in
      Downloaded-left texts object crypto scan max_write small c p opened bytes
        (omega (arith, many, ap pos_part connected, ap neg_part connected)) sound run
      ∙ ap (left object) same
      ∙ chunk_fetchers-dues object c bucket info c.chunk_size (range_start_of start)
          (range_end_of head.content_length end) l high (range_start_of-pos start) t
