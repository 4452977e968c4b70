-- ===== src/Interface/Ranges.antt =====
-- The ranges that `qingstorGetObject` reads (src/QingStor.cpp).
use qing_stor_c_sdk.Prelude.{
  ℕ, suc, ◌-◌, ◌^◌, ◌≡◌, refl, sym, true, List, [], ◌∷◌, map, Bytes, some, arith,
}
use mathlib.Core.Path.{subst}
use qing_stor_c_sdk.Prelude.Int.{ℤ, pos, ◌+ℤ◌, ◌≤ℤ◌, ltb_ℤ_of_ge, to_int, int_laws}
use qing_stor_c_sdk.Errors.{ok}
use qing_stor_c_sdk.Config.{Configuration}
use qing_stor_c_sdk.Reader.{ObjectInfo, chunk_fetcher, setup_pipeline}
use qing_stor_c_sdk.Reader.Truncation.{chunk_sizes-many}
use qing_stor_c_sdk.Reader.Plan.{Tiles, chunks-Tiles}
use qing_stor_c_sdk.Pipeline.{Pipeline}
use qing_stor_c_sdk.Pipeline.Launch.{spans}
use qing_stor_c_sdk.Pipeline.End.{new_pipeline, open_reader}
use qing_stor_c_sdk.Writer.Requests.{Client}
use qing_stor_c_sdk.Context.{head_object_of}
use qing_stor_c_sdk.Context.Extract.{JsonNumbers, HeadObjectResult}
use qing_stor_c_sdk.Interface.{Api, Texts, given}
use qing_stor_c_sdk.Interface.Objects.{get_object, given_reader}
use qing_stor_c_sdk.Interface.Handles.{Object, object_info, range_start_of, range_end_of, as_read}

-- The loop that sets the fetchers up, with chunks.
setup_pipeline-Tiles :
    (fuel : ℕ) (c : Configuration) (bucket : Bytes) (object : ObjectInfo)
    → pos 2 ≤ℤ c.num_connections
    → pos 1 ≤ℤ c.chunk_size
    → object.range.start ≤ℤ object.range.end
    → object.range.end ≤ℤ object.range.start +ℤ pos fuel
    → (l : List (ℤ × ℤ)) × (setup_pipeline (suc fuel) c bucket object
        ≡ some (map (chunk_fetcher c bucket object) l))
      × Tiles c.chunk_size object.range.start object.range.end l
unfolding setup_pipeline
setup_pipeline-Tiles fuel c bucket object many low le enough =
    let (l, e, t) =
      chunks-Tiles fuel c.chunk_size object.range.start object.range.end low le enough in
    (l, rw (chunk_sizes-many c many, e, setup_pipeline) refl, t)

to_int-small : (z : ℤ) → pos 1 ≤ℤ z → z ≤ℤ pos (2 ^ 31 - 1) → to_int z ≡ z
to_int-small z low high = ground (arith, low, high)

-- A chunk that an `int` can hold keeps its length in its fetcher.
spans-chunk_fetchers :
    (c : Configuration) (bucket : Bytes) (object : ObjectInfo) (chunk : ℤ)
    → chunk ≤ℤ pos (2 ^ 31 - 1)
    → (start end : ℤ) (l : List (ℤ × ℤ)) → Tiles chunk start end l
    → spans (map (chunk_fetcher c bucket object) l) ≡ l
unfolding chunk_fetcher
spans-chunk_fetchers c bucket object chunk high start end [] t = refl
spans-chunk_fetchers c bucket object chunk high start end ((offset, len) ∷ l) (o, one, le, t) =
    let same = to_int-small len one (omega (int_laws, le, high)) in
    let rest = spans-chunk_fetchers c bucket object chunk high (start +ℤ len) end l t in
    rw (same, rest) refl

module _ {World Json : Type 0} (texts : Texts) (client : Client World Json)
    (numbers : JsonNumbers Json) where
  -- A reader for these chunks, none of which has been started.
  abbrev pub reader_of_chunks : Configuration → Bytes → ObjectInfo → List (ℤ × ℤ) → Object
  reader_of_chunks c bucket object l = as_read (record {
    active = [];
    pending = map (chunk_fetcher c bucket object) l;
    connections = c.num_connections;
  })

  opened_reader :
      (fuel : ℕ) (c : Configuration) (bucket : Bytes) (object : ObjectInfo) (a : Api World)
      (l : List (ℤ × ℤ))
      → setup_pipeline fuel c bucket object ≡ some (map (chunk_fetcher c bucket object) l)
      → given_reader texts client numbers (open_reader fuel true c bucket object) a
        ≡ some (ok (some (reader_of_chunks c bucket object l)), a)
  unfolding open_reader new_pipeline
  opened_reader fuel c bucket object a l e = rw e refl

  -- The reader that is opened, by the list of the chunks, before a length becomes an `int`.
  pub get_object-chunks :
      (fuel : ℕ) (c : Configuration) (bucket key : Bytes) (start end : ℤ) (a : Api World)
      (head : HeadObjectResult)
      → given (some bucket) ≡ true
      → given (some key) ≡ true
      → start ≤ℤ end
      → pos 2 ≤ℤ c.num_connections
      → pos 1 ≤ℤ c.chunk_size
      → (head_object_of client numbers c bucket key a.world).0 ≡ ok head
      → range_start_of start ≤ℤ range_end_of head.content_length end
      → range_end_of head.content_length end ≤ℤ range_start_of start +ℤ pos fuel
      → (l : List (ℤ × ℤ)) × (get_object texts client numbers
            (suc fuel)
            true
            (some c)
            (some bucket)
            (some key)
            start
            end
            a
          ≡ some (
            ok (some (reader_of_chunks c bucket (object_info key head start end) l)),
            record a { world = (head_object_of client numbers c bucket key a.world).1 },
          ))
        × Tiles c.chunk_size (range_start_of start) (range_end_of head.content_length end) l
  unfolding get_object object_info
  get_object-chunks fuel c bucket key start end a head gb gk le many low found some_bytes enough =
      let (l, e, t) =
        setup_pipeline-Tiles fuel c bucket (object_info key head start end) many low some_bytes
          enough in
      let w = (head_object_of client numbers c bucket key a.world).1 in
      (
        l,
        rw (gb, gk, ltb_ℤ_of_ge end start le, found)
            (opened_reader (suc fuel) c bucket (object_info key head start end)
              (record a { world = w }) l e),
        t,
      )

  -- With at least two connections and a chunk size from 1 to 2 ^ 31 - 1, an object that `headObject`
  -- finds is opened for the range that is asked for, in which a negative start stands for 0 and a
  -- negative end for the last byte: if that range is not empty and the start was not behind the end
  -- as given, no fetcher is active, and those that are pending cover exactly the range, in order,
  -- without gap or overlap, with lengths from 1 to the chunk size. As many rounds as the range has
  -- bytes are enough.
  pub get_object-Tiles :
      (fuel : ℕ) (c : Configuration) (bucket key : Bytes) (start end : ℤ) (a : Api World)
      (head : HeadObjectResult)
      → given (some bucket) ≡ true
      → given (some key) ≡ true
      → start ≤ℤ end
      → pos 2 ≤ℤ c.num_connections
      → pos 1 ≤ℤ c.chunk_size
      → c.chunk_size ≤ℤ pos (2 ^ 31 - 1)
      → (head_object_of client numbers c bucket key a.world).0 ≡ ok head
      → range_start_of start ≤ℤ range_end_of head.content_length end
      → range_end_of head.content_length end ≤ℤ range_start_of start +ℤ pos fuel
      → (p : Pipeline) × (get_object texts client numbers
            (suc fuel)
            true
            (some c)
            (some bucket)
            (some key)
            start
            end
            a
          ≡ some (
            ok (some (as_read p)),
            record a { world = (head_object_of client numbers c bucket key a.world).1 },
          ))
        × (p.active ≡ [])
        × (p.connections ≡ c.num_connections)
        × Tiles c.chunk_size
            (range_start_of start)
            (range_end_of head.content_length end)
            (spans p.pending)
  get_object-Tiles fuel c bucket key start end a head gb gk le many low high found some_bytes
        enough =
      let (l, e, t) =
        get_object-chunks fuel c bucket key start end a head gb gk le many low found some_bytes
          enough in
      let object = object_info key head start end in
      let same = spans-chunk_fetchers c bucket object c.chunk_size high _ _ l t in
      (
        record {
          active = [];
          pending = map (chunk_fetcher c bucket object) l;
          connections = c.num_connections;
        },
        e,
        refl,
        refl,
        subst (Tiles c.chunk_size (range_start_of start) (range_end_of head.content_length end))
            (sym same) t,
      )
