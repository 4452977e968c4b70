-- ===== src/Interface/Handles.antt =====
-- The wrapper of a reader or a writer (`QingStorObjectInternalWrapper`, src/QingStor.cpp), how it is
-- destroyed, and the range that is read.
use qing_stor_c_sdk.Prelude.{Bool, true, false, List, [], Bytes, if◌then◌else◌, none, some}
use qing_stor_c_sdk.Prelude.Int.{ℤ, pos, ◌-ℤ◌, ltb_ℤ}
use qing_stor_c_sdk.Errors.{Result, ok, throw, fault, ◌>>=◌, qingstor, io}
use qing_stor_c_sdk.Fetcher.{Release}
use qing_stor_c_sdk.Pipeline.{Pipeline}
use qing_stor_c_sdk.Pipeline.End.{destroy_pipeline}
use qing_stor_c_sdk.Reader.{ObjectInfo}
use qing_stor_c_sdk.Writer.{Writer}
use qing_stor_c_sdk.Context.Extract.{HeadObjectResult}
use qing_stor_c_sdk.Interface.{Api}

-- What `rw` points to.
pub data Pointer : Type 0 where
  null : Pointer
  reader_of : Pipeline → Pointer
  writer_of : Writer → Pointer

-- `QingStorObjectInternalWrapper`
pub record Object : Type 0 where
  pub reader : Bool
  pub rw : Pointer

-- The casts from `void *`: to the wrong class they are undefined.
abbrev pub as_reader : Pointer → Result Pipeline
as_reader null = throw io
as_reader (reader_of p) = ok p
as_reader (writer_of w) = fault

abbrev pub as_writer : Pointer → Result Writer
as_writer null = throw io
as_writer (reader_of p) = fault
as_writer (writer_of w) = ok w

unfoldable pub get_reader : Object → Result Pipeline
get_reader o = if o.reader then as_reader o.rw else throw qingstor

unfoldable pub get_writer : Object → Result Writer
get_writer o = if o.reader then throw qingstor else as_writer o.rw

-- `~QingStorWriter` frees the array if there is one, and nothing of curl.
unfoldable pub destroy_writer : Writer → Result (List Release × List Release)
destroy_writer w = elim w.buffer [ none ↦ ok ([], []) | some b ↦ ok ([], []) ]

abbrev pub destroy_reader_pointer : Pointer → Result (List Release × List Release)
destroy_reader_pointer null = ok ([], [])
destroy_reader_pointer (reader_of p) = destroy_pipeline p
destroy_reader_pointer (writer_of w) = fault

abbrev pub destroy_writer_pointer : Pointer → Result (List Release × List Release)
destroy_writer_pointer null = ok ([], [])
destroy_writer_pointer (reader_of p) = fault
destroy_writer_pointer (writer_of w) = destroy_writer w

-- `~QingStorObjectInternalWrapper`
unfoldable pub destroy_object : Object → Result (List Release × List Release)
unfolding destroy_pipeline destroy_writer
destroy_object o = if o.reader then destroy_reader_pointer o.rw else destroy_writer_pointer o.rw

-- `delete object`, before what follows.
abbrev pub behind_delete {ℓ} :
    {World : Type 0} {R : Type ℓ} → Object → Result R × Api World → Result R × Api World
behind_delete o (r, a) = (destroy_object o >>= (λ released. r), a)

-- The range that is read: a negative end of it stands for that end of the object.
abbrev pub range_start_of : ℤ → ℤ
range_start_of start = if ltb_ℤ start (pos 0) then pos 0 else start

abbrev pub range_end_of : ℤ → ℤ → ℤ
range_end_of content_length end = if ltb_ℤ end (pos 0) then content_length -ℤ pos 1 else end

unfoldable pub object_info : Bytes → HeadObjectResult → ℤ → ℤ → ObjectInfo
object_info key head start end = record {
  key = key;
  size = head.content_length;
  range = record { start = range_start_of start; end = range_end_of head.content_length end };
}

abbrev pub as_read : Pipeline → Object
as_read p = record { reader = true; rw = reader_of p }

abbrev pub as_written : Writer → Object
as_written w = record { reader = false; rw = writer_of w }
