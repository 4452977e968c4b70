-- ===== src/Lib.antt =====
-- The QingStor SDK for C: a client of an object store, written in C++ behind a C interface.
--
-- The parts and their files (paths from the root of the repository):
--   Errors     src/Exception.h and `handleException` of src/QingStor.cpp: an exception is its
--              class, a C++ `throw e` of a base reference is `rethrow_copy`, a read through a
--              null pointer is the result `fault`. Errors/Messages and Errors/Paths are about
--              the texts of src/ExceptionInternal.cpp and .h.
--   Logger     src/Logger.cpp: which messages are written, and the line of one.
--   Config     src/Configuration.cpp: the scanner loop over the tokens that libyaml delivers,
--              and the checks of the settings.
--   Common     src/QingStorCommon.cpp and src/lib/encode.cpp without the connection: headers,
--              signature, the buffers that curl's callbacks fill and drain, URLs, the text that
--              a response header is turned into.
--   Request    `DoGetJSON` of src/QingStorCommon.cpp: the options that curl is given, one attempt
--              with its error paths, and the retry loop.
--   Writer     src/QingStorWriter.cpp, an upload in parts: open, write, close and cancel. Its
--              requests go through a `Client`, which `DoGetJSON` implements.
--   Fetcher    src/HTTPFetcher.cpp, the download of one byte range: the buffer between curl and
--              the caller, the range of a retry, the headers, the ends of a transfer.
--   Reader     src/QingStorReader.cpp, which divides a range among fetchers.
--   Pipeline   src/DownloadPipeline.cpp, the queue of fetchers of a reader, and `transferData` of
--              src/QingStorReader.cpp. What curl does in a round of the loop is an argument.
--              Fetcher/Content, Pipeline/Content and Pipeline/Download say which bytes of the
--              object a fetcher is there for, and what curl delivers of them, as predicates on
--              those arguments; Pipeline/Stuck and Pipeline/Refused are about a start that fails,
--              Fetcher/ErrorBody about the body of an error response.
--   Context    src/Context.cpp: the requests on buckets and objects, what is read from the
--              answers, and listings that are fetched page by page.
--   Interface  src/QingStor.cpp, the functions of src/qingstor.h: a configuration, bucket and
--              key, and the error number and message that a caller sees. A function ends with a
--              value or with `fault`; it never throws.
--   Prelude    names, lists, byte strings and integers that the parts share.
--
-- Bytes are natural numbers, a C string is a list of them without its NUL, and an `int64_t` is
-- an integer without a bound unless a property says how it wraps. State is passed explicitly:
-- a method is a function from the fields of its object to their new values and the result.
-- Loops over data are structural; the doubling loop of `ParserCallback`, the chunk loop of
-- the reader, the loop of `transferData` and the pages of a listing run on fuel, and theorems
-- say how much is enough: the bytes of the range, those of the text, the number of pages. The loop
-- of `read` goes over the rounds that are given, since only curl knows how many there are.
-- These kinds of undefined behaviour are `fault`: the use of a null pointer, the second release of
-- what is released already, and the use or release of a pointer that no line has set. The others
-- are taken as the compilers in use take them, everywhere alike: `delete` and `free` of what
-- `new[]` gave release the memory (src/QingStorCommon.cpp, src/HTTPFetcher.cpp and
-- src/QingStorWriter.h do so), the look for the handle of a message takes a handle that is not set
-- for another one, and `qsort` of objects of a class is a function on the list of them, about which
-- nothing is supposed. Sums of `int64_t` and the count of the parts of an upload, an `int32_t`, are
-- without overflow; the `int32_t` length of `doSend` and the `int` length of a fetcher are cut.
--
-- Not modelled: curl, OpenSSL, json-c, libyaml and http_parser are parameters or arguments
-- (the answers that a call gives), as are `qsort`, the texts of exceptions and whether memory is
-- granted; the calls of LOG are left out of the functions that make them, and the stack printer
-- and src/Thread.cpp altogether: they have no effect on the results.
pub mod Prelude
pub mod Errors
pub mod Config
pub mod Logger
pub mod Common
pub mod Fetcher
pub mod Reader
pub mod Request
pub mod Writer
pub mod Pipeline
pub mod Context
pub mod Interface
