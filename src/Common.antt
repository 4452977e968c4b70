-- ===== src/Common.antt =====
-- The parts of src/QingStorCommon.cpp that need no connection: header lists, request signatures,
-- receive and send buffers, URLs and response headers.
pub mod Header
pub mod Signature
pub mod Buffer
pub mod Upload
pub mod Url
pub mod HttpHeader
pub mod HeaderList
mod Tests
