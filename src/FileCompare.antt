-- ===== src/FileCompare.antt =====
-- The comparison of files before a transfer (src/detail2/file_compare_stream.cpp, the JSON control
-- messages of src/detail2/protocol.cpp, and `file_differs_from_local` of src/detail2/filesystem.cpp):
-- which files the sender offers, and which of them the receiver asks for.
pub mod Json
pub mod Message
pub mod Local
pub mod Batches
mod StackCodec
mod Examples
