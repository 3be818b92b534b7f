-- ===== src/Serializer.antt =====
-- eta/core/src/eta/runtime/vm/bytecode_serializer.h and bytecode_serializer.cpp beside it: the
-- `.etac` file format.
pub mod Stream
mod Tests
pub mod Memory
pub mod Constants
pub mod Artifact
