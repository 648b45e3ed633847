-- ===== src/Chunks.antt =====
-- aether/safe_stream/details: sending_chunk_list.h and receiving_chunk_list.h.
pub mod Sending
pub mod Receiving
