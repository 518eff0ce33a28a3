-- ===== src/Protocol.antt =====
-- src/mcp_zero_trust_layer/protocol/jsonrpc.py: the envelope of a message.
pub mod Envelope
