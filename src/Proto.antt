-- ===== src/Proto.antt =====
-- src/esphome_proto.c: the protobuf subset of the ESPHome native API.
mod Tests
pub mod Buffer
pub mod WireType
pub mod Varint
pub mod Field
pub mod Message
pub mod Response
pub mod Frame
pub mod Advertisements
