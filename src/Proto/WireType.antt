-- ===== src/Proto/WireType.antt =====
-- The wire types of src/include/esphome_proto.h.
use esphome_linux.Base.{ℕ}

abbrev pub varint : ℕ
varint = 0

abbrev pub fixed64 : ℕ
fixed64 = 1

abbrev pub length_delimited : ℕ
length_delimited = 2

abbrev pub fixed32 : ℕ
fixed32 = 5
