-- ===== src/Uuid/Tests.antt =====
-- A uuid (glib-compat/glib-compat.c).
use chamge.Prelude.{◌≡◌, refl, codes, length, arith}
use chamge.Uuid.{
  little_endian, Ints, bytes_of, bytes_of_int, print_uuid, hex_bytes, hex_digit, uuid_string_random,
}
use chamge.Uuid.RoundTrip.{read_bytes, read_ints, uuid_round_trip}

abbrev ints : Ints
ints = record { first = 0x04030201; second = 0x0807_0605; third = 0xdeadbeef; fourth = 7 }

printed : uuid_string_random little_endian ints ≡ codes "01020304-0506-0708-efbe-adde07000000"
unfolding uuid_string_random print_uuid bytes_of bytes_of_int hex_bytes hex_digit
printed = refl

uuid_round_trip_example :
    (length (uuid_string_random little_endian ints) ≡ 36)
    × (read_ints little_endian (read_bytes (uuid_string_random little_endian ints)) ≡ ints)
uuid_round_trip_example = uuid_round_trip little_endian ints (omega arith)
