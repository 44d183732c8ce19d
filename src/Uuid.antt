-- ===== src/Uuid.antt =====
-- glib-compat/glib-compat.c: `g_uuid_string_random` for releases of GLib before 2.52. The four
-- numbers that `g_random_int` gives are arguments; each is below 2 ^ 32.
pub mod RoundTrip
pub mod Tests
use chamge.Prelude.{
  ℕ, ◌+◌, ◌/◌, ◌%◌, Bool, true, false, List, [], ◌∷◌, ◌++◌, Text, take, drop, ltb, if◌then◌else◌,
}

-- The order of the bytes of a `guint32` in memory, which is that of the processor.
pub data ByteOrder : Type 0 where
  little_endian big_endian : ByteOrder

-- `uuid.ints`.
pub record Ints : Type 0 where
  pub first : ℕ
  pub second : ℕ
  pub third : ℕ
  pub fourth : ℕ

bytes_of_int : ByteOrder → ℕ → List ℕ
bytes_of_int little_endian n = n % 256 ∷ n / 256 % 256 ∷ n / 65536 % 256 ∷ n / 16777216 % 256 ∷ []
bytes_of_int big_endian n = n / 16777216 % 256 ∷ n / 65536 % 256 ∷ n / 256 % 256 ∷ n % 256 ∷ []

-- The union: `uuid.bytes` for `uuid.ints`.
pub bytes_of : ByteOrder → Ints → List ℕ
unfolding bytes_of_int
bytes_of o u =
    bytes_of_int o u.first
    ++ (bytes_of_int o u.second ++ (bytes_of_int o u.third ++ bytes_of_int o u.fourth))

-- A digit of `%x`, and `%02x` of a byte.
hex_digit : ℕ → ℕ
hex_digit n = if ltb n 10 then n + 48 else n + 87

hex_bytes : List ℕ → Text
unfolding hex_digit
hex_bytes [] = []
hex_bytes (b ∷ bs) = hex_digit (b / 16) ∷ hex_digit (b % 16) ∷ hex_bytes bs

-- The five groups of g_strdup_printf, of 4, 2, 2, 2 and 6 bytes.
pub print_uuid : List ℕ → Text
unfolding hex_bytes
print_uuid bytes =
    hex_bytes (take 4 bytes)
    ++ (45
        ∷ (hex_bytes (take 2 (drop 4 bytes))
            ++ (45
                ∷ (hex_bytes (take 2 (drop 6 bytes))
                    ++ (45
                        ∷ (hex_bytes (take 2 (drop 8 bytes))
                            ++ (45 ∷ hex_bytes (take 6 (drop 10 bytes)))))))))

pub uuid_string_random : ByteOrder → Ints → Text
unfolding bytes_of print_uuid
uuid_string_random o u = print_uuid (bytes_of o u)
