-- ===== src/Uuid/RoundTrip.antt =====
-- The text of a uuid (glib-compat/glib-compat.c) against a reader of such texts.
use chamge.Prelude.{
  ℕ, ◌+◌, ◌-◌, ◌*◌, ◌/◌, ◌%◌, ◌^◌, ◌<◌, ◌≡◌, ◌∙◌, ap, refl, false, List, [], ◌∷◌, ◌++◌, Text,
  length, take, drop, ltb, ◌==◌, if◌then◌else◌, arith,
}
use chamge.Uuid.{
  ByteOrder, little_endian, big_endian, Ints, bytes_of_int, bytes_of, hex_digit, hex_bytes,
  print_uuid, uuid_string_random,
}

-- The value of a hexadecimal digit in lower case.
abbrev digit_value : ℕ → ℕ
digit_value c = if ltb c 58 then c - 48 else c - 87

-- The hyphens dropped, and the digits taken in pairs.
abbrev undashed : Text → Text
undashed [] = []
undashed (c ∷ t) = let rest = undashed t in if c == 45 then rest else c ∷ rest

abbrev pairs : Text → List ℕ
pairs [] = []
pairs (c ∷ []) = []
pairs (c ∷ d ∷ t) = (digit_value c * 16 + digit_value d) ∷ pairs t

abbrev pub read_bytes : Text → List ℕ
read_bytes t = pairs (undashed t)

abbrev pub read_int : ByteOrder → List ℕ → ℕ
read_int little_endian (a ∷ b ∷ c ∷ d ∷ []) = a + b * 256 + c * 65536 + d * 16777216
read_int big_endian (a ∷ b ∷ c ∷ d ∷ []) = d + c * 256 + b * 65536 + a * 16777216
read_int o bytes = 0

abbrev pub read_ints : ByteOrder → List ℕ → Ints
read_ints o bytes = record {
  first = read_int o (take 4 bytes);
  second = read_int o (take 4 (drop 4 bytes));
  third = read_int o (take 4 (drop 8 bytes));
  fourth = read_int o (take 4 (drop 12 bytes));
}

-- What `g_random_int` gives.
abbrev pub Is32Bit : Ints → Type 0
Is32Bit u = (u.first < 2 ^ 32) × (u.second < 2 ^ 32) × (u.third < 2 ^ 32) × (u.fourth < 2 ^ 32)

abbrev AreBytes : List ℕ → Type 0
AreBytes [] = Unit {0}
AreBytes (b ∷ bs) = (b < 256) × AreBytes bs

digit_value-hex_digit :
    (n : ℕ) → n < 16 → (digit_value (hex_digit n) ≡ n) × ((hex_digit n == 45) ≡ false)
unfolding hex_digit
digit_value-hex_digit n h = ground arith

undashed-hex_bytes :
    (bs : List ℕ) (t : Text)
    → AreBytes bs
    → undashed (hex_bytes bs ++ t) ≡ hex_bytes bs ++ undashed t
unfolding hex_bytes
undashed-hex_bytes [] t p = refl
undashed-hex_bytes (b ∷ bs) t (h, p) = ground (
  arith,
  undashed-hex_bytes bs t p,
  digit_value-hex_digit (b / 16) (omega arith),
  digit_value-hex_digit (b % 16) (omega arith),
)

pairs-hex_bytes : (bs : List ℕ) (t : Text) → AreBytes bs → pairs (hex_bytes bs ++ t) ≡ bs ++ pairs t
unfolding hex_bytes
pairs-hex_bytes [] t p = refl
pairs-hex_bytes (b ∷ bs) t (h, p) = ground (
  arith,
  pairs-hex_bytes bs t p,
  digit_value-hex_digit (b / 16) (omega arith),
  digit_value-hex_digit (b % 16) (omega arith),
)

undashed-last : (bs : List ℕ) → AreBytes bs → undashed (hex_bytes bs) ≡ hex_bytes bs
unfolding hex_bytes
undashed-last [] p = refl
undashed-last (b ∷ bs) (h, p) = ground (
  arith,
  undashed-last bs p,
  digit_value-hex_digit (b / 16) (omega arith),
  digit_value-hex_digit (b % 16) (omega arith),
)

pairs-last : (bs : List ℕ) → AreBytes bs → pairs (hex_bytes bs) ≡ bs
unfolding hex_bytes
pairs-last [] p = refl
pairs-last (b ∷ bs) (h, p) = ground (
  arith,
  pairs-last bs p,
  digit_value-hex_digit (b / 16) (omega arith),
  digit_value-hex_digit (b % 16) (omega arith),
)

-- A group and its hyphen.
undashed-group :
    (bs : List ℕ) (t rest : Text)
    → AreBytes bs
    → undashed t ≡ rest
    → undashed (hex_bytes bs ++ (45 ∷ t)) ≡ hex_bytes bs ++ rest
undashed-group bs t rest p e = undashed-hex_bytes bs (45 ∷ t) p ∙ ap (λ z. hex_bytes bs ++ z) e

pairs-group :
    (bs rest : List ℕ) (t : Text)
    → AreBytes bs
    → pairs t ≡ rest
    → pairs (hex_bytes bs ++ t) ≡ bs ++ rest
pairs-group bs rest t p e = pairs-hex_bytes bs t p ∙ ap (λ z. bs ++ z) e

read_groups :
    (a b c d e : List ℕ)
    → AreBytes a
    → AreBytes b
    → AreBytes c
    → AreBytes d
    → AreBytes e
    → read_bytes (
        hex_bytes a
        ++ (45
            ∷ (hex_bytes b ++ (45 ∷ (hex_bytes c ++ (45 ∷ (hex_bytes d ++ (45 ∷ hex_bytes e))))))))
      ≡ a ++ (b ++ (c ++ (d ++ e)))
read_groups a b c d e pa pb pc pd pe =
    ap pairs (
      undashed-group a _ _ pa (
        undashed-group b _ _ pb
          (undashed-group c _ _ pc (undashed-group d _ _ pd (undashed-last e pe)))))
    ∙ pairs-group a _ _ pa
        (pairs-group b _ _ pb (pairs-group c _ _ pc (pairs-group d _ _ pd (pairs-last e pe))))

read-print : (o : ByteOrder) (u : Ints) → read_bytes (uuid_string_random o u) ≡ bytes_of o u
unfolding uuid_string_random print_uuid bytes_of bytes_of_int
read-print little_endian u =
    let bs = bytes_of little_endian u in
    read_groups (take 4 bs) (take 2 (drop 4 bs)) (take 2 (drop 6 bs)) (take 2 (drop 8 bs))
      (take 6 (drop 10 bs)) (omega arith) (omega arith) (omega arith) (omega arith) (omega arith)
read-print big_endian u =
    let bs = bytes_of big_endian u in
    read_groups (take 4 bs) (take 2 (drop 4 bs)) (take 2 (drop 6 bs)) (take 2 (drop 8 bs))
      (take 6 (drop 10 bs)) (omega arith) (omega arith) (omega arith) (omega arith) (omega arith)

read_int-bytes_of_int : (o : ByteOrder) (n : ℕ) → n < 2 ^ 32 → read_int o (bytes_of_int o n) ≡ n
unfolding bytes_of_int
read_int-bytes_of_int little_endian n h = omega arith
read_int-bytes_of_int big_endian n h = omega arith

read_ints-bytes_of : (o : ByteOrder) (u : Ints) → Is32Bit u → read_ints o (bytes_of o u) ≡ u
unfolding bytes_of bytes_of_int
read_ints-bytes_of little_endian u (a, b, c, d) = ground (
  arith,
  read_int-bytes_of_int little_endian u.first a,
  read_int-bytes_of_int little_endian u.second b,
  read_int-bytes_of_int little_endian u.third c,
  read_int-bytes_of_int little_endian u.fourth d,
)
read_ints-bytes_of big_endian u (a, b, c, d) = ground (
  arith,
  read_int-bytes_of_int big_endian u.first a,
  read_int-bytes_of_int big_endian u.second b,
  read_int-bytes_of_int big_endian u.third c,
  read_int-bytes_of_int big_endian u.fourth d,
)

length-uuid_string_random : (o : ByteOrder) (u : Ints) → length (uuid_string_random o u) ≡ 36
unfolding uuid_string_random print_uuid bytes_of bytes_of_int hex_bytes
length-uuid_string_random little_endian u = refl
length-uuid_string_random big_endian u = refl

-- The text of a uuid has 36 bytes, in either order of the bytes in memory, and the four random
-- numbers of 32 bits can be read back from it: no bit of them is lost or overwritten.
pub uuid_round_trip :
    (o : ByteOrder) (u : Ints)
    → Is32Bit u
    → (length (uuid_string_random o u) ≡ 36)
      × (read_ints o (read_bytes (uuid_string_random o u)) ≡ u)
uuid_round_trip o u h =
    (length-uuid_string_random o u, ap (read_ints o) (read-print o u) ∙ read_ints-bytes_of o u h)
