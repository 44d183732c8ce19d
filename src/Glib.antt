-- ===== src/Glib.antt =====
-- What the program takes from GLib, JSON-GLib and rabbitmq-c; none of it is in the repository.
use chamge.Prelude.{ℕ, Bool, Option, Text}

-- Functions of GLib that compute a value, and the documents of JSON-GLib.
pub record Glib : Type 1 where
  -- The hexadecimal digest of `g_checksum_get_string` for MD5, and SHA-256.
  pub md5_hex : Text → Text
  pub sha256_hex : Text → Text
  -- `g_ascii_strtoull (s, NULL, 16)`.
  pub strtoull16 : Text → ℕ
  -- `g_ascii_strncasecmp (a, b, n) == 0`.
  pub same_ascii : Text → Text → ℕ → Bool
  -- A document that `json_parser_load_from_data` accepts.
  pub Document : Type 0
  pub load : Text → Option Document
  -- `none`: the root has no such member, or is no object; `some none`: the member is no string.
  pub member : Document → Text → Option (Option Text)
  -- `%d` and `%08X` of `g_snprintf`.
  pub decimal : ℕ → Text
  pub hex8 : ℕ → Text
