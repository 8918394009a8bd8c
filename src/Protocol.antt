-- ===== src/Protocol.antt =====
-- src/common/protocol.h and protocol.cpp: status codes, sizes and the pattern of file names.
use cybersec_proj.Base.{ℕ, ◌*◌, ◌^◌, Bool, true, ◌&&◌, ◌||◌, [], ◌∷◌, Bytes, leb, ◌==◌}

-- Status codes.
abbrev pub ok_status : ℕ
ok_status = 200

abbrev pub bad_file : ℕ
bad_file = 452

abbrev pub server_error : ℕ
server_error = 500

abbrev pub syntax_error : ℕ
syntax_error = 501

abbrev pub command_not_implemented : ℕ
command_not_implemented = 502

-- Sizes.
abbrev pub buffer_size : ℕ
buffer_size = 4 * 2 ^ 10

abbrev pub max_file_size : ℕ
max_file_size = 4 * 2 ^ 30

abbrev pub hmac_len : ℕ
hmac_len = 32

abbrev pub hmac_key_len : ℕ
hmac_key_len = 32

abbrev pub aes128_key_len : ℕ
aes128_key_len = 16

-- One character of the class `[A-Za-z0-9\._]`.
abbrev pub parola_char : ℕ → Bool
parola_char c =
    (leb b'A' c && leb c b'Z')
    || (leb b'a' c && leb c b'z')
    || (leb b'0' c && leb c b'9')
    || (c == b'.')
    || (c == b'_')

-- `regex_match(s, parola)`: the whole text is a run of such characters, of any length.
unfoldable pub parola : Bytes → Bool
parola [] = true
parola (c ∷ s) = parola_char c && parola s
