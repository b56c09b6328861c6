-- ===== src/Crypto/Hex.antt =====
-- The hexadecimal helpers of src/app_crypto.c. A C string is the list of its characters
-- without the terminating NUL; reading past its end reads that NUL.
pub mod Laws
pub mod Sound
use zephyr_secure_supervisor.Base.{
  ℕ, zero, suc, ◌+◌, ◌*◌, ◌-◌, ◌/◌, ◌%◌, List, [], ◌∷◌, ◌&&◌, ◌||◌, not, Option, none, some,
  bit_and, bit_or, ◌<<◌, ◌>>◌, u8, length, get_or, ltb, leb, ◌==◌, if◌then◌else◌, Rc, done, fail,
  einval, eoverflow, enospc,
}

-- `none` is the -1 of a character that is no digit.
unfoldable pub hex_value : ℕ → Option ℕ
hex_value c =
    if leb b'0' c && leb c b'9'
    then some (c - b'0')
    else (if leb b'a' c && leb c b'f'
        then some (10 + (c - b'a'))
        else (if leb b'A' c && leb c b'F' then some (10 + (c - b'A')) else none))

-- `safe_strlen` of src/safe_memory.h, with its assertions compiled out: at most `max_len`.
unfoldable pub safe_strlen : List ℕ → ℕ → ℕ
safe_strlen str zero = 0
safe_strlen [] (suc max_len) = 0
safe_strlen (c ∷ str) (suc max_len) = if c == 0 then 0 else suc (safe_strlen str max_len)

abbrev pub max_key_bytes : ℕ
max_key_bytes = 32

abbrev pub max_hex_chars : ℕ
max_hex_chars = max_key_bytes * 2

-- Adds a byte in front of those that a later round has written.
abbrev pub then_byte : ℕ → Rc × List ℕ → Rc × List ℕ
then_byte b (rc, out) = (rc, b ∷ out)

abbrev pub byte_of_nibbles : ℕ → ℕ → ℕ
byte_of_nibbles hi lo = u8 (bit_or (hi << 4) lo)

-- One round of the loop: stop at a bad digit, else write the byte and go on with `rest`.
abbrev pub hex_round : Option ℕ → Option ℕ → Rc × List ℕ → Rc × List ℕ
hex_round (some hi) (some lo) rest = then_byte (byte_of_nibbles hi lo) rest
hex_round none lo rest = (fail einval, [])
hex_round (some hi) none rest = (fail einval, [])

-- The loop over `left` pairs of digits; `total` is what it returns at the end. The list holds the
-- bytes written to `out` from its start.
unfoldable pub hex_loop : ℕ → ℕ → List ℕ → Rc × List ℕ
hex_loop total zero s = (done total, [])
hex_loop total (suc left) (h ∷ l ∷ s) =
    let rest = hex_loop total left s in hex_round (hex_value h) (hex_value l) rest
hex_loop total (suc left) s = (fail einval, [])

unfoldable pub parse_hex_string : List ℕ → ℕ → Rc × List ℕ
parse_hex_string hex max_len =
    let len = safe_strlen hex (max_hex_chars + 1) in
    let bytes = len / 2 in
    if not (len % 2 == 0)
    then (fail einval, [])
    else (if bytes == 0 || ltb max_len bytes
        then (fail eoverflow, [])
        else hex_loop bytes bytes hex)

-- `hex_chars`
abbrev pub hex_chars : List ℕ
hex_chars =
    b'0' ∷ b'1' ∷ b'2' ∷ b'3' ∷ b'4' ∷ b'5' ∷ b'6' ∷ b'7' ∷ b'8' ∷ b'9' ∷ b'A' ∷ b'B' ∷ b'C' ∷ b'D'
    ∷ b'E' ∷ b'F' ∷ []

unfoldable pub hex_digits : List ℕ → List ℕ
hex_digits [] = []
hex_digits (b ∷ src) =
    get_or hex_chars (bit_and (b >> 4) 0xF) 0 ∷ get_or hex_chars (bit_and b 0xF) 0 ∷ hex_digits src

-- The list is the string left in `dst`; its NUL is the character behind it.
unfoldable pub bytes_to_hex : List ℕ → ℕ → Rc × List ℕ
bytes_to_hex src dst_len =
    if ltb dst_len (length src * 2 + 1) then (fail enospc, []) else (done 0, hex_digits src)
