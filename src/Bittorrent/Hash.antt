-- ===== src/Bittorrent/Hash.antt =====
-- bittorrent/peer.go: info hashes, raw or in hexadecimal (encoding/hex of the standard library).
use mochi.Base.{
  ℕ, ◌+◌, ◌-◌, ◌*◌, ◌/◌, ◌%◌, ◌<◌, ◌≡◌, refl, ◌⊎◌, ◌&&◌, ◌||◌, [], ◌∷◌, Option, none, some, arith,
  ◌==◌, leb, ltb, if◌then◌else◌, length, take,
}
use mochi.Base.Bytes.{Bytes, AreBytes}
use mochi.Result.{Error, other_error, Result, ok, err, panic, ◌>>=◌}

abbrev pub InfoHash : Type 0
InfoHash = Bytes

abbrev pub info_hash_v1_len : ℕ
info_hash_v1_len = 20

abbrev pub info_hash_v2_len : ℕ
info_hash_v2_len = 32

abbrev pub err_invalid_hash_size : Error
err_invalid_hash_size =
    other_error
      "info hash must be either 20 (for torrent V1) or 32 (V2) bytes or same sizes x2 (if HEX encoded)"

abbrev pub err_invalid_hex_byte : Error
err_invalid_hex_byte = other_error "encoding/hex: invalid byte"

-- hex.Decode on one digit, upper or lower case
unfoldable pub hex_value : ℕ → Option ℕ
hex_value c =
    if leb b'0' c && leb c b'9'
    then some (c - 48)
    else if leb b'a' c && leb c b'f'
    then some (c - 87)
    else if leb b'A' c && leb c b'F'
    then some (c - 55)
    else none

abbrev pub hex_pair : Option ℕ → Option ℕ → Result ℕ
hex_pair (some a) (some b) = ok (a * 16 + b)
hex_pair _ _ = err err_invalid_hex_byte

-- hex.Decode; the callers here hand over an even number of bytes
unfoldable pub hex_decode : Bytes → Result Bytes
unfolding hex_value
hex_decode (p ∷ q ∷ src) = do
  b ← hex_pair (hex_value p) (hex_value q)
  rest ← hex_decode src
  ok (b ∷ rest)
hex_decode _ = ok []

unfoldable pub hex_digit : ℕ → ℕ
hex_digit n = if ltb n 10 then n + 48 else n + 87

-- hex.EncodeToString
unfoldable pub hex_encode : Bytes → Bytes
unfolding hex_digit
hex_encode [] = []
hex_encode (b ∷ bs) = hex_digit (b / 16) ∷ hex_digit (b % 16) ∷ hex_encode bs

unfoldable pub new_info_hash : Bytes → Result InfoHash
new_info_hash bs =
    let l = length bs in
    if l == info_hash_v1_len || l == info_hash_v2_len
    then ok bs
    else if l == info_hash_v1_len * 2 || l == info_hash_v2_len * 2
    then hex_decode bs
    else err err_invalid_hash_size

unfoldable pub truncate_v1 : InfoHash → InfoHash
truncate_v1 i = if length i == info_hash_v2_len then take info_hash_v1_len i else i

-- InfoHash.String
unfoldable pub string : InfoHash → Bytes
unfolding hex_encode
string i = hex_encode i

abbrev pub IsInfoHash : Bytes → Type 0
IsInfoHash i = (length i ≡ info_hash_v1_len) ⊎ (length i ≡ info_hash_v2_len)

hex_pair-digits :
    (b : ℕ)
    → b < 256
    → hex_pair (hex_value (hex_digit (b / 16))) (hex_value (hex_digit (b % 16))) ≡ ok b
unfolding hex_value hex_digit
hex_pair-digits b h = ground arith

hex_decode-encode : (bs : Bytes) → AreBytes bs → hex_decode (hex_encode bs) ≡ ok bs
unfolding hex_decode hex_encode
hex_decode-encode [] h = refl
hex_decode-encode (b ∷ bs) h = rw (hex_pair-digits b h.0, hex_decode-encode bs h.1)

length-hex_encode : (bs : Bytes) → length (hex_encode bs) ≡ 2 * length bs
unfolding hex_encode
length-hex_encode [] = refl
length-hex_encode (b ∷ bs) = omega (arith, length-hex_encode bs)

abbrev DecodesTo : ℕ → Result Bytes → Type 0
DecodesTo n (ok out) = length out ≡ n
DecodesTo n (err e) = Unit
DecodesTo n panic = Unit

length-hex_decode : (bs : Bytes) → DecodesTo (length bs / 2) (hex_decode bs)
unfolding hex_decode
length-hex_decode [] = refl
length-hex_decode (p ∷ []) = omega arith
length-hex_decode (p ∷ q ∷ src) = ground (arith, length-hex_decode src)

-- What `new_info_hash` accepts, raw or hexadecimal, is a hash of 20 or of 32 bytes.
pub new_info_hash-IsInfoHash :
    (bs : Bytes) (ih : InfoHash) → new_info_hash bs ≡ ok ih → IsInfoHash ih
unfolding new_info_hash
new_info_hash-IsInfoHash bs ih h = ground (arith, length-hex_decode bs)

-- The hexadecimal text of a hash of 20 or of 32 bytes is read back as that hash, and so is the hash
-- itself.
pub new_info_hash-string :
    (ih : InfoHash)
    → AreBytes ih
    → IsInfoHash ih
    → (new_info_hash (string ih) ≡ ok ih) × (new_info_hash ih ≡ ok ih)
unfolding new_info_hash string
new_info_hash-string ih b h = ground (arith, length-hex_encode ih, hex_decode-encode ih b)
