-- ===== src/Encryption.antt =====
-- pkg/internal/encryption.go. The cipher is a parameter: `open_gcm` takes the key, the nonce and the
-- data with its tag, and gives nothing where authentication fails.
pub mod RoundTrip
use prefab_cloud_go.Prelude.{
  ℕ, ◌+◌, ◌-◌, ◌*◌, ltb, leb, ◌==◌, if◌then◌else◌, length, GoString, upper_byte, Outcome, ret,
  panics, Bool, not, ◌&&◌, ◌||◌, Option, none, some, List, [], ◌∷◌, ◌++◌,
}
use prefab_cloud_go.Errors.{Error, Result, ok, err}

pub record Cipher : Type 0 where
  pub open_gcm : List ℕ → List ℕ → List ℕ → Option (List ℕ)

unfoldable pub hex_digit : ℕ → Option ℕ
hex_digit c =
    if leb b'0' c && leb c b'9'
    then some (c - b'0')
    else if leb b'A' c && leb c b'F'
    then some (c - 55)
    else if leb b'a' c && leb c b'f'
    then some (c - 87)
    else none

hex_pair : Option ℕ → Option ℕ → Option (List ℕ) → Option (List ℕ)
hex_pair (some a) (some b) (some rest) = some ((a * 16 + b) ∷ rest)
hex_pair _ _ _ = none

-- `hex.DecodeString`: `none` at another byte or an odd length.
unfoldable pub hex_decode : GoString → Option (List ℕ)
unfolding hex_digit hex_pair
hex_decode [] = some []
hex_decode (a ∷ []) = none
hex_decode (a ∷ b ∷ s) = hex_pair (hex_digit a) (hex_digit b) (hex_decode s)

unfoldable pub to_upper : GoString → GoString
to_upper [] = []
to_upper (c ∷ s) = upper_byte c ∷ to_upper s

prepend : ℕ → Option (GoString × GoString) → Option (GoString × GoString)
prepend c (some (a, b)) = some (c ∷ a, b)
prepend c none = none

-- The text before the first `--` and behind it.
unfoldable pub cut_dashes : GoString → Option (GoString × GoString)
unfolding prepend
cut_dashes [] = none
cut_dashes (c ∷ []) = none
cut_dashes (c ∷ d ∷ s) =
    let rest = cut_dashes (d ∷ s) in
    if (c == b'-') && (d == b'-') then some ([], s) else prepend c rest

-- Two cuts: data, nonce, tag.
second_cut : Option (GoString × GoString) → Option (GoString × GoString × GoString)
second_cut none = none
second_cut (some (data_str, rest)) = elim (cut_dashes rest) [
  | none ↦ none
  | some (iv, tag) ↦ some (data_str, iv, tag)
]

-- `strings.SplitN(value, "--", 3)`, where it has three parts.
unfoldable pub split_parts : GoString → Option (GoString × GoString × GoString)
unfolding cut_dashes second_cut
split_parts value = second_cut (cut_dashes value)

-- The AES key sizes.
is_key_size : ℕ → Bool
is_key_size n = (n == 16) || (n == 24) || (n == 32)

-- `gcm.Overhead()`.
abbrev overhead : ℕ
overhead = 16

opened : Option (List ℕ) → Result GoString
opened (some text) = ok text
opened none = err Error.cipher_error

-- Behind the decoding: the block cipher, GCM with a nonce that is not empty, and the cut in front of
-- the tag, which is out of range where the data is shorter than a tag.
unlock : Cipher → List ℕ → List ℕ → List ℕ → Outcome (Result GoString)
unfolding is_key_size opened
unlock cipher key iv sealed =
    if not (is_key_size (length key)) || (length iv == 0)
    then ret (err Error.cipher_error)
    else if ltb (length sealed) overhead
    then panics
    else ret (opened (cipher.open_gcm key iv sealed))

decoded : Cipher → List ℕ → Option (List ℕ) → Option (List ℕ) → Outcome (Result GoString)
decoded cipher key none sealed = ret (err Error.invalid_hex)
decoded cipher key (some iv) none = ret (err Error.invalid_hex)
decoded cipher key (some iv) (some sealed) = unlock cipher key iv sealed

with_parts : Cipher → List ℕ → Option (GoString × GoString × GoString) → Outcome (Result GoString)
with_parts cipher key none = ret (err Error.invalid_value_format)
with_parts cipher key (some (data_str, iv, tag)) =
    decoded cipher key (hex_decode iv) (hex_decode (data_str ++ tag))

with_key : Cipher → Option (List ℕ) → GoString → Outcome (Result GoString)
with_key cipher none value = ret (err Error.invalid_hex)
with_key cipher (some key) value = with_parts cipher key (split_parts (to_upper value))

unfoldable pub decrypt_value : Cipher → GoString → GoString → Outcome (Result GoString)
unfolding with_key with_parts decoded unlock to_upper
decrypt_value cipher secret_key value = with_key cipher (hex_decode (to_upper secret_key)) value
