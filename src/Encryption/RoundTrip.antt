-- ===== src/Encryption/RoundTrip.antt =====
-- What `DecryptValue` makes of a value in its format: the hex digits of the body, the nonce and the tag.
use prefab_cloud_go.Prelude.{
  ℕ, ◌+◌, ◌*◌, ◌/◌, ◌%◌, ◌≤◌, ◌<◌, ltb, ◌==◌, if◌then◌else◌, length, All, GoString, upper_byte, ret,
  ◌≡◌, refl, sym, ap, ◌∙◌, ◌⊎◌, false, some, List, [], ◌∷◌, ◌++◌, arith,
}
use prefab_cloud_go.Prelude.Cuts.{Without}
use prefab_cloud_go.Errors.{ok}
use prefab_cloud_go.Encryption.{
  Cipher, hex_digit, hex_pair, hex_decode, to_upper, prepend, cut_dashes, second_cut, split_parts,
  is_key_size, opened, unlock, decoded, with_parts, with_key, decrypt_value,
}

-- A digit as `hex.EncodeToString` writes it.
pub hex_char : ℕ → ℕ
hex_char n = if ltb n 10 then 48 + n else 87 + n

pub hex_encode : List ℕ → GoString
hex_encode [] = []
hex_encode (b ∷ bs) = hex_char (b / 16) ∷ hex_char (b % 16) ∷ hex_encode bs

abbrev pub AreBytes : List ℕ → Type 0
AreBytes = All (λ b. b < 256)

hex_digit-upper : (n : ℕ) → n < 16 → hex_digit (upper_byte (hex_char n)) ≡ some n
unfolding hex_digit hex_char
hex_digit-upper n h = ground arith

upper-not_dash : (n : ℕ) → n < 16 → (upper_byte (hex_char n) == b'-') ≡ false
unfolding hex_char
upper-not_dash n h = ground arith

nibbles : (b : ℕ) → b < 256 → (b / 16 < 16) × (b % 16 < 16) × (b / 16 * 16 + b % 16 ≡ b)
nibbles b h = (omega arith, omega arith, omega arith)

hex_decode-encode : (bs : List ℕ) → AreBytes bs → hex_decode (to_upper (hex_encode bs)) ≡ some bs
unfolding hex_decode to_upper hex_encode hex_pair
hex_decode-encode [] h = refl
hex_decode-encode (b ∷ bs) h =
    let (high, low, same) = nibbles b h.0 in
    rw (hex_digit-upper (b / 16) high, hex_digit-upper (b % 16) low, hex_decode-encode bs h.1)
      (ap (λ x. some (x ∷ bs)) same)

hex_encode-Without : (bs : List ℕ) → AreBytes bs → Without b'-' (to_upper (hex_encode bs))
unfolding to_upper hex_encode
hex_encode-Without [] h = tt
hex_encode-Without (b ∷ bs) h =
    let (high, low, same) = nibbles b h.0 in
    (upper-not_dash (b / 16) high, (upper-not_dash (b % 16) low, hex_encode-Without bs h.1))

to_upper-append : (a b : GoString) → to_upper (a ++ b) ≡ to_upper a ++ to_upper b
unfolding to_upper
to_upper-append [] b = refl
to_upper-append (c ∷ a) b = ap (λ x. upper_byte c ∷ x) (to_upper-append a b)

hex_encode-append : (a b : List ℕ) → hex_encode (a ++ b) ≡ hex_encode a ++ hex_encode b
unfolding hex_encode
hex_encode-append [] b = refl
hex_encode-append (c ∷ a) b =
    ap (λ x. hex_char (c / 16) ∷ hex_char (c % 16) ∷ x) (hex_encode-append a b)

abbrev pub dashes : GoString
dashes = b'-' ∷ b'-' ∷ []

cut_dashes-append :
    (a b : GoString) → Without b'-' a → cut_dashes (a ++ (dashes ++ b)) ≡ some (a, b)
unfolding cut_dashes prepend
cut_dashes-append [] b h = refl
cut_dashes-append (c ∷ []) b h = rw (h.0) refl
cut_dashes-append (c ∷ d ∷ a) b h = rw (h.0, cut_dashes-append (d ∷ a) b h.1) refl

-- The value in its format.
abbrev pub sealed_text : List ℕ → List ℕ → List ℕ → GoString
sealed_text body iv tag =
    hex_encode body ++ (dashes ++ (hex_encode iv ++ (dashes ++ hex_encode tag)))

upper-sealed_text :
    (body iv tag : List ℕ)
    → to_upper (sealed_text body iv tag)
      ≡ to_upper (hex_encode body)
        ++ (dashes ++ (to_upper (hex_encode iv) ++ (dashes ++ to_upper (hex_encode tag))))
unfolding to_upper
upper-sealed_text body iv tag =
    to_upper-append (hex_encode body) _
    ∙ ap (λ x. to_upper (hex_encode body) ++ (dashes ++ x)) (to_upper-append (hex_encode iv) _)

second_cut-some :
    (a rest : GoString) {b c : GoString}
    → cut_dashes rest ≡ some (b, c)
    → second_cut (some (a, rest)) ≡ some (a, b, c)
unfolding second_cut
second_cut-some a rest e = rw (second_cut, e) refl

split_parts-sealed_text :
    (body iv tag : List ℕ)
    → AreBytes body
    → AreBytes iv
    → split_parts (to_upper (sealed_text body iv tag))
      ≡ some (to_upper (hex_encode body), to_upper (hex_encode iv), to_upper (hex_encode tag))
unfolding split_parts
split_parts-sealed_text body iv tag d i =
    rw
      (
        upper-sealed_text body iv tag,
        cut_dashes-append (to_upper (hex_encode body)) _ (hex_encode-Without body d),
      )
      (second_cut-some (to_upper (hex_encode body))
        (to_upper (hex_encode iv) ++ (dashes ++ to_upper (hex_encode tag)))
        (cut_dashes-append (to_upper (hex_encode iv)) (to_upper (hex_encode tag))
          (hex_encode-Without iv i)))

append-AreBytes : (a b : List ℕ) → AreBytes a → AreBytes b → AreBytes (a ++ b)
append-AreBytes [] b h k = k
append-AreBytes (x ∷ a) b h k = (h.0, append-AreBytes a b h.1 k)

decode_both :
    (body tag : List ℕ)
    → AreBytes body
    → AreBytes tag
    → hex_decode (to_upper (hex_encode body) ++ to_upper (hex_encode tag)) ≡ some (body ++ tag)
decode_both body tag d t =
    ap hex_decode (
      sym (to_upper-append (hex_encode body) (hex_encode tag))
      ∙ sym (ap to_upper (hex_encode-append body tag)))
    ∙ hex_decode-encode (body ++ tag) (append-AreBytes body tag d t)

-- With a key of a size that AES has, a nonce that is not empty and a tag of 16 bytes or more behind the
-- body, each written in hexadecimal digits and the three joined by `--`, `DecryptValue` hands the cipher
-- exactly this key, this nonce and the body with its tag, and returns the text that the cipher opens.
pub decrypt_value-sealed_text :
    (cipher : Cipher) (key body iv tag text : List ℕ)
    → (length key ≡ 16) ⊎ (length key ≡ 24) ⊎ (length key ≡ 32)
    → 0 < length iv
    → 16 ≤ length (body ++ tag)
    → AreBytes key
    → AreBytes body
    → AreBytes iv
    → AreBytes tag
    → cipher.open_gcm key iv (body ++ tag) ≡ some text
    → decrypt_value cipher (hex_encode key) (sealed_text body iv tag) ≡ ret (ok text)
unfolding decrypt_value with_key with_parts decoded unlock is_key_size opened
decrypt_value-sealed_text cipher key body iv tag text size nonce long k d i t opens =
    rw
      (
        hex_decode-encode key k,
        split_parts-sealed_text body iv tag d i,
        hex_decode-encode iv i,
        decode_both body tag d t,
        opens,
      )
      (ground arith)
