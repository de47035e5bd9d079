-- ===== src/Hex.antt =====
-- What the program uses of encoding/hex: decoding a text, digit by digit.
use Prim.Native.Char.{code}
use banco.Prelude.{ℕ, ◌+◌, ◌-◌, ◌*◌, String, List, [], ◌∷◌, Option, none, some}
use banco.Prelude.{◌/◌, ◌%◌, text_append, get_elem?}
use banco.Prelude.{leb, if◌then◌else◌, ◌&&◌}

-- The code points of a text.
abbrev pub codes : String → List ℕ
codes String.[] = []
codes (String.◌∷◌ c s) = code c ∷ codes s

abbrev digit : ℕ → Option ℕ
digit c =
    if leb b'0' c && leb c b'9'
    then some (c - b'0')
    else if leb b'a' c && leb c b'f'
    then some (c - b'a' + 10)
    else if leb b'A' c && leb c b'F'
    then some (c - b'A' + 10)
    else none

abbrev byte : Option ℕ → Option ℕ → Option (List ℕ) → Option (List ℕ)
byte (some hi) (some lo) (some rest) = some ((hi * 16 + lo) ∷ rest)
byte _ _ _ = none

-- An odd number of digits, and a letter that is no digit, are errors.
unfoldable pub decode_codes : List ℕ → Option (List ℕ)
decode_codes [] = some []
decode_codes (c ∷ []) = none
decode_codes (c ∷ d ∷ cs) = byte (digit c) (digit d) (decode_codes cs)

-- `hex.DecodeString`
unfoldable pub decode_string : String → Option (List ℕ)
unfolding decode_codes
decode_string s = decode_codes (codes s)

-- The bytes that the decoding gives beside an error: those of the pairs before the first bad one.
abbrev pair_or_end : Option ℕ → Option ℕ → List ℕ → List ℕ
pair_or_end (some hi) (some lo) rest = (hi * 16 + lo) ∷ rest
pair_or_end _ _ rest = []

unfoldable pub decoded_codes : List ℕ → List ℕ
decoded_codes [] = []
decoded_codes (c ∷ []) = []
decoded_codes (c ∷ d ∷ cs) = pair_or_end (digit c) (digit d) (decoded_codes cs)

-- `bytes, _ := hex.DecodeString(s)`
unfoldable pub decoded_string : String → List ℕ
unfolding decoded_codes
decoded_string s = decoded_codes (codes s)

abbrev digits : List String
digits =
    "0" ∷ "1" ∷ "2" ∷ "3" ∷ "4" ∷ "5" ∷ "6" ∷ "7" ∷ "8" ∷ "9" ∷ "a" ∷ "b" ∷ "c" ∷ "d" ∷ "e" ∷ "f"
    ∷ []

abbrev digit_text : Option String → String
digit_text none = ""
digit_text (some d) = d

abbrev text_of_digit : ℕ → String
text_of_digit n = digit_text (get_elem? digits n)

-- `hex.EncodeToString`, for bytes
unfoldable pub encode_to_string : List ℕ → String
encode_to_string [] = ""
encode_to_string (b ∷ bs) =
    text_append (text_of_digit (b / 16))
      (text_append (text_of_digit (b % 16)) (encode_to_string bs))
