-- ===== src/Telegram/Code.antt =====
-- Verification codes: the hexadecimal text of the random bytes (services/telegram_service.go).
use Prim.Native.Char.{Char, code}
use deping_client_service.Base.{
  List, String, [], ap, arith, if◌then◌else◌, leb, length, refl, suc, sym, zero, ℕ, ◌%◌, ◌*◌, ◌+◌,
  ◌-◌, ◌/◌, ◌<◌, ◌∙◌, ◌∷◌, ◌≡◌,
}
use deping_client_service.Telegram.Service.{encode_to_string, hex_char, hex_digits}

abbrev pub AreBytes : List ℕ → Type 0
AreBytes [] = Unit {0}
AreBytes (b ∷ bs) = (b < 256) × AreBytes bs

abbrev pub characters : String → ℕ
characters String.[] = 0
characters (String.◌∷◌ c s) = suc (characters s)

-- A code has two characters for each random byte: eight for four bytes.
pub characters-encode_to_string : (bs : List ℕ) → characters (encode_to_string bs) ≡ 2 * length bs
unfolding encode_to_string
characters-encode_to_string [] = refl
characters-encode_to_string (b ∷ bs) = omega (arith, characters-encode_to_string bs)

hex_value : Char → ℕ
hex_value c = if leb (code c) b'9' then code c - b'0' else code c + 10 - b'a'

hex_value-hex_char : (n : ℕ) → n < 16 → hex_value (hex_char hex_digits n) ≡ n
unfolding hex_value hex_char
hex_value-hex_char zero h = refl
hex_value-hex_char (suc zero) h = refl
hex_value-hex_char (suc (suc zero)) h = refl
hex_value-hex_char (suc (suc (suc zero))) h = refl
hex_value-hex_char (suc (suc (suc (suc zero)))) h = refl
hex_value-hex_char (suc (suc (suc (suc (suc zero))))) h = refl
hex_value-hex_char (suc (suc (suc (suc (suc (suc zero)))))) h = refl
hex_value-hex_char (suc (suc (suc (suc (suc (suc (suc zero))))))) h = refl
hex_value-hex_char (suc (suc (suc (suc (suc (suc (suc (suc zero)))))))) h = refl
hex_value-hex_char (suc (suc (suc (suc (suc (suc (suc (suc (suc zero))))))))) h = refl
hex_value-hex_char (suc (suc (suc (suc (suc (suc (suc (suc (suc (suc zero)))))))))) h = refl
hex_value-hex_char (suc (suc (suc (suc (suc (suc (suc (suc (suc (suc (suc zero))))))))))) h = refl
hex_value-hex_char (suc (suc (suc (suc (suc (suc (suc (suc (suc (suc (suc (suc zero)))))))))))) h =
    refl
hex_value-hex_char
      (suc (suc (suc (suc (suc (suc (suc (suc (suc (suc (suc (suc (suc zero))))))))))))) h =
    refl
hex_value-hex_char
      (suc (suc (suc (suc (suc (suc (suc (suc (suc (suc (suc (suc (suc (suc zero)))))))))))))) h =
    refl
hex_value-hex_char
      (suc (suc (suc (suc (suc (suc (suc (suc (suc (suc (suc (suc (suc (suc (suc zero)))))))))))))))
      h =
    refl
hex_value-hex_char
      (suc
        (suc (suc (suc (suc (suc (suc (suc (suc (suc (suc (suc (suc (suc (suc (suc n))))))))))))))))
      h =
    absurd (omega arith)

-- The bytes that a text of hexadecimal digits stands for.
decode_string : String → List ℕ
decode_string String.[] = []
decode_string (String.◌∷◌ c String.[]) = []
decode_string (String.◌∷◌ c (String.◌∷◌ d s)) = (hex_value c * 16 + hex_value d) ∷ decode_string s

decode-encode : (bs : List ℕ) → AreBytes bs → decode_string (encode_to_string bs) ≡ bs
unfolding decode_string encode_to_string
decode-encode [] h = refl
decode-encode (b ∷ bs) h =
    ground (arith, hex_value-hex_char (b / 16), hex_value-hex_char (b % 16), decode-encode bs h.1)

-- Codes are equal only for the same random bytes.
pub encode_to_string-injective :
    (bs cs : List ℕ)
    → AreBytes bs
    → AreBytes cs
    → encode_to_string bs ≡ encode_to_string cs
    → bs ≡ cs
encode_to_string-injective bs cs h k e =
    sym (decode-encode bs h) ∙ ap decode_string e ∙ decode-encode cs k
