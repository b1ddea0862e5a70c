-- ===== src/Text.antt =====
-- What the code uses of JavaScript's strings and of regular expressions over hexadecimal texts.
pub mod Trimmed
use open_chat_be.Prelude.{
  Bool, String, [], false, if◌then◌else◌, leb, nat_beq, nat_eq, string_eq, suc, true, ℕ, ◌&&◌, ◌||◌,
  ◌∷◌, ◌≡◌,
}
use Prim.Native.Char.{Char, code}
use Prim.Native.String

-- The white space and line ends that `trim` removes.
pub is_space : ℕ → Bool
is_space c =
    (leb 9 c && leb c 13)
    || nat_beq c 32
    || nat_beq c 160
    || nat_beq c 0x1680
    || (leb 0x2000 c && leb c 0x200a)
    || nat_beq c 0x2028
    || nat_beq c 0x2029
    || nat_beq c 0x202f
    || nat_beq c 0x205f
    || nat_beq c 0x3000
    || nat_beq c 0xfeff

pub trim_start : String → String
trim_start String.[] = String.[]
trim_start (String.◌∷◌ c s) =
    let rest = trim_start s in if is_space (code c) then rest else String.◌∷◌ c s

-- one more character in front of a text whose end is trimmed
abbrev cons_trimmed : Char → String → String
cons_trimmed c String.[] = if is_space (code c) then String.[] else String.◌∷◌ c String.[]
cons_trimmed c (String.◌∷◌ d s) = String.◌∷◌ c (String.◌∷◌ d s)

pub trim_end : String → String
trim_end String.[] = String.[]
trim_end (String.◌∷◌ c s) = cons_trimmed c (trim_end s)

-- `s.trim()`
unfoldable pub trim : String → String
unfolding trim_start trim_end is_space
trim s = trim_end (trim_start s)

abbrev pub is_empty : String → Bool
is_empty String.[] = true
is_empty (String.◌∷◌ c s) = false

unfoldable pub is_hex_digit : ℕ → Bool
is_hex_digit c =
    (leb b'a' c && leb c b'f') || (leb b'A' c && leb c b'F') || (leb b'0' c && leb c b'9')

pub all_hex : String → Bool
all_hex String.[] = true
all_hex (String.◌∷◌ c s) = is_hex_digit (code c) && all_hex s

unfoldable pub count_chars : String → ℕ
count_chars String.[] = 0
count_chars (String.◌∷◌ c s) = suc (count_chars s)

-- `s.startsWith('0x')`
abbrev pub has_hex_prefix : String → Bool
has_hex_prefix String.[] = false
has_hex_prefix (String.◌∷◌ c String.[]) = false
has_hex_prefix (String.◌∷◌ c (String.◌∷◌ d s)) = nat_beq (code c) b'0' && nat_beq (code d) b'x'

-- `s.slice(2)` under that test
abbrev pub drop_two : String → String
drop_two String.[] = String.[]
drop_two (String.◌∷◌ c String.[]) = String.[]
drop_two (String.◌∷◌ c (String.◌∷◌ d s)) = s

-- `0x${s}`
abbrev pub add_hex_prefix : String → String
add_hex_prefix s = String.◌∷◌ "0" (String.◌∷◌ "x" s)

-- `/^0x[a-fA-F0-9]{low,high}$/.test(s)`
unfoldable pub is_hex_text : ℕ → ℕ → String → Bool
unfolding all_hex is_hex_digit count_chars
is_hex_text low high s =
    has_hex_prefix s
    && all_hex (drop_two s)
    && leb low (count_chars (drop_two s))
    && leb (count_chars (drop_two s)) high

-- `s.startsWith('0x') ? s : `0x${s}``
unfoldable pub with_hex_prefix : String → String
with_hex_prefix s = if has_hex_prefix s then s else add_hex_prefix s

-- `left.localeCompare(right) <= 0`, the order of texts that the runtime's locale gives
pub record TextOrder : Type 0 where
  pub before : String → String → Bool
  pub total : (a b : String) → before a b ≡ false → before b a ≡ true
  pub trans : (a b c : String) → before a b ≡ true → before b c ≡ true → before a c ≡ true
