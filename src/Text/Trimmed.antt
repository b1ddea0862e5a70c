-- ===== src/Text/Trimmed.antt =====
-- Hexadecimal texts have nothing to trim.
use open_chat_be.Prelude.{String, arith, false, nat_eq, refl, string_eq, true, ℕ, ◌≡◌}
use Prim.Native.Char.{Char, code}
use open_chat_be.Text.{
  with_hex_prefix, trim, is_hex_text, cons_trimmed, trim_end, is_space, is_hex_digit, all_hex,
}

space_of_hex : (c : ℕ) → is_hex_digit c ≡ true → is_space c ≡ false
unfolding is_space is_hex_digit
space_of_hex c h = ground arith

cons_trimmed_of_visible :
    (c : Char) (s : String) → is_space (code c) ≡ false → cons_trimmed c s ≡ String.◌∷◌ c s
cons_trimmed_of_visible c String.[] h = rw h
cons_trimmed_of_visible c (String.◌∷◌ d s) h = refl

trim_end_of_hex : (s : String) → all_hex s ≡ true → trim_end s ≡ s
unfolding trim_end all_hex
trim_end_of_hex String.[] h = refl
trim_end_of_hex (String.◌∷◌ c s) h =
    let parts : (is_hex_digit (code c) ≡ true) × (all_hex s ≡ true) = ground arith in
    rw (trim_end_of_hex s parts.1) (cons_trimmed_of_visible c s (space_of_hex (code c) parts.0))

-- A hexadecimal text with its prefix has nothing to trim and keeps its prefix.
pub trim_of_hex_text : (low high : ℕ) (s : String) → is_hex_text low high s ≡ true → trim s ≡ s
unfolding is_hex_text trim
trim_of_hex_text low high String.[] h = refl
trim_of_hex_text low high (String.◌∷◌ c String.[]) h = cc
trim_of_hex_text low high (String.◌∷◌ c (String.◌∷◌ d s)) h =
    let zero_seen : code c ≡ b'0' = ground arith in
    let x_seen : code d ≡ b'x' = ground arith in
    let digits : all_hex s ≡ true = ground arith in
    let visible : is_space (code c) ≡ false = rw zero_seen refl in
    let visible_x : is_space (code d) ≡ false = rw x_seen refl in
    rw (visible, trim_end_of_hex s digits, cons_trimmed_of_visible d s visible_x)
      (cons_trimmed_of_visible c (String.◌∷◌ d s) visible)

pub with_hex_prefix_of_hex_text :
    (low high : ℕ) (s : String) → is_hex_text low high s ≡ true → with_hex_prefix s ≡ s
unfolding is_hex_text with_hex_prefix
with_hex_prefix_of_hex_text low high s h = ground arith
