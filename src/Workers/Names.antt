-- ===== src/Workers/Names.antt =====
-- The regular expressions of worker_runtime_registry.py (`_IDENTIFIER`, `_CONTAINER_ID`, `_DIGEST`),
-- and `str.strip`, on code points.
use pent_ai.Prelude.{
  ℕ, zero, suc, Bool, false, ◌&&◌, ◌||◌, [], ◌∷◌, String, Text, codes, leb, ◌==◌, nat_eq, contains,
  length, all, starts_with, if◌then◌else◌,
}

abbrev between : ℕ → ℕ → ℕ → Bool
between a b c = leb a c && leb c b

-- `[a-f0-9]`
unfoldable pub is_hex_digit : ℕ → Bool
is_hex_digit c = between 48 57 c || between 97 102 c

-- `[A-Za-z0-9]`
unfoldable pub is_alphanumeric : ℕ → Bool
is_alphanumeric c = between 65 90 c || (between 97 122 c || between 48 57 c)

-- `[A-Za-z0-9_.:-]`
unfoldable pub is_name_character : ℕ → Bool
unfolding is_alphanumeric
is_name_character c = is_alphanumeric c || contains (95 ∷ 46 ∷ 58 ∷ 45 ∷ []) c

unfoldable pub matches_identifier : Text → Bool
unfolding is_alphanumeric is_name_character
matches_identifier [] = false
matches_identifier (c ∷ rest) =
    is_alphanumeric c && (all is_name_character rest && leb (length rest) 127)

-- `_IDENTIFIER.fullmatch`
unfoldable pub is_identifier : String → Bool
unfolding matches_identifier
is_identifier s = matches_identifier (codes s)

-- `_CONTAINER_ID.fullmatch`
unfoldable pub is_container_id : String → Bool
unfolding is_hex_digit
is_container_id s =
    let text = codes s in all is_hex_digit text && (leb 12 (length text) && leb (length text) 64)

abbrev drop : ℕ → Text → Text
drop zero s = s
drop (suc n) [] = []
drop (suc n) (c ∷ s) = drop n s

-- `_DIGEST.fullmatch`
unfoldable pub is_digest : String → Bool
unfolding is_hex_digit
is_digest s =
    let text = codes s in
    starts_with text (codes "sha256:")
    && (all is_hex_digit (drop 7 text) && length (drop 7 text) == 64)

-- The characters that `str.isspace` accepts.
unfoldable pub is_space : ℕ → Bool
is_space c =
    between 9 13 c
    || (between 28 32 c
        || (between 8192 8202 c
            || contains (133 ∷ 160 ∷ 5760 ∷ 8232 ∷ 8233 ∷ 8239 ∷ 8287 ∷ 12288 ∷ []) c))

unfoldable pub strip_left : Text → Text
strip_left [] = []
strip_left (c ∷ s) = if is_space c then strip_left s else c ∷ s

keep_space : ℕ → Text → Text
keep_space c [] = if is_space c then [] else c ∷ []
keep_space c (d ∷ s) = c ∷ d ∷ s

unfoldable pub strip_right : Text → Text
unfolding keep_space
strip_right [] = []
strip_right (c ∷ s) = keep_space c (strip_right s)

-- `s.strip()`
unfoldable pub strip_spaces : Text → Text
unfolding strip_left strip_right
strip_spaces s = strip_left (strip_right s)
