-- ===== src/Texts.antt =====
-- The regular expressions of the program that recognise commit SHAs, digests, numbers and repository
-- names, over the code points of a text.
use Prim.Native.Char.{code}
use Prim.Native.String.{String}
use self_hosted_ci.Prelude.{
  ℕ, Bool, true, false, not, ◌&&◌, ◌||◌, List, [], ◌∷◌, length, ltb, leb, ◌==◌, nat_eq,
  if◌then◌else◌, exists,
}

abbrev pub codes : String → List ℕ
codes String.[] = []
codes (String.◌∷◌ c s) = code c ∷ codes s

abbrev pub is_digit : ℕ → Bool
is_digit c = leb b'0' c && leb c b'9'

abbrev pub is_hex_digit : ℕ → Bool
is_hex_digit c = is_digit c || leb b'a' c && leb c b'f'

abbrev pub is_letter : ℕ → Bool
is_letter c = leb b'A' c && leb c b'Z' || leb b'a' c && leb c b'z'

-- `[A-Za-z0-9_.-]`
abbrev pub is_name_code : ℕ → Bool
is_name_code c = is_letter c || is_digit c || c == b'_' || c == b'.' || c == b'-'

abbrev pub all : (ℕ → Bool) → List ℕ → Bool
all p [] = true
all p (c ∷ cs) = p c && all p cs

-- `[0-9a-f]{40}`
unfoldable pub is_sha : String → Bool
is_sha s = length (codes s) == 40 && all is_hex_digit (codes s)

-- `[0-9a-f]{64}`
unfoldable pub is_digest : String → Bool
is_digest s = length (codes s) == 64 && all is_hex_digit (codes s)

-- `[1-9][0-9]*`
unfoldable pub is_positive_decimal : String → Bool
is_positive_decimal s = elim (codes s) [
  | [] ↦ false
  | c ∷ cs ↦ is_digit c && not (c == b'0') && all is_digit cs
]

abbrev is_separator : ℕ → Bool
is_separator c = c == b'/'

-- the part of a text after its first `/`, and whether there is one with something before it
abbrev after_slash : List ℕ → List ℕ
after_slash [] = []
after_slash (c ∷ cs) = if is_separator c then cs else after_slash cs

abbrev before_slash : List ℕ → List ℕ
before_slash [] = []
before_slash (c ∷ cs) = if is_separator c then [] else c ∷ before_slash cs

-- `[A-Za-z0-9_.-]+/[A-Za-z0-9_.-]+`: no name holds a `/`, so the first one is the separator
unfoldable pub is_repository : String → Bool
is_repository s =
    exists is_separator (codes s)
    && ltb 0 (length (before_slash (codes s)))
    && all is_name_code (before_slash (codes s))
    && ltb 0 (length (after_slash (codes s)))
    && all is_name_code (after_slash (codes s))

-- `[A-Za-z0-9](?:[A-Za-z0-9-]{0,38})/[A-Za-z0-9._-]{1,100}`
abbrev is_owner_code : ℕ → Bool
is_owner_code c = is_letter c || is_digit c || c == b'-'

abbrev starts_with_hyphen : List ℕ → Bool
starts_with_hyphen [] = false
starts_with_hyphen (c ∷ cs) = c == b'-'

unfoldable pub is_owner_repository : String → Bool
is_owner_repository s =
    exists is_separator (codes s)
    && ltb 0 (length (before_slash (codes s)))
    && leb (length (before_slash (codes s))) 39
    && all is_owner_code (before_slash (codes s))
    && not (starts_with_hyphen (before_slash (codes s)))
    && ltb 0 (length (after_slash (codes s)))
    && leb (length (after_slash (codes s))) 100
    && all is_name_code (after_slash (codes s))

-- `x in s` for one character, and whether something is left of `s.strip()`
unfoldable pub mentions_code : ℕ → String → Bool
mentions_code c s = exists (λ d. d == c) (codes s)

-- Python's whitespace, of the first 256 code points
abbrev pub is_space : ℕ → Bool
is_space c = leb 9 c && leb c 13 || leb 28 c && leb c 32 || c == 133 || c == 160

unfoldable pub has_content : String → Bool
has_content s = exists (λ c. not (is_space c)) (codes s)
