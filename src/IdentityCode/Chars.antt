-- ===== src/IdentityCode/Chars.antt =====
-- identitycode/identitycode.go: characters, and the trimming of `strings.TrimSpace`. A text is the
-- list of its code points; `len` and the indexing by bytes are only used where all are ASCII.
use go_authbyte.Base.{
  ℕ, ◌-◌, Bool, false, not, ◌&&◌, ◌||◌, [], ◌∷◌, map, leb, nat_eq, if◌then◌else◌, all, Bytes,
  ℕ_comparable, Bytes_comparable,
}

abbrev between : ℕ → ℕ → ℕ → Bool
between lo hi c = leb lo c && leb c hi

unfoldable pub is_upper : ℕ → Bool
is_upper c = between b'A' b'Z' c

unfoldable pub is_lower : ℕ → Bool
is_lower c = between b'a' b'z' c

unfoldable pub is_digit : ℕ → Bool
is_digit c = between b'0' b'9' c

unfoldable pub is_letter : ℕ → Bool
unfolding is_upper is_lower
is_letter c = is_upper c || is_lower c

-- `unicode.IsSpace`: the property White_Space.
unfoldable pub is_space : ℕ → Bool
is_space c =
    between 9 13 c
    || (nat_eq c 32
        || (nat_eq c 0x85
            || (nat_eq c 0xa0
                || (nat_eq c 0x1680
                    || (between 0x2000 0x200a c
                        || (nat_eq c 0x2028
                            || (nat_eq c 0x2029
                                || (nat_eq c 0x202f || (nat_eq c 0x205f || nat_eq c 0x3000)))))))))

unfoldable pub is_separator : ℕ → Bool
unfolding is_space
is_separator c = is_space c || (nat_eq c b'-' || (nat_eq c b'.' || nat_eq c b'/'))

-- One character of `asciiUpper`.
unfoldable pub upper : ℕ → ℕ
unfolding is_lower
upper c = if is_lower c then c - 32 else c

unfoldable pub ascii_upper : Bytes → Bytes
unfolding upper
ascii_upper s = map upper s

unfoldable pub is_ascii_letters : Bytes → Bool
unfolding is_letter
is_ascii_letters [] = false
is_ascii_letters (c ∷ s) = all is_letter (c ∷ s)

unfoldable pub is_ascii_digits : Bytes → Bool
unfolding is_digit
is_ascii_digits [] = false
is_ascii_digits (c ∷ s) = all is_digit (c ∷ s)

unfoldable pub trim_left : Bytes → Bytes
unfolding is_space
trim_left [] = []
trim_left (c ∷ s) = let rest = trim_left s in if is_space c then rest else c ∷ s

-- A character in front of what is trimmed at its end.
unfoldable pub trailing : ℕ → Bytes → Bytes
unfolding is_space
trailing c [] = if is_space c then [] else c ∷ []
trailing c (d ∷ s) = c ∷ d ∷ s

unfoldable pub trim_right : Bytes → Bytes
unfolding trailing
trim_right [] = []
trim_right (c ∷ s) = trailing c (trim_right s)

unfoldable pub trim_space : Bytes → Bytes
unfolding trim_left trim_right
trim_space s = trim_right (trim_left s)

-- Not a line break: what `.` matches.
unfoldable pub is_dot : ℕ → Bool
is_dot c = not (nat_eq c 10)

-- A character of a stored identifier: `[A-Z0-9]`.
abbrev pub is_stored : ℕ → Bool
is_stored c = is_upper c || is_digit c
