-- ===== src/Cli/Json.antt =====
-- src/main.rs: the JSON that the commands print. A reader of JSON strings, by RFC 8259, is what the
-- escapes are for.
pub mod Grammar
pub mod Rules
pub mod Status
pub mod Totals
mod Parse
pub mod Unique
use pfsnitch.Base.{
  on_test, ℕ, suc, zero, ◌+◌, ◌-◌, ◌*◌, ◌/◌, ◌%◌, ◌<◌, Bool, true, false, ◌&&◌, ◌||◌, List, [], ◌∷◌,
  ◌++◌, Option, none, some, ◌≡◌, refl, ◌∙◌, ap, arith, if◌then◌else◌, ◌==◌, nat_eq, ltb, leb,
}
use pfsnitch.Policy.Manage.{Rule}
use pfsnitch.Text.{Str, codes}

abbrev pub hex_digit : ℕ → ℕ
hex_digit d = if ltb d 10 then b'0' + d else 87 + d

-- `\u{:04x}` of a number below 256.
abbrev pub unicode_escape : ℕ → Str
unicode_escape c = b'\\' ∷ b'u' ∷ b'0' ∷ b'0' ∷ hex_digit (c / 16) ∷ hex_digit (c % 16) ∷ []

unfoldable pub escape_char : ℕ → Str
escape_char c =
    if c == b'"'
    then b'\\' ∷ b'"' ∷ []
    else if c == b'\\'
    then b'\\' ∷ b'\\' ∷ []
    else if c == b'\n'
    then b'\\' ∷ b'n' ∷ []
    else if c == b'\r'
    then b'\\' ∷ b'r' ∷ []
    else if c == b'\t'
    then b'\\' ∷ b't' ∷ []
    else if ltb c 0x20
    then unicode_escape c
    else c ∷ []

unfoldable pub json_escape : Str → Str
json_escape [] = []
json_escape (c ∷ s) = escape_char c ++ json_escape s

unfoldable pub quoted : Str → Str
quoted s = b'"' ∷ (json_escape s ++ (b'"' ∷ []))

-- A word that is printed in quotes as it is.
abbrev pub in_quotes : Str → Str
in_quotes w = b'"' ∷ (w ++ (b'"' ∷ []))

unfoldable pub comment_json : Option Str → Str
comment_json none = codes "null"
comment_json (some c) = quoted c

-- The rows of a list, each on a line, with a comma behind all but the last.
unfoldable pub rows {ℓ} : {A : Type ℓ} → (A → Str) → List A → Str
rows f [] = []
rows f (x ∷ []) = f x ++ codes "\n"
rows f (x ∷ y ∷ xs) = f x ++ (codes ",\n" ++ rows f (y ∷ xs))

-- One rule of `pfsnitch rules --json`, and the list of them.
unfoldable pub rule_json : Rule → Str
rule_json r =
    codes "  {\"kind\":"
    ++ (quoted r.kind
        ++ (codes ",\"value\":"
            ++ (quoted r.value
                ++ (codes ",\"comment\":" ++ (comment_json r.comment ++ codes "}")))))

unfoldable pub rules_json : List Rule → Str
rules_json rs = codes "[\n" ++ (rows rule_json rs ++ codes "]\n")

-- The states of a reader inside a string: plain text, behind a backslash, and behind "\u" with the
-- hexadecimal digits that are left and what was read of them.
pub data Reader : Type 0 where
  plain escaped : Reader
  hex : ℕ → ℕ → Reader

unfoldable pub hex_value : ℕ → Option ℕ
hex_value c =
    if leb b'0' c && leb c b'9'
    then some (c - b'0')
    else if leb b'a' c && leb c b'f'
    then some (c - 87)
    else if leb b'A' c && leb c b'F'
    then some (c - 55)
    else none

unfoldable pub short_escape : ℕ → Option ℕ
short_escape c =
    if c == b'"' || c == b'\\' || c == b'/'
    then some c
    else if c == b'b'
    then some 8
    else if c == b'f'
    then some 12
    else if c == b'n'
    then some 10
    else if c == b'r'
    then some 13
    else if c == b't'
    then some 9
    else none

-- The character that is complete, if one is, and the state behind it; none where it is no string.
unfoldable pub read_hex : ℕ → ℕ → Option (Option ℕ × Reader)
read_hex zero n = some (some n, plain)
read_hex (suc k) n = some (none, hex (suc k) n)

unfoldable pub read_char : Reader → ℕ → Option (Option ℕ × Reader)
read_char plain c =
    if c == b'"' || ltb c 0x20
    then none
    else if c == b'\\'
    then some (none, escaped)
    else some (some c, plain)
read_char escaped c =
    if c == b'u'
    then some (none, hex 4 0)
    else elim (short_escape c) [ some x ↦ some (some x, plain) | none ↦ none ]
read_char (hex zero n) c = none
read_char (hex (suc k) n) c = elim (hex_value c) [ some v ↦ read_hex k (n * 16 + v) | none ↦ none ]

unfoldable pub onto : Option ℕ → Option Str → Option Str
onto c none = none
onto none (some s) = some s
onto (some c) (some s) = some (c ∷ s)

unfoldable pub read_string : Reader → Str → Option Str
read_string plain [] = some []
read_string _ [] = none
read_string st (c ∷ s) = elim (read_char st c) [
  | none ↦ none
  | some (x, st') ↦ onto x (read_string st' s)
]

onto-none : (o : Option Str) → onto none o ≡ o
unfolding onto
onto-none none = refl
onto-none (some s) = refl

read_string-plain :
    (c : ℕ) (s : Str)
    → (c == b'"' || ltb c 0x20) ≡ false
    → (c == b'\\') ≡ false
    → read_string plain (c ∷ s) ≡ onto (some c) (read_string plain s)
unfolding read_string read_char
read_string-plain c s h k = rw (h, read_string, read_char) (rw (k, read_char) refl)

read_string-escaped :
    (k c : ℕ) (s : Str)
    → (k == b'u') ≡ false
    → short_escape k ≡ some c
    → read_string plain (b'\\' ∷ k ∷ s) ≡ onto (some c) (read_string plain s)
unfolding read_string read_char
read_string-escaped k c s h e = rw (h, e) (onto-none _)

hex_value-hex_digit : (d : ℕ) → d < 16 → hex_value (hex_digit d) ≡ some d
unfolding hex_value
hex_value-hex_digit d h = ground (arith, h)

read_string-unicode_escape :
    (c : ℕ) (s : Str)
    → c < 256
    → read_string plain (unicode_escape c ++ s) ≡ onto (some c) (read_string plain s)
unfolding read_string read_char read_hex hex_value
read_string-unicode_escape c s h =
    rw (hex_value-hex_digit (c / 16) (omega (arith, h)), hex_value-hex_digit (c % 16) (omega arith))
      (onto-none _
        ∙ onto-none _
        ∙ onto-none _
        ∙ onto-none _
        ∙ onto-none _
        ∙ ap (λ n. onto (some n) (read_string plain s)) (omega arith))

-- Each character of a text is read back from its escape.
read_string-escape_char :
    (c : ℕ) (s : Str) → read_string plain (escape_char c ++ s) ≡ onto (some c) (read_string plain s)
unfolding escape_char short_escape
read_string-escape_char c s =
    let P : Str → Type 0 = λ t. read_string plain (t ++ s) ≡ onto (some c) (read_string plain s) in
    on_test P (c == b'"') _ _ (λ e. read_string-escaped b'"' c s refl (ground (arith, e)))
      (λ h1.
        on_test P (c == b'\\') _ _ (λ e. read_string-escaped b'\\' c s refl (ground (arith, e)))
          (λ h2.
            on_test P (c == b'\n') _ _ (λ e. read_string-escaped b'n' c s refl (ground (arith, e)))
              (λ h3.
                on_test P (c == b'\r') _ _
                  (λ e. read_string-escaped b'r' c s refl (ground (arith, e)))
                  (λ h4.
                    on_test P (c == b'\t') _ _
                      (λ e. read_string-escaped b't' c s refl (ground (arith, e)))
                      (λ h5.
                        on_test P (ltb c 0x20) _ _
                          (λ e. read_string-unicode_escape c s (ground (arith, e)))
                          (λ e. read_string-plain c s (ground (arith, h1, e)) h2))))))

-- What is printed as a JSON string is read back as the text: whatever characters a path, a name or a
-- comment holds, a reader of JSON strings gets exactly them.
pub read_string-json_escape : (s : Str) → read_string plain (json_escape s) ≡ some s
unfolding json_escape onto read_string
read_string-json_escape [] = refl
read_string-json_escape (c ∷ s) =
    read_string-escape_char c (json_escape s)
    ∙ ap (λ o. onto (some c) o) (read_string-json_escape s)
