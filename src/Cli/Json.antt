-- ===== src/Cli/Json.antt =====
-- A reader of JSON strings, for `json_escape` of native/src/main.cpp.
use tron_wallet_searcher.Common.{
  ℕ, zero, suc, ◌+◌, ◌-◌, ◌*◌, ◌/◌, ◌%◌, ◌<◌, ◌≡◌, refl, ap, ◌∙◌, List, [], ◌∷◌, ◌++◌, ◌==◌, ==_iff,
  ◌||◌, ltb, lt→ltb, leb, if◌then◌else◌, Option, none, some, All, arith, Bool-cases, inl, inr,
}
use tron_wallet_searcher.Common.Words.{IsByte}
use tron_wallet_searcher.Hex.{hex_digit}
use tron_wallet_searcher.Cli.{json_character, json_escape}

-- Where a reader of the inside of a JSON string is: between characters, behind a backslash, or at the
-- digits of a `\u` with so many left and the value so far.
pub data Mode : Type 0 where
  between : Mode
  behind : Mode
  digits : ℕ → ℕ → Mode

abbrev pub prepend : ℕ → Option (List ℕ) → Option (List ℕ)
prepend c none = none
prepend c (some s) = some (c ∷ s)

unfoldable pub hex_value : ℕ → ℕ
hex_value c = if leb c b'9' then c - b'0' else c - 87

-- The single-character escapes that the code writes, and the others of JSON.
unfoldable pub escape_value : ℕ → Option ℕ
escape_value c =
    if c == b'n'
    then some b'\n'
    else if c == b'r'
    then some b'\r'
    else if c == b't'
    then some b'\t'
    else if (c == b'"') || (c == b'\\') || (c == b'/')
    then some c
    else if c == b'b'
    then some 8
    else if c == b'f'
    then some 12
    else none

-- The bytes of a JSON string, from its text between the quotes. A bare quote or control character is
-- refused, and so is a `\u` above one byte.
unfoldable pub json_read : Mode → List ℕ → Option (List ℕ)
json_read between [] = some []
json_read behind [] = none
json_read (digits n v) [] = none
json_read between (c ∷ s) =
    let plain = prepend c (json_read between s) in
    let escaped = json_read behind s in
    if c == b'\\' then escaped else if (c == b'"') || ltb c 0x20 then none else plain
json_read behind (c ∷ s) =
    let rest = json_read between s in
    let unicode = json_read (digits 4 0) s in
    if c == b'u' then unicode else elim (escape_value c) [ none ↦ none | some d ↦ prepend d rest ]
json_read (digits zero v) (c ∷ s) = none
json_read (digits (suc n) v) (c ∷ s) =
    let value = v * 16 + hex_value c in
    let done = prepend value (json_read between s) in
    let more = json_read (digits n value) s in
    if n == 0 then if ltb value 256 then done else none else more

-- The text of a JSON string.
pub json_string : List ℕ → Option (List ℕ)
json_string = json_read between

value_of_digit : (d : ℕ) → d < 16 → hex_value (hex_digit d) ≡ d
unfolding hex_value hex_digit
value_of_digit d h = ground arith

zero_digit : hex_value b'0' ≡ 0
unfolding hex_value
zero_digit = refl

whole : (c : ℕ) → (0 + c / 16) * 16 + c % 16 ≡ c
whole c = omega arith

-- A character is read as itself.
read_character :
    (c : ℕ) (s : List ℕ)
    → IsByte c
    → json_read between (json_character c ++ s) ≡ prepend c (json_read between s)
unfolding json_character json_read escape_value
read_character c s h = elim (Bool-cases (c == b'"')) [
  | inl e ↦ rw ((==_iff c b'"').0 e) refl
  | inr n₁ ↦ elim (Bool-cases (c == b'\\')) [
    | inl e ↦ rw ((==_iff c b'\\').0 e) refl
    | inr n₂ ↦ elim (Bool-cases (c == b'\n')) [
      | inl e ↦ rw ((==_iff c b'\n').0 e) refl
      | inr n₃ ↦ elim (Bool-cases (c == b'\r')) [
        | inl e ↦ rw ((==_iff c b'\r').0 e) refl
        | inr n₄ ↦ elim (Bool-cases (c == b'\t')) [
          | inl e ↦ rw ((==_iff c b'\t').0 e) refl
          | inr n₅ ↦ elim (Bool-cases (ltb c 0x20)) [
            | inl control ↦
                rw (n₁, n₂, n₃, n₄, n₅, control)
                  (rw
                    (
                      zero_digit,
                      value_of_digit (c / 16) (omega arith),
                      value_of_digit (c % 16) (omega arith),
                      whole c,
                      lt→ltb c 256 h,
                    )
                    refl)
            | inr plain ↦ rw (n₁, n₂, n₃, n₄, n₅, plain) (rw (n₂, n₁, plain) refl)
          ]
        ]
      ]
    ]
  ]
]

-- The JSON string that is written for a text of bytes is read as the text.
pub json_string-json_escape : (s : List ℕ) → All IsByte s → json_string (json_escape s) ≡ some s
unfolding json_string json_escape
json_string-json_escape [] h = unfold json_read in refl
json_string-json_escape (c ∷ s) h =
    read_character c (json_escape s) h.0 ∙ ap (prepend c) (json_string-json_escape s h.1)
