-- ===== src/Json/Text.antt =====
-- Decimal numerals, quoted strings and sorting by a text key.
use Prim.Native.Char.{Char, code}
use Prim.Native.String.{compare, ◌++◌}
use text.Mathlib.Text.{is_lt}
use visible_agent_loop_proto.Prelude.{
  ℕ, zero, suc, ◌/◌, ◌%◌, String, Bool, List, [], ◌∷◌, eqb, ltb, if◌then◌else◌, ℤ, pos, negsuc,
}

-- One digit, in lower case.
unfoldable pub digit : ℕ → String
digit d =
    if eqb d 0
    then "0"
    else if eqb d 1
    then "1"
    else if eqb d 2
    then "2"
    else if eqb d 3
    then "3"
    else if eqb d 4
    then "4"
    else if eqb d 5
    then "5"
    else if eqb d 6
    then "6"
    else if eqb d 7
    then "7"
    else if eqb d 8
    then "8"
    else if eqb d 9
    then "9"
    else if eqb d 10
    then "a"
    else if eqb d 11
    then "b"
    else if eqb d 12
    then "c"
    else if eqb d 13
    then "d"
    else if eqb d 14
    then "e"
    else "f"

-- `n / 10` falls, so `n` rounds are enough.
unfoldable pub numeral : ℕ → ℕ → String
unfolding digit
numeral zero n = digit n
numeral (suc fuel) n =
    let whole = numeral fuel (n / 10) ++ digit (n % 10) in if ltb n 10 then digit n else whole

-- `str(n)` of an integer.
unfoldable pub decimal : ℤ → String
unfolding numeral
decimal (pos n) = numeral n n
decimal (negsuc n) = "-" ++ numeral (suc n) (suc n)

-- The escapes of a JSON string: the two-character ones, `\u00XX` for the other controls.
unfoldable pub escape : Char → String
unfolding digit
escape ch =
    let c = code ch in
    if eqb c 34
    then "\\\""
    else if eqb c 92
    then "\\\\"
    else if eqb c 10
    then "\\n"
    else if eqb c 13
    then "\\r"
    else if eqb c 9
    then "\\t"
    else if eqb c 12
    then "\\f"
    else if eqb c 8
    then "\\b"
    else if ltb c 32
    then "\\u00" ++ digit (c / 16) ++ digit (c % 16)
    else String.◌∷◌ ch String.[]

unfoldable pub escaped : String → String
unfolding escape
escaped String.[] = String.[]
escaped (String.◌∷◌ c s) = escape c ++ escaped s

unfoldable pub quoted : String → String
unfolding escaped
quoted s = "\"" ++ escaped s ++ "\""

-- The order of `sorted`: by code points.
abbrev pub text_lt : String → String → Bool
text_lt s t = is_lt (compare s t)

-- `sorted(values, key=key)`, a stable insertion sort.
module _ {ℓ} {A : Type ℓ} (key : A → String) where
  unfoldable pub insert_by : A → List A → List A
  insert_by a [] = a ∷ []
  insert_by a (x ∷ xs) =
      let later = x ∷ insert_by a xs in if text_lt (key x) (key a) then later else a ∷ x ∷ xs

  unfoldable pub sorted : List A → List A
  unfolding insert_by
  sorted [] = []
  sorted (x ∷ xs) = insert_by x (sorted xs)

-- `separator.join(parts)`
unfoldable pub join : String → List String → String
join separator [] = ""
join separator (s ∷ []) = s
join separator (s ∷ t ∷ rest) = s ++ separator ++ join separator (t ∷ rest)
