-- ===== src/Common/Format.antt =====
-- `fmt.Sprintf` with %d and %q.
use Prim.Native.Char.{Char, code}
use Prim.Native.String.{String, [], ◌∷◌}
use Prim.Native.Nat.{◌%◌}
use Prim.Native.Nat.{ℕ, zero, suc, ◌/◌}
use mathlib.Core.Bool.{◌||◌}
use tuskbase.Common.Tests.{ltb, eqb, if◌then◌else◌}
use tuskbase.Common.Text.{◌⧺◌}
use tuskbase.Common.Results.{Error, message, invalid, forbidden, external}

char_from : String → ℕ → Char
char_from [] n = "?"
char_from (c ∷ s) zero = c
char_from (c ∷ s) (suc n) = char_from s n

digit : ℕ → Char
digit = char_from "0123456789abcdef"

decimal_from : ℕ → ℕ → String → String
decimal_from zero n out = out
decimal_from (suc f) n out =
    let more = decimal_from f (n / 10) (digit (n % 10) ∷ out) in
    if ltb n 10 then digit n ∷ out else more

-- %d of a number that is not negative; `n + 1` rounds are enough for its digits.
unfoldable pub decimal : ℕ → String
unfolding decimal_from digit char_from
decimal n = decimal_from (suc n) n ""

-- One character inside %q. Characters outside ASCII are taken to be printable.
quote_char : Char → String
quote_char c =
    let n = code c in
    if eqb n 34
    then "\\\""
    else if eqb n 92
    then "\\\\"
    else if eqb n 10
    then "\\n"
    else if eqb n 13
    then "\\r"
    else if eqb n 9
    then "\\t"
    else if eqb n 7
    then "\\a"
    else if eqb n 8
    then "\\b"
    else if eqb n 11
    then "\\v"
    else if eqb n 12
    then "\\f"
    else if ltb n 32 || eqb n 127
    then "\\x" ⧺ digit (n / 16) ∷ digit (n % 16) ∷ []
    else c ∷ []

quote_body : String → String
quote_body [] = "\""
quote_body (c ∷ s) = quote_char c ⧺ quote_body s

-- %q
unfoldable pub quote : String → String
unfolding quote_body quote_char digit char_from
quote s = "\"" ⧺ quote_body s

-- `err.Error()`; `errors.Join` puts its errors on lines of their own.
unfoldable pub error_text : Error → String
error_text (message m) = m
error_text (invalid what value) = "invalid " ⧺ what ⧺ " " ⧺ quote value
error_text (forbidden m) = "forbidden\n" ⧺ m
error_text (external m) = m
