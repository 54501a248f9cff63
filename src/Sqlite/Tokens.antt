-- ===== src/Sqlite/Tokens.antt =====
-- `searchTokens` and `ftsQuery` of internal/adapters/sqlite/store.go.
pub mod Distinct
use Prim.Native.Char.{Char, code}
use Prim.Native.String.{[], ◌∷◌, len}
use tuskbase.Common.{
  ℕ, String, Bool, true, false, ◌&&◌, ◌||◌, leb, ltb, eqb, if◌then◌else◌, List, [], ◌∷◌, ◌++◌,
  length, mem_text, to_lower, quote, join,
}

-- `[A-Za-z0-9_]`
unfoldable pub is_token_part : Char → Bool
is_token_part c =
    let n = code c in
    (leb b'A' n && leb n b'Z')
    || (leb b'a' n && leb n b'z')
    || (leb b'0' n && leb n b'9')
    || eqb n b'_'

unfoldable pub extend_token : Char → List String → List String
extend_token c [] = (c ∷ []) ∷ []
extend_token c (t ∷ ts) = (c ∷ t) ∷ ts

-- The longest tokens from the left. The flag says whether the text before ends in a token, which
-- the first text of the result then continues.
unfoldable pub token_runs : Bool → String → List String
unfolding is_token_part extend_token
token_runs inside [] = if inside then "" ∷ [] else []
token_runs inside (c ∷ s) =
    let part = is_token_part c in
    let rest = token_runs part s in
    if part then extend_token c rest else if inside then "" ∷ rest else rest

-- `ftsTokenRE.FindAllString(strings.ToLower(query), -1)`
unfoldable pub raw_tokens : String → List String
unfolding token_runs to_lower
raw_tokens query = token_runs false (to_lower query)

abbrev pub token_limit : ℕ
token_limit = 12

-- `if len(token) < 2 { continue }` and the test of `seen`.
unfoldable pub is_skipped : List String → String → Bool
unfolding mem_text
is_skipped seen token = ltb (len token) 2 || mem_text token seen

-- The loop over the raw tokens; `out` has the tokens taken so far.
unfoldable pub collect_tokens : List String → List String → List String → List String
unfolding is_skipped
collect_tokens [] seen out = out
collect_tokens (t ∷ ts) seen out = elim (is_skipped seen t) [
  | true ↦ collect_tokens ts seen out
  | false ↦ elim (eqb (length (out ++ t ∷ [])) token_limit) [
    | true ↦ out ++ t ∷ []
    | false ↦ collect_tokens ts (t ∷ seen) (out ++ t ∷ [])
  ]
]

unfoldable pub search_tokens : String → List String
unfolding collect_tokens raw_tokens
search_tokens query = collect_tokens (raw_tokens query) [] []

-- The same loop with the tokens quoted.
unfoldable pub collect_parts : List String → List String → List String → List String
unfolding is_skipped quote
collect_parts [] seen parts = parts
collect_parts (t ∷ ts) seen parts = elim (is_skipped seen t) [
  | true ↦ collect_parts ts seen parts
  | false ↦ elim (eqb (length (parts ++ quote t ∷ [])) token_limit) [
    | true ↦ parts ++ quote t ∷ []
    | false ↦ collect_parts ts (t ∷ seen) (parts ++ quote t ∷ [])
  ]
]

unfoldable pub fts_query : String → String
unfolding collect_parts raw_tokens join
fts_query query = join (collect_parts (raw_tokens query) [] []) " OR "
