-- ===== src/Sqlite/Tokens/Distinct.antt =====
-- The tokens of internal/adapters/sqlite/store.go.
use Prim.Native.String.{len}
use tuskbase.Common.{
  suc, String, false, Bool-cases, eqb, List, [], ◌∷◌, ◌++◌, map, length, length-append, mem_text,
  Unrepeated, mem-append, append-Unrepeated, All, quote, join, ◌≤◌, ◌<◌, ◌≡◌, refl, sym, ap, ◌∙◌,
  inl, inr, arith,
}
use tuskbase.Sqlite.Tokens.{
  token_limit, is_skipped, collect_tokens, search_tokens, collect_parts, fts_query, raw_tokens,
}

-- At least two characters.
abbrev pub Long : String → Type 0
Long t = 2 ≤ len t

append-quote :
    (ts : List String) (t : String) → map quote (ts ++ t ∷ []) ≡ map quote ts ++ quote t ∷ []
append-quote [] t = refl
append-quote (x ∷ xs) t = ap (λ l. quote x ∷ l) (append-quote xs t)

length-map : (ts : List String) → length (map quote ts) ≡ length ts
length-map [] = refl
length-map (x ∷ xs) = ap suc (length-map xs)

collect-quote :
    (raw seen out : List String)
    → collect_parts raw seen (map quote out) ≡ map quote (collect_tokens raw seen out)
unfolding collect_parts collect_tokens
collect-quote [] seen out = refl
collect-quote (t ∷ ts) seen out = elim (Bool-cases (is_skipped seen t)) [
  | inl skip ↦ rw (skip, collect_parts, collect_tokens) (collect-quote ts seen out)
  | inr keep ↦
      let same : length (map quote out ++ quote t ∷ []) ≡ length (out ++ t ∷ []) =
        ap length (sym (append-quote out t)) ∙ length-map (out ++ t ∷ []) in
      elim (Bool-cases (eqb (length (out ++ t ∷ [])) token_limit)) [
        | inl full ↦ rw (keep, same, full, collect_parts, collect_tokens) (sym (append-quote out t))
        | inr more ↦
            rw (keep, same, more, collect_parts, collect_tokens)
              (ap (collect_parts ts (t ∷ seen)) (sym (append-quote out t))
                ∙ collect-quote ts (t ∷ seen) (out ++ t ∷ []))
      ]
]

append-Long : (xs : List String) (t : String) → All Long xs → Long t → All Long (xs ++ t ∷ [])
append-Long [] t h l = (l, tt)
append-Long (x ∷ xs) t (h, hs) l = (h, append-Long xs t hs l)

-- What the loop keeps: fewer tokens than the limit, none twice, all of them seen.
record Collected (seen out : List String) : Type 0 where
  room : length out < token_limit
  fresh : Unrepeated out
  long : All Long out
  noted : (t : String) → mem_text t seen ≡ false → mem_text t out ≡ false

abbrev pub Tokens : List String → Type 0
Tokens ts = (length ts ≤ token_limit) × Unrepeated ts × All Long ts

collect-Tokens :
    (raw seen out : List String) → Collected seen out → Tokens (collect_tokens raw seen out)
unfolding collect_tokens is_skipped
collect-Tokens [] seen out c = (omega (arith, c.room), c.fresh, c.long)
collect-Tokens (t ∷ ts) seen out c = elim (Bool-cases (is_skipped seen t)) [
  | inl skip ↦ rw (skip, collect_tokens) (collect-Tokens ts seen out c)
  | inr keep ↦
      let unseen : mem_text t seen ≡ false = ground arith in
      let long : Long t = ground arith in
      let fresh : Unrepeated (out ++ t ∷ []) = append-Unrepeated out t c.fresh (c.noted t unseen) in
      let all : All Long (out ++ t ∷ []) = append-Long out t c.long long in
      elim (Bool-cases (eqb (length (out ++ t ∷ [])) token_limit)) [
        | inl full ↦
            rw (keep, full, collect_tokens)
              (omega (arith, c.room, length-append out (t ∷ [])), fresh, all)
        | inr more ↦
            rw (keep, more, collect_tokens)
              (collect-Tokens ts (t ∷ seen) (out ++ t ∷ []) (record {
                room = ground (arith, c.room, length-append out (t ∷ []));
                fresh = fresh;
                long = all;
                noted = λ u h. ground (arith, mem-append u out (t ∷ []), c.noted u);
              }))
      ]
]

-- A query has at most twelve search tokens, none of them twice and each of two characters or more.
pub search_tokens-Tokens : (query : String) → Tokens (search_tokens query)
unfolding search_tokens
search_tokens-Tokens query =
    collect-Tokens (raw_tokens query) [] []
      (record { room = omega arith; fresh = tt; long = tt; noted = λ t h. refl })

-- The full-text query is made of the search tokens: each is quoted, and ` OR ` stands between two.
pub fts_query_lem :
    (query : String) → fts_query query ≡ join (map quote (search_tokens query)) " OR "
unfolding fts_query search_tokens
fts_query_lem query = ap (λ parts. join parts " OR ") (collect-quote (raw_tokens query) [] [])
