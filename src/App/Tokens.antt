-- ===== src/App/Tokens.antt =====
-- The words, cues and sets of internal/app/relationship.go. A `map[string]struct{}` is a list
-- without repeats; where the source walks one, the order does not show in the result.
use Prim.Native.Char.{Char, code}
use Prim.Native.String.{[], ◌∷◌}
use tuskbase.Common.{
  String, Bool, false, not, ◌&&◌, ◌||◌, leb, eqb, if◌then◌else◌, List, [], ◌∷◌, mem_text, to_lower,
  trim,
}
use Prim.Native.String.{len}

is_word_start : Char → Bool
is_word_start c = let n = code c in (leb b'a' n && leb n b'z') || (leb b'0' n && leb n b'9')

-- `[a-z0-9_+\-./]`
is_word_part : Char → Bool
unfolding is_word_start
is_word_part c =
    let n = code c in
    is_word_start c || eqb n b'_' || eqb n b'+' || eqb n b'-' || eqb n b'.' || eqb n b'/'

extend_word : Char → List String → List String
extend_word c [] = (c ∷ []) ∷ []
extend_word c (w ∷ ws) = (c ∷ w) ∷ ws

-- The longest words from the left. The flag says whether the text before belongs to a word; the
-- first word of the result continues that word, and is empty where the text does not.
scan_words : Bool → String → List String
scan_words inside [] = if inside then "" ∷ [] else []
scan_words inside (c ∷ s) =
    let word = if inside then is_word_part c else is_word_start c in
    let rest = scan_words word s in
    if word then extend_word c rest else if inside then "" ∷ rest else rest

-- `wordRE.FindAllString(strings.ToLower(text), -1)`
unfoldable pub words : String → List String
unfolding scan_words extend_word is_word_part is_word_start
words text = scan_words false (to_lower text)

unfoldable pub relationship_stop_words : List String
relationship_stop_words =
    "about" ∷ "active" ∷ "after" ∷ "before" ∷ "choose" ∷ "decision" ∷ "decisions" ∷ "during"
    ∷ "elsewhere" ∷ "first" ∷ "from" ∷ "have" ∷ "into" ∷ "keep" ∷ "must" ∷ "need" ∷ "prior"
    ∷ "proposal" ∷ "require" ∷ "should" ∷ "storage" ∷ "store" ∷ "stores" ∷ "that" ∷ "their" ∷ "this"
    ∷ "when" ∷ "with" ∷ "without" ∷ "use" ∷ "using" ∷ "adopt" ∷ "avoid" ∷ "never" ∷ "remove"
    ∷ "replace" ∷ "reject" ∷ "prefer" ∷ "allow" ∷ "enable" ∷ []

-- `set[token] = struct{}{}`
unfoldable pub add_token : String → List String → List String
add_token token set = if mem_text token set then set else token ∷ set

-- `len(token) >= 3 && !relationshipStopWords[token]`
is_telling : String → Bool
unfolding relationship_stop_words
is_telling token = leb 3 (len token) && not (mem_text token relationship_stop_words)

subject_from : List String → List String
subject_from [] = []
subject_from (w ∷ ws) =
    let token = trim w "-_./" in
    let rest = subject_from ws in if is_telling token then add_token token rest else rest

unfoldable pub important_subject_tokens : String → List String
unfolding subject_from is_telling add_token words
important_subject_tokens text = subject_from (words text)

abbrev scope_cues : List String
scope_cues = "for" ∷ "when" ∷ "during" ∷ "inside" ∷ "within" ∷ []

abbrev object_cues : List String
object_cues =
    "use" ∷ "adopt" ∷ "keep" ∷ "require" ∷ "choose" ∷ "prefer" ∷ "avoid" ∷ "remove" ∷ "replace"
    ∷ "reject" ∷ []

-- A token that is captured, if it tells something.
capture_token : Bool → String → List String → List String
capture_token capture token rest =
    if capture && is_telling token then add_token token rest else rest

-- The loop of `objectTokens`: it ends at a scope cue, and an object cue starts the capture.
object_from : Bool → List String → List String
object_from capture [] = []
object_from capture (w ∷ ws) =
    let cue = mem_text w object_cues in
    let rest = object_from (capture || cue) ws in
    if mem_text w scope_cues then [] else if cue then rest else capture_token capture w rest

unfoldable pub object_tokens : String → List String
unfolding object_from capture_token is_telling add_token words
object_tokens text = object_from false (words text)

scope_from : Bool → List String → List String
scope_from capture [] = []
scope_from capture (w ∷ ws) =
    let cue = mem_text w scope_cues in
    let rest = scope_from (capture || cue) ws in if cue then rest else capture_token capture w rest

unfoldable pub scope_tokens : String → List String
unfolding scope_from capture_token is_telling add_token words
scope_tokens text = scope_from false (words text)
