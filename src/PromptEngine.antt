-- ===== src/PromptEngine.antt =====
-- kernel/src/ai_os_kernel/prompt_engine: renderer.py, composition.py and cache_boundary.py. A text is the list of its
-- code points.
pub mod Render
pub mod CacheBoundary
mod Examples
use Prim.Native.String.{String}
use Prim.Native.Char.{code}
use ai_os.Prelude.{
  ℕ, zero, suc, ◌+◌, ◌-◌, Bool, true, false, not, ◌&&◌, ◌||◌, Option, none, some, List, [], ◌∷◌,
  ◌++◌, map, str_eq, if◌then◌else◌, ltb, leb, ◌==◌, is_none, is_some, any, length, lookup, traverse,
  ◌>>=◌,
}

abbrev pub Text : Type 0
Text = List ℕ

abbrev pub codes : String → Text
codes String.[] = []
codes (String.◌∷◌ c s) = code c ∷ codes s

-- `\s` of `re`, on code points.
unfoldable pub is_space : ℕ → Bool
is_space c =
    (leb 9 c && leb c 13)
    || (leb 28 c && leb c 32)
    || c == 133
    || c == 160
    || c == 5760
    || (leb 8192 c && leb c 8202)
    || c == 8232
    || c == 8233
    || c == 8239
    || c == 8287
    || c == 12288

abbrev pub is_letter : ℕ → Bool
is_letter c = (leb b'a' c && leb c b'z') || (leb b'A' c && leb c b'Z') || c == b'_'

abbrev pub is_name_code : ℕ → Bool
is_name_code c = is_letter c || (leb b'0' c && leb c b'9')

-- The rest after one code point, or after a prefix.
abbrev pub strip : ℕ → Text → Option Text
strip c [] = none
strip c (x ∷ xs) = if x == c then some xs else none

unfoldable pub strip_prefix : Text → Text → Option Text
strip_prefix [] text = some text
strip_prefix (c ∷ cs) [] = none
strip_prefix (c ∷ cs) (x ∷ xs) = if x == c then strip_prefix cs xs else none

unfoldable pub skip_spaces : Text → Text
skip_spaces [] = []
skip_spaces (c ∷ cs) = if is_space c then skip_spaces cs else c ∷ cs

-- `[a-zA-Z0-9_]*`, and the rest.
unfoldable pub take_name : Text → Text × Text
take_name [] = ([], [])
take_name (c ∷ cs) =
    let (name, rest) = take_name cs in if is_name_code c then (c ∷ name, rest) else ([], c ∷ cs)

abbrev pub is_name : Text → Bool
is_name [] = false
is_name (c ∷ cs) = is_letter c

-- `\s*\}\}` after a name.
unfoldable pub close : Text × Text → Option (Text × Text)
close (name, rest) =
    if is_name name
    then (do first ← strip b'}' (skip_spaces rest); after ← strip b'}' first; some (name, after))
    else none

-- A match of `_PLACEHOLDER_PATTERN` at the start of a text: the name, and the rest. The classes of the pattern are disjoint,
-- so that it never backtracks.
unfoldable pub match_placeholder : Text → Option (Text × Text)
match_placeholder text = do
  first ← strip b'{' text
  inner ← strip b'{' first
  close (take_name (skip_spaces inner))

pub data Segment : Type 0 where
  literal : ℕ → Segment
  placeholder : (name : Text) → Segment

-- The segment at the start of a text, by the match there; `again` scans the text after its first code point.
abbrev pub scan_matched :
    (again : ℕ → List Segment) → ℕ → Text → Option (Text × Text) → List Segment
scan_matched again c cs none = literal c ∷ again 0
scan_matched again c cs (some found) = placeholder found.0 ∷ again (length cs - length found.1)

-- The scan that `findall` and `sub` make; `skip` code points belong to the last match.
unfoldable pub scan : (skip : ℕ) → Text → List Segment
scan skip [] = []
scan (suc skip) (c ∷ cs) = scan skip cs
scan zero (c ∷ cs) = scan_matched (λ skip. scan skip cs) c cs (match_placeholder (c ∷ cs))

-- `str(variables[name])`, where the variables have the name.
abbrev pub Variables : Type 0
Variables = Text → Option Text

unfoldable pub value_of : Variables → Segment → Option Text
value_of variables (literal c) = some (c ∷ [])
value_of variables (placeholder name) = variables name

unfoldable pub join : List Text → Text
join [] = []
join (text ∷ texts) = text ++ join texts

abbrev pub joined : Option (List Text) → Option Text
joined none = none
joined (some texts) = some (join texts)

-- The substitution, `none` where a variable is missing.
unfoldable pub substitute : Variables → List Segment → Option Text
substitute variables segments = joined (traverse (value_of variables) segments)

-- `render_template`.
unfoldable pub render_template : Text → Variables → Option Text
render_template template variables = substitute variables (scan 0 template)

-- `separator.join(fragments)`.
unfoldable pub join_with : Text → List Text → Text
join_with separator [] = []
join_with separator (fragment ∷ []) = fragment
join_with separator (fragment ∷ next ∷ fragments) =
    fragment ++ (separator ++ join_with separator (next ∷ fragments))

unfoldable pub compose_fragments : List Text → (separator : Text) → Option Text
compose_fragments [] separator = none
compose_fragments (fragment ∷ fragments) separator =
    some (join_with separator (fragment ∷ fragments))

-- `set(overrides) - set(parent)` is not empty.
abbrev pub has_unknown : (overrides parent : List (String × Text)) → Bool
has_unknown overrides parent =
    any (λ (entry : String × Text). is_none (lookup entry.0 parent)) overrides

abbrev pub inherited : Option Text → Text → Text
inherited none content = content
inherited (some override) content = override

unfoldable pub compose_with_inheritance :
    (parent overrides : List (String × Text)) → (separator : Text) → Option Text
compose_with_inheritance parent overrides separator =
    if has_unknown overrides parent
    then none
    else compose_fragments
        (map (λ (entry : String × Text). inherited (lookup entry.0 overrides) entry.1) parent)
        separator

unfoldable pub render_composed : List Text → Variables → (separator : Text) → Option Text
render_composed fragments variables separator = do
  template ← compose_fragments fragments separator
  render_template template variables

abbrev pub cache_boundary_marker : Text
cache_boundary_marker = codes "{{cache_boundary}}"

abbrev pub count_matched : (again : ℕ → ℕ) → Text → Option Text → ℕ
count_matched again cs none = again 0
count_matched again cs (some rest) = again (length cs - length rest) + 1

-- `template.count(marker)`; `skip` code points belong to the last occurrence.
unfoldable pub count_marker : (skip : ℕ) → Text → ℕ
count_marker skip [] = 0
count_marker (suc skip) (c ∷ cs) = count_marker skip cs
count_marker zero (c ∷ cs) =
    count_matched (λ skip. count_marker skip cs) cs (strip_prefix cache_boundary_marker (c ∷ cs))

abbrev pub after_first : ℕ → Option (Text × Text) → Option (Text × Text)
after_first c none = none
after_first c (some found) = some (c ∷ found.0, found.1)

abbrev pub split_matched : (later : Option (Text × Text)) → ℕ → Option Text → Option (Text × Text)
split_matched later c none = after_first c later
split_matched later c (some rest) = some ([], rest)

-- `template.index(marker)`, as the text before it and the text after it.
unfoldable pub split_first : Text → Option (Text × Text)
split_first [] = none
split_first (c ∷ cs) =
    split_matched (split_first cs) c (strip_prefix cache_boundary_marker (c ∷ cs))

unfoldable pub split_at_cache_boundary : Text → Option (Text × Text)
split_at_cache_boundary template =
    if count_marker 0 template == 1 then split_first template else none

unfoldable pub render_with_cache_boundary : Text → Variables → Option (Text × ℕ)
render_with_cache_boundary template variables = do
  parts ← split_at_cache_boundary template
  stable ← render_template parts.0 variables
  volatile ← render_template parts.1 variables
  some (stable ++ volatile, length stable)
