-- ===== src/PromptEngine/Render.antt =====
-- That rendering replaces the placeholders of a template and keeps the rest (renderer.py).
use mathlib.Core.List.{append_assoc}
use ai_os.Prelude.{
  ℕ, ◌-◌, ◌≡◌, Bool, true, false, ◌&&◌, some, List, [], ◌∷◌, ◌++◌, ◌==◌, length, length-append,
  arith, ap, refl, subst, ◌∙◌, sym, none, Option, traverse, ◌>>=◌,
}
use ai_os.PromptEngine.{
  Text, is_space, is_letter, is_name_code, is_name, scan_matched, skip_spaces, take_name, close,
  match_placeholder, value_of, join, joined, Segment, literal, placeholder, scan, Variables,
  substitute, render_template,
}

-- How a template writes a segment.
abbrev pub print : Segment → Text
print (literal c) = c ∷ []
print (placeholder name) = b'{' ∷ b'{' ∷ (name ++ (b'}' ∷ b'}' ∷ []))

abbrev pub print_all : List Segment → Text
print_all [] = []
print_all (segment ∷ segments) = print segment ++ print_all segments

abbrev pub all_name_codes : Text → Bool
all_name_codes [] = true
all_name_codes (c ∷ cs) = is_name_code c && all_name_codes cs

abbrev pub starts_with_brace : Text → Bool
starts_with_brace [] = false
starts_with_brace (c ∷ cs) = c == b'{'

abbrev pub HasName : Text → Type 0
HasName name = (is_name name ≡ true) × (all_name_codes name ≡ true)

-- Code points of which none is the first of two braces, and placeholders with names that the pattern takes.
abbrev pub AreCanonical : List Segment → Type 0
AreCanonical [] = Unit
AreCanonical (literal c ∷ segments) =
    ((c == b'{' && starts_with_brace (print_all segments)) ≡ false) × AreCanonical segments
AreCanonical (placeholder name ∷ segments) = HasName name × AreCanonical segments

letter_is_no_space : (c : ℕ) → is_letter c ≡ true → is_space c ≡ false
unfolding is_space
letter_is_no_space c h = ground arith

skip_spaces-name :
    (name rest : Text) → is_name name ≡ true → skip_spaces (name ++ rest) ≡ name ++ rest
unfolding skip_spaces
skip_spaces-name [] rest h = ground (arith, h)
skip_spaces-name (c ∷ cs) rest h = rw (letter_is_no_space c h) refl

take_name-append :
    (name rest : Text)
    → all_name_codes name ≡ true
    → take_name (name ++ (b'}' ∷ rest)) ≡ (name, b'}' ∷ rest)
unfolding take_name
take_name-append [] rest h = refl
take_name-append (c ∷ cs) rest h =
    let both : (is_name_code c ≡ true) × (all_name_codes cs ≡ true) = ground (arith, h) in
    rw (take_name-append cs rest both.1) (rw both.0 refl)

close-braces :
    (name rest : Text) → is_name name ≡ true → close (name, b'}' ∷ b'}' ∷ rest) ≡ some (name, rest)
unfolding close skip_spaces is_space
close-braces name rest h = rw h refl

match_placeholder-print :
    (name rest : Text)
    → HasName name
    → match_placeholder (b'{' ∷ b'{' ∷ (name ++ (b'}' ∷ b'}' ∷ rest))) ≡ some (name, rest)
unfolding match_placeholder
match_placeholder-print name rest (named, codes) =
    ap (λ t. close (take_name t)) (skip_spaces-name name (b'}' ∷ b'}' ∷ rest) named)
    ∙ ap close (take_name-append name (b'}' ∷ rest) codes)
    ∙ close-braces name rest named

scan-skip : (skipped rest : Text) → scan (length skipped) (skipped ++ rest) ≡ scan 0 rest
unfolding scan
scan-skip [] rest = refl
scan-skip (c ∷ skipped) rest = scan-skip skipped rest

scan-consumed :
    (matched rest : Text)
    → scan (length (matched ++ rest) - length rest) (matched ++ rest) ≡ scan 0 rest
scan-consumed matched rest =
    ap (λ n. scan n (matched ++ rest)) (omega (arith, length-append matched rest))
    ∙ scan-skip matched rest

-- What the scan makes of a placeholder.
scan-placeholder :
    (name rest : Text)
    → HasName name
    → scan 0 (b'{' ∷ b'{' ∷ (name ++ (b'}' ∷ b'}' ∷ rest))) ≡ placeholder name ∷ scan 0 rest
unfolding scan
scan-placeholder name rest h =
    let tail = b'{' ∷ (name ++ (b'}' ∷ b'}' ∷ rest)) in
    ap (scan_matched (λ skip. scan skip tail) b'{' tail) (match_placeholder-print name rest h)
    ∙ ap (λ segments. placeholder name ∷ segments)
        (subst (λ t. scan (length t - length rest) t ≡ scan 0 rest)
          (ap (λ t. b'{' ∷ t) (append_assoc name (b'}' ∷ b'}' ∷ []) rest))
          (scan-consumed (b'{' ∷ (name ++ (b'}' ∷ b'}' ∷ []))) rest))

no_match :
    (c : ℕ) (rest : Text)
    → (c == b'{' && starts_with_brace rest) ≡ false
    → match_placeholder (c ∷ rest) ≡ none
unfolding match_placeholder
no_match c [] h = ground (arith, h)
no_match c (next ∷ rest) h = ground (arith, h)

scan-literal :
    (c : ℕ) (rest : Text)
    → (c == b'{' && starts_with_brace rest) ≡ false
    → scan 0 (c ∷ rest) ≡ literal c ∷ scan 0 rest
unfolding scan
scan-literal c rest h = ap (scan_matched (λ skip. scan skip rest) c rest) (no_match c rest h)

-- The scan reads back what was written.
scan-print_all :
    (segments : List Segment) → AreCanonical segments → scan 0 (print_all segments) ≡ segments
unfolding scan
scan-print_all [] h = refl
scan-print_all (literal c ∷ segments) (h, rest) =
    scan-literal c (print_all segments) h ∙ ap (λ t. literal c ∷ t) (scan-print_all segments rest)
scan-print_all (placeholder name ∷ segments) (h, rest) =
    ap (λ t. scan 0 (b'{' ∷ b'{' ∷ t)) (append_assoc name (b'}' ∷ b'}' ∷ []) (print_all segments))
    ∙ scan-placeholder name (print_all segments) h
    ∙ ap (λ t. placeholder name ∷ t) (scan-print_all segments rest)

-- A text that has the code points as they are, and in the place of each placeholder the value of its variable.
pub data Fills (variables : Variables) : List Segment → Text → Type 0 where
  fills_nothing : Fills variables [] []
  keeps :
      (c : ℕ) (segments : List Segment) (text : Text)
      → Fills variables segments text
      → Fills variables (literal c ∷ segments) (c ∷ text)
  puts :
      (name value : Text) (segments : List Segment) (text : Text)
      → variables name ≡ some value
      → Fills variables segments text
      → Fills variables (placeholder name ∷ segments) (value ++ text)

-- That some placeholder has no variable.
pub data Lacks (variables : Variables) : List Segment → Type 0 where
  here :
      (name : Text) (segments : List Segment)
      → variables name ≡ none
      → Lacks variables (placeholder name ∷ segments)
  there :
      (segment : Segment) (segments : List Segment)
      → Lacks variables segments
      → Lacks variables (segment ∷ segments)

module _ (variables : Variables) where
  -- What a rendering is: the text that fills the placeholders, or nothing, as one of them lacks its variable.
  abbrev pub IsFilled : List Segment → Option Text → Type 0
  IsFilled segments none = Lacks variables segments
  IsFilled segments (some text) = Fills variables segments text

  literal-IsFilled :
      (c : ℕ) (segments : List Segment) (rest : Option (List Text))
      → IsFilled segments (joined rest)
      → IsFilled (literal c ∷ segments) (joined (rest >>= (λ texts. some ((c ∷ []) ∷ texts))))
  unfolding join
  literal-IsFilled c segments none h = there (literal c) segments h
  literal-IsFilled c segments (some texts) h = keeps c segments (join texts) h

  placeholder-IsFilled :
      (name : Text) (segments : List Segment) (found : Option Text) (rest : Option (List Text))
      → variables name ≡ found
      → IsFilled segments (joined rest)
      → IsFilled
          (placeholder name ∷ segments)
          (joined (found >>= (λ text. rest >>= (λ texts. some (text ∷ texts)))))
  unfolding join
  placeholder-IsFilled name segments none rest e h = here name segments e
  placeholder-IsFilled name segments (some value) none e h = there (placeholder name) segments h
  placeholder-IsFilled name segments (some value) (some texts) e h =
      puts name value segments (join texts) e h

  substitute-IsFilled :
      (segments : List Segment) → IsFilled segments (substitute variables segments)
  unfolding substitute traverse value_of join
  substitute-IsFilled [] = fills_nothing
  substitute-IsFilled (literal c ∷ segments) =
      literal-IsFilled c segments (traverse (value_of variables) segments)
        (substitute-IsFilled segments)
  substitute-IsFilled (placeholder name ∷ segments) =
      placeholder-IsFilled name segments (variables name) (traverse (value_of variables) segments)
        refl (substitute-IsFilled segments)

-- A template written from placeholders with a name, and from code points of which none is the first of two braces, renders as
-- these code points with the value of its variable in the place of each placeholder; or it fails, if one of them has
-- no variable.
pub render_template-print_all :
    (segments : List Segment) (variables : Variables)
    → AreCanonical segments
    → IsFilled variables segments (render_template (print_all segments) variables)
unfolding render_template
render_template-print_all segments variables h =
    subst (λ read. IsFilled variables segments (substitute variables read))
      (sym (scan-print_all segments h)) (substitute-IsFilled variables segments)
