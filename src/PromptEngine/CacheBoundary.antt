-- ===== src/PromptEngine/CacheBoundary.antt =====
-- Where cache_boundary.py splits a template, and what it renders.
use ai_os.Prelude.{
  ℕ, ◌≡◌, ◌∙◌, ◌<◌, Option, none, some, [], ◌∷◌, ◌++◌, if◌then◌else◌, ◌==◌, length, take, drop,
  take-append, drop-append, arith, ap, refl, sym, subst, ◌>>=◌,
}
use ai_os.PromptEngine.{
  Text, strip_prefix, cache_boundary_marker, count_marker, count_matched, split_first,
  split_matched, after_first, split_at_cache_boundary, Variables, render_template,
  render_with_cache_boundary,
}

strip_prefix-append :
    (prefix text rest : Text) → strip_prefix prefix text ≡ some rest → text ≡ prefix ++ rest
unfolding strip_prefix
strip_prefix-append [] text rest e = ground (arith, e)
strip_prefix-append (c ∷ prefix) [] rest e = ground (arith, e)
strip_prefix-append (c ∷ prefix) (x ∷ text) rest e =
    ground (arith, strip_prefix-append prefix text rest, e)

-- The parts on both sides of an occurrence.
abbrev Splits : Text → Option (Text × Text) → Type 0
Splits text found =
    (parts : Text × Text) × (found ≡ some parts)
    × (text ≡ parts.0 ++ (cache_boundary_marker ++ parts.1))

matched-Splits :
    (c : ℕ) (cs : Text) (later : Option (Text × Text)) (here : Option Text)
    → strip_prefix cache_boundary_marker (c ∷ cs) ≡ here
    → (here ≡ none → Splits cs later)
    → Splits (c ∷ cs) (split_matched later c here)
matched-Splits c cs later (some rest) e below =
    (([], rest), refl, strip_prefix-append cache_boundary_marker (c ∷ cs) rest e)
matched-Splits c cs later none e below =
    let (parts, found, text_is) = below refl in
    ((c ∷ parts.0, parts.1), ap (after_first c) found, ap (λ t. c ∷ t) text_is)

none_counts :
    (c : ℕ) (cs : Text)
    → strip_prefix cache_boundary_marker (c ∷ cs) ≡ none
    → count_marker 0 (c ∷ cs) ≡ count_marker 0 cs
unfolding count_marker
none_counts c cs e = ap (count_matched (λ skip. count_marker skip cs) cs) e

counted-Splits : (text : Text) → 0 < count_marker 0 text → Splits text (split_first text)
unfolding split_first
counted-Splits [] h = absurd (unfold count_marker in omega (arith, h))
counted-Splits (c ∷ cs) h =
    matched-Splits c cs (split_first cs) (strip_prefix cache_boundary_marker (c ∷ cs)) refl
      (λ e. counted-Splits cs (subst (λ n. 0 < n) (none_counts c cs e) h))

-- The result of a rendering whose two sides render to these texts, if they do.
abbrev pub IsRendered : Option Text → Option Text → Option (Text × ℕ) → Type 0
IsRendered none volatile result = result ≡ none
IsRendered (some stable) none result = result ≡ none
IsRendered (some stable) (some volatile) result =
    (content : Text) × (index : ℕ) × (result ≡ some (content, index))
    × (take index content ≡ stable)
    × (drop index content ≡ volatile)

both-IsRendered :
    (stable volatile : Option Text)
    → IsRendered stable volatile (do s ← stable; v ← volatile; some (s ++ v, length s))
both-IsRendered none volatile = refl
both-IsRendered (some s) none = refl
both-IsRendered (some s) (some v) = (s ++ v, length s, refl, take-append s v, drop-append s v)

-- A template in which the marker occurs once is split into what stands before it and what stands after it, and with any
-- variables its rendering is cut by the index into the renderings of the two, and fails exactly if one of these does.
pub boundary_separates :
    (template : Text)
    → count_marker 0 template ≡ 1
    → (stable volatile : Text) × (template ≡ stable ++ (cache_boundary_marker ++ volatile))
      × ((variables : Variables)
          → IsRendered
              (render_template stable variables)
              (render_template volatile variables)
              (render_with_cache_boundary template variables))
unfolding render_with_cache_boundary split_at_cache_boundary
boundary_separates template once =
    let (parts, found, text_is) =
      counted-Splits template (subst (λ n. 0 < n) (sym once) (omega arith)) in
    let split : (if count_marker 0 template == 1 then split_first template else none) ≡ some parts =
      ap (λ n. if n == 1 then split_first template else none) once ∙ found in
    (
      parts.0,
      parts.1,
      text_is,
      λ variables.
          subst
            (λ (o : Option (Text × Text)).
              IsRendered (render_template parts.0 variables) (render_template parts.1 variables) (do
                ps ← o
                s ← render_template ps.0 variables
                v ← render_template ps.1 variables
                some (s ++ v, length s)))
            (sym split)
            (both-IsRendered (render_template parts.0 variables)
              (render_template parts.1 variables)),
    )
