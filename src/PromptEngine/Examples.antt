-- ===== src/PromptEngine/Examples.antt =====
-- A prompt with a cache boundary.
use ai_os.Prelude.{◌≡◌, refl, none, some, List, [], ◌∷◌, ◌++◌, traverse}
use ai_os.PromptEngine.{
  Text, codes, Segment, literal, placeholder, Variables, render_template, substitute, value_of,
  scan, match_placeholder, skip_spaces, take_name, close, is_space, join, cache_boundary_marker,
  count_marker, strip_prefix, render_with_cache_boundary,
}
use ai_os.PromptEngine.Render.{Fills, render_template-print_all}
use ai_os.PromptEngine.CacheBoundary.{IsRendered, boundary_separates}

abbrev role_is_expert : Variables
role_is_expert name = some (codes "expert")

abbrev greeting : List Segment
greeting = literal b'A' ∷ literal b' ' ∷ placeholder (codes "role") ∷ literal b'.' ∷ []

render_template-print_all_example : Fills role_is_expert greeting (codes "A expert.")
unfolding render_template scan match_placeholder skip_spaces take_name close is_space substitute
    value_of join traverse
render_template-print_all_example =
    render_template-print_all greeting role_is_expert (refl, (refl, ((refl, refl), (refl, tt))))

-- A variable that a placeholder lacks.
unknown_role : render_template (codes "A {{role}}.") (λ name. none) ≡ none
unfolding render_template scan match_placeholder skip_spaces take_name close is_space substitute
    value_of traverse
unknown_role = refl

abbrev prompt : Text
prompt = codes "A {{role}}.{{cache_boundary}}Do {{task}}"

boundary_separates_example :
    (stable volatile : Text) × (prompt ≡ stable ++ (cache_boundary_marker ++ volatile))
    × ((variables : Variables)
        → IsRendered
            (render_template stable variables)
            (render_template volatile variables)
            (render_with_cache_boundary prompt variables))
unfolding count_marker strip_prefix
boundary_separates_example = boundary_separates prompt refl
