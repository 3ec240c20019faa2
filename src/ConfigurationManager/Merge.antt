-- ===== src/ConfigurationManager/Merge.antt =====
-- What `_deep_merge` of loader.py does to the value at a path.
use ai_os.Prelude.{
  ◌≡◌, Option, none, some, List, [], ◌∷◌, String, str_eq, if◌then◌else◌, arith, ◌∙◌, ap, subst,
  refl, sym, eq_iff, if_cases,
}
use ai_os.WorkflowEngine.Definition.{
  Json, null, boolean, number, text, array, object, Members, no_members, member,
}
use ai_os.WorkflowEngine.Service.{get_member}
use ai_os.ConfigurationManager.{set_member, deep_merge, merge_value}

-- What a value says of a path below it: nothing, where a key of the path is missing; a plain value at its end; a section at its
-- end; or a plain value before its end.
pub data Says : Type 0 where
  silent : Says
  sets : Json → Says
  is_section : Says
  cuts_off : Says

-- What is said of a value that may be missing.
abbrev pub or_silent : (Json → Says) → Option Json → Says
or_silent of_value none = silent
or_silent of_value (some value) = of_value value

unfoldable pub says : List String → Json → Says
says [] (object section) = is_section
says [] value = sets value
says (key ∷ path) (object section) = or_silent (says path) (get_member key section)
says (key ∷ path) value = cuts_off

-- The plain value, if any.
abbrev pub plain : Says → Option Json
plain (sets value) = some value
plain silent = none
plain is_section = none
plain cuts_off = none

-- A higher layer decides, unless it is silent.
abbrev pub overlay : Says → Option Json → Option Json
overlay silent lower = lower
overlay (sets value) lower = some value
overlay is_section lower = none
overlay cuts_off lower = none

-- No key comes twice, in any section.
abbrev mutual
  pub IsDict : Json → Type 0
  IsDict (object section) = AreDistinct section
  IsDict _ = Unit

  pub AreDistinct : Members → Type 0
  AreDistinct no_members = Unit
  AreDistinct (member key value rest) =
      (get_member key rest ≡ none) × IsDict value × AreDistinct rest

pub get_member-set_member :
    (key other : String) (value : Json) (section : Members)
    → get_member other (set_member key value section)
      ≡ (if str_eq key other then some value else get_member other section)
unfolding get_member set_member
get_member-set_member key other value no_members = refl
get_member-set_member key other value (member name old rest) = ground (
  arith,
  get_member-set_member key other value rest,
  eq_iff name key,
  eq_iff name other,
  eq_iff key other,
)

abbrev merge_found : Option Json → Option Json → Option Json
merge_found none existing = existing
merge_found (some value) existing = some (merge_value value existing)

get_member-deep_merge :
    (key : String) (base override : Members)
    → AreDistinct override
    → get_member key (deep_merge base override)
      ≡ merge_found (get_member key override) (get_member key base)
unfolding get_member deep_merge
get_member-deep_merge key base no_members d = refl
get_member-deep_merge key base (member name value rest) d =
    let merged = set_member name (merge_value value (get_member name base)) base in
    ground (
      arith,
      get_member-deep_merge key merged rest d.2,
      get_member-set_member name key (merge_value value (get_member name base)) base,
      eq_iff name key,
      d.0,
    )

abbrev json_or : Json → Option Json → Json
json_or default none = default
json_or default (some value) = value

get_member-IsDict :
    (key : String) (section : Members) (value : Json)
    → AreDistinct section
    → get_member key section ≡ some value
    → IsDict value
unfolding get_member
get_member-IsDict key no_members value d e = ground (arith, e)
get_member-IsDict key (member name first rest) value (fresh, this, others) e =
    if_cases (λ o. o ≡ some value → IsDict value) (str_eq name key)
      (λ _ found. subst IsDict (ap (json_or value) found) this)
      (λ _ found. get_member-IsDict key rest value others found) e

-- What the lower layers say at a path, where they have a value at all.
abbrev plain_below : List String → Option Json → Option Json
plain_below path none = none
plain_below path (some value) = plain (says path value)

overlay-none : (s : Says) → overlay s none ≡ plain s
overlay-none silent = refl
overlay-none (sets value) = refl
overlay-none is_section = refl
overlay-none cuts_off = refl

plain-or_silent :
    (path : List String) (found : Option Json)
    → plain (or_silent (says path) found) ≡ plain_below path found
plain-or_silent path none = refl
plain-or_silent path (some value) = refl

-- A path below a section, by what the section has under its first key.
says-section :
    (key : String) (path : List String) (section : Members)
    → plain (says (key ∷ path) (object section)) ≡ plain_below path (get_member key section)
unfolding says
says-section key path section = plain-or_silent path (get_member key section)

-- The rule for a value that overrides another one: its section, by what it has under the first key of the path.
section_rule :
    (key : String) (path : List String) (value : Option Json) (section base : Members)
    → get_member key section ≡ value
    → ((v : Json) (existing : Option Json)
        → value ≡ some v
        → plain (says path (merge_value v existing))
          ≡ overlay (says path v) (plain_below path existing))
    → AreDistinct section
    → plain (says (key ∷ path) (object (deep_merge base section)))
      ≡ overlay (says (key ∷ path) (object section)) (plain (says (key ∷ path) (object base)))
unfolding says
section_rule key path none section base e below d =
    says-section key path (deep_merge base section)
    ∙ ap (plain_below path)
        (get_member-deep_merge key base section d ∙ ap (λ v. merge_found v (get_member key base)) e)
    ∙ sym (says-section key path base)
    ∙ ap (λ o. overlay (or_silent (says path) o) (plain (says (key ∷ path) (object base)))) (sym e)
section_rule key path (some value) section base e below d =
    says-section key path (deep_merge base section)
    ∙ ap (plain_below path)
        (get_member-deep_merge key base section d ∙ ap (λ v. merge_found v (get_member key base)) e)
    ∙ below value (get_member key base) refl
    ∙ ap (overlay (says path value)) (sym (says-section key path base))
    ∙ ap (λ o. overlay (or_silent (says path) o) (plain (says (key ∷ path) (object base)))) (sym e)

-- A value at a path, where another one may have been there before.
merge_value-overlay :
    (path : List String) (value : Json) (existing : Option Json)
    → IsDict value
    → plain (says path (merge_value value existing))
      ≡ overlay (says path value) (plain_below path existing)
unfolding merge_value says
merge_value-overlay [] (object section) none d = refl
merge_value-overlay [] (object section) (some (object base)) d = refl
merge_value-overlay [] (object section) (some null) d = refl
merge_value-overlay [] (object section) (some (boolean b)) d = refl
merge_value-overlay [] (object section) (some (number n)) d = refl
merge_value-overlay [] (object section) (some (text s)) d = refl
merge_value-overlay [] (object section) (some (array xs)) d = refl
merge_value-overlay (key ∷ path) (object section) (some (object base)) d =
    section_rule key path (get_member key section) section base refl
      (λ v below e. merge_value-overlay path v below (get_member-IsDict key section v d e)) d
merge_value-overlay (key ∷ path) (object section) none d =
    sym (overlay-none (says (key ∷ path) (object section)))
merge_value-overlay (key ∷ path) (object section) (some null) d =
    sym (overlay-none (says (key ∷ path) (object section)))
merge_value-overlay (key ∷ path) (object section) (some (boolean b)) d =
    sym (overlay-none (says (key ∷ path) (object section)))
merge_value-overlay (key ∷ path) (object section) (some (number n)) d =
    sym (overlay-none (says (key ∷ path) (object section)))
merge_value-overlay (key ∷ path) (object section) (some (text s)) d =
    sym (overlay-none (says (key ∷ path) (object section)))
merge_value-overlay (key ∷ path) (object section) (some (array xs)) d =
    sym (overlay-none (says (key ∷ path) (object section)))
merge_value-overlay [] null existing d = refl
merge_value-overlay [] (boolean b) existing d = refl
merge_value-overlay [] (number n) existing d = refl
merge_value-overlay [] (text s) existing d = refl
merge_value-overlay [] (array xs) existing d = refl
merge_value-overlay (key ∷ path) null existing d = refl
merge_value-overlay (key ∷ path) (boolean b) existing d = refl
merge_value-overlay (key ∷ path) (number n) existing d = refl
merge_value-overlay (key ∷ path) (text s) existing d = refl
merge_value-overlay (key ∷ path) (array xs) existing d = refl

-- The same of two sections.
pub deep_merge-overlay :
    (key : String) (path : List String) (base override : Members)
    → AreDistinct override
    → plain (says (key ∷ path) (object (deep_merge base override)))
      ≡ overlay (says (key ∷ path) (object override)) (plain (says (key ∷ path) (object base)))
unfolding merge_value
deep_merge-overlay key path base override d =
    merge_value-overlay (key ∷ path) (object override) (some (object base)) d
