-- ===== src/Prelude/Tables.antt =====
-- Tables with a key: association lists in which no key comes twice, what is deleted from them and
-- written to them, and lists of results of which each may be missing.
use Prim.Native.String.{String}
use mathlib.Core.Path.{◌≡◌, refl}
use mathlib.Core.Bool.{Bool, false, ◌||◌}
use mathlib.Core.List.{List, [], ◌∷◌, map}
use mathlib.Core.Option.{Option, none, some}
use native.Mathlib.Omega.{arith}
use text.Mathlib.TextEquality.{eq_iff}
use ai_os.Prelude.Tests.{if◌then◌else◌, is_some}
use ai_os.Prelude.Dict.{lookup, insert, lookup-insert, contains}

infixl 5 ◌>>=◌
abbrev pub ◌>>=◌ {ℓ κ} : {A : Type ℓ} {B : Type κ} → Option A → (A → Option B) → Option B
none >>= f = none
some a >>= f = f a

-- `[f(x) for x in xs]`, where `f` may raise.
unfoldable pub traverse {ℓ κ} :
    {A : Type ℓ} {B : Type κ} → (A → Option B) → List A → Option (List B)
traverse f [] = some []
traverse f (x ∷ xs) = do y ← f x; ys ← traverse f xs; some (y ∷ ys)

-- That no entry comes twice.
unfoldable pub has_repeats : List String → Bool
has_repeats [] = false
has_repeats (x ∷ xs) = contains xs x || has_repeats xs

module _ {ℓ} {V : Type ℓ} where
  abbrev pub Distinct : List (String × V) → Type ℓ
  Distinct [] = Unit
  Distinct (entry ∷ d) = (lookup entry.0 d ≡ none) × Distinct d

  -- `DELETE ... WHERE test`.
  unfoldable pub delete_where : (test : String → V → Bool) → List (String × V) → List (String × V)
  delete_where test [] = []
  delete_where test ((key, value) ∷ d) =
      let rest = delete_where test d in if test key value then rest else (key, value) ∷ rest

  -- One upsert for each of some rows.
  unfoldable pub insert_all : List (String × V) → List (String × V) → List (String × V)
  insert_all [] d = d
  insert_all ((key, value) ∷ rows) d = insert key value (insert_all rows d)

  abbrev pub keys : List (String × V) → List String
  keys = map (λ (entry : String × V). entry.0)

  -- A row unless it is deleted.
  abbrev pub unless_deleted : (test : String → V → Bool) → String → Option V → Option V
  unless_deleted test key none = none
  unless_deleted test key (some value) = if test key value then none else some value

  -- The first of two, where there is one.
  abbrev pub or_else : Option V → Option V → Option V
  or_else none other = other
  or_else (some value) other = some value

  pub lookup-delete_where :
      (test : String → V → Bool) (key : String) (d : List (String × V))
      → Distinct d
      → lookup key (delete_where test d) ≡ unless_deleted test key (lookup key d)
  unfolding lookup delete_where
  lookup-delete_where test key [] h = refl
  lookup-delete_where test key ((name, value) ∷ d) h =
      ground (arith, lookup-delete_where test key d h.1, eq_iff name key, h.0)

  pub insert-Distinct :
      (key : String) (value : V) (d : List (String × V))
      → Distinct d
      → Distinct (insert key value d)
  unfolding insert lookup
  insert-Distinct key value [] h = (refl, tt)
  insert-Distinct key value ((name, old) ∷ d) h = ground (
    arith,
    insert-Distinct key value d h.1,
    eq_iff name key,
    eq_iff key name,
    lookup-insert key name value d,
    h.0,
  )

  pub delete_where-Distinct :
      (test : String → V → Bool) (d : List (String × V))
      → Distinct d
      → Distinct (delete_where test d)
  unfolding delete_where
  delete_where-Distinct test [] h = tt
  delete_where-Distinct test ((name, value) ∷ d) h =
      ground (arith, delete_where-Distinct test d h.1, lookup-delete_where test name d h.1, h.0)

  pub insert_all-Distinct : (rows d : List (String × V)) → Distinct d → Distinct (insert_all rows d)
  unfolding insert_all
  insert_all-Distinct [] d h = h
  insert_all-Distinct ((key, value) ∷ rows) d h =
      insert-Distinct key value (insert_all rows d) (insert_all-Distinct rows d h)

  pub lookup-insert_all :
      (rows d : List (String × V)) (key : String)
      → lookup key (insert_all rows d) ≡ or_else (lookup key rows) (lookup key d)
  unfolding insert_all lookup
  lookup-insert_all [] d key = refl
  lookup-insert_all ((name, value) ∷ rows) d key =
      ground (arith, lookup-insert name key value (insert_all rows d), lookup-insert_all rows d key)

  pub is_some-contains :
      (key : String) (d : List (String × V)) → is_some (lookup key d) ≡ contains (keys d) key
  unfolding lookup contains
  is_some-contains key [] = refl
  is_some-contains key ((name, value) ∷ d) = ground (arith, is_some-contains key d)
