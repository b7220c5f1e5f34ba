-- ===== src/Prelude/Dict.antt =====
-- Python's `dict` with string keys, in insertion order: an assignment to a key that is present
-- keeps its place, a new key goes to the end.
use Prim.Native.String.{String}
use mathlib.Core.Path.{◌≡◌, refl}
use mathlib.Core.Logic.{inl, inr}
use mathlib.Core.Bool.{Bool, false, ◌||◌}
use mathlib.Core.Option.{Option, none, some}
use mathlib.Core.List.{List, [], ◌∷◌, ◌++◌}
use native.Mathlib.Omega.{arith}
use text.Mathlib.Text.{◌==◌}
use text.Mathlib.TextEquality.{eq_iff}
use agentic_rtl_engine.Prelude.Tests.{if◌then◌else◌, Bool-cases}

abbrev pub Dict {ℓ} : Type ℓ → Type ℓ
Dict V = List (String × V)

-- Membership of a string in a list of keys.
unfoldable pub contains : String → List String → Bool
contains k [] = false
contains k (j ∷ l) = (j == k) || contains k l

pub contains-append :
    (k : String) (names more : List String)
    → contains k (names ++ more) ≡ (contains k names || contains k more)
unfolding contains
contains-append k [] more = refl
contains-append k (n ∷ names) more = ground (arith, contains-append k names more)

module _ {ℓ} {V : Type ℓ} where
  -- d.get(k)
  unfoldable pub get : String → Dict V → Option V
  get k [] = none
  get k ((j, v) ∷ d) = if j == k then some v else get k d

  -- d[k] = v
  unfoldable pub put : String → V → Dict V → Dict V
  put k v [] = (k, v) ∷ []
  put k v ((j, w) ∷ d) = if j == k then (j, v) ∷ d else (j, w) ∷ put k v d

  -- d.update(e)
  unfoldable pub update : Dict V → Dict V → Dict V
  update d [] = d
  update d ((k, v) ∷ e) = update (put k v d) e

  pub get-put :
      (k j : String) (v : V) (d : Dict V) → get j (put k v d) ≡ (if k == j then some v else get j d)
  unfolding get put
  get-put k j v [] = refl
  get-put k j v ((i, w) ∷ d) = ground (arith, eq_iff k j, eq_iff i k, eq_iff i j, get-put k j v d)

  -- No key twice.
  abbrev pub Unique : Dict V → Type ℓ
  Unique [] = Unit
  Unique ((k, v) ∷ d) = (get k d ≡ none) × Unique d

  pub put-Unique : (k : String) (v : V) (d : Dict V) → Unique d → Unique (put k v d)
  unfolding get put
  put-Unique k v [] u = (refl, tt)
  put-Unique k v ((j, w) ∷ d) u = elim (Bool-cases (j == k)) [
    | inl e ↦ rw e (u.0, u.1)
    | inr e ↦ rw e (ground (arith, get-put k j v d, eq_iff j k, eq_iff k j), put-Unique k v d u.1)
  ]

  abbrev pub or_else : Option V → Option V → Option V
  or_else none b = b
  or_else (some a) b = some a

  -- An update overrides the old items, key by key.
  pub get-update :
      (k : String) (d e : Dict V) → Unique e → get k (update d e) ≡ or_else (get k e) (get k d)
  unfolding get update
  get-update k d [] u = refl
  get-update k d ((j, v) ∷ e) u =
      rw (get-update k (put j v d) e u.1, get-put j k v d) (ground (arith, eq_iff j k, u.0))
