-- ===== src/Common/Maps.antt =====
-- A Go map with string keys, as an association list that holds each key at most once.
use Prim.Native.String.{String}
use mathlib.Core.Path.{◌≡◌, refl}
use mathlib.Core.Option.{Option, none, some}
use mathlib.Core.List.{List, [], ◌∷◌}
use text.Mathlib.TextEquality.{eq_iff}
use native.Mathlib.Omega.{arith}
use webmcp_backend.Common.Tests.{◌==◌, string_eq, if◌then◌else◌}

abbrev pub Map {ℓ} : Type ℓ → Type ℓ
Map V = List (String × V)

module _ {ℓ} {V : Type ℓ} where
  -- `value, ok := entries[key]`
  unfoldable pub lookup : String → Map V → Option V
  lookup key [] = none
  lookup key (entry ∷ entries) = if entry.0 == key then some entry.1 else lookup key entries

  -- `entries[key] = value`
  unfoldable pub insert : String → V → Map V → Map V
  insert key value [] = (key, value) ∷ []
  insert key value (entry ∷ entries) =
      if entry.0 == key then (key, value) ∷ entries else entry ∷ insert key value entries

  -- A key that was set has its value, and every other key what it had.
  pub lookup-insert :
      (set get : String) (value : V) (entries : Map V)
      → lookup get (insert set value entries)
        ≡ (if set == get then some value else lookup get entries)
  unfolding lookup insert
  lookup-insert set get value [] = refl
  lookup-insert set get value ((key, old) ∷ rest) =
      ground
        (arith, lookup-insert set get value rest, eq_iff key get, eq_iff key set, eq_iff set get)

  -- `m[k]`, with the zero value for a missing key
  abbrev pub lookup_or : V → String → Map V → V
  lookup_or zero k m = elim (lookup k m) [ none ↦ zero | some v ↦ v ]
