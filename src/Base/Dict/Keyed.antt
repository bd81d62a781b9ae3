-- ===== src/Base/Dict/Keyed.antt =====
-- Dictionaries whose entries carry their own key, and their reconstruction from a list of rows.
use crypto_trading_system.Base.Dict.{Dict, lookup, insert, lookup-insert, KeysDistinct, map_values}
use Prim.Native.String.{String}
use mathlib.Core.Path.{◌≡◌, refl}
use mathlib.Core.Option.{none}
use mathlib.Core.List.{[], ◌∷◌, ◌++◌}
use native.Mathlib.Omega.{arith}
use text.Mathlib.TextEquality.{eq_iff}

module _ {V : Type 0} where
  pub insert_new :
      (k : String) (v : V) (d : Dict V) → lookup k d ≡ none → insert k v d ≡ d ++ ((k, v) ∷ [])
  unfolding lookup insert
  insert_new k v [] h = refl
  insert_new k v ((j, w) ∷ d) h = ground (arith, insert_new k v d)

  pub KeysDistinct-insert :
      (k : String) (v : V) (d : Dict V) → KeysDistinct d → KeysDistinct (insert k v d)
  unfolding lookup insert
  KeysDistinct-insert k v [] h = (refl, tt)
  KeysDistinct-insert k v ((j, w) ∷ d) h =
      ground (arith, eq_iff j k, eq_iff k j, lookup-insert k j v d, KeysDistinct-insert k v d h.1)

  -- Each entry stands under the key that it carries.
  abbrev pub OwnKeys : (V → String) → Dict V → Type 0
  OwnKeys key [] = Unit
  OwnKeys key ((k, v) ∷ d) = (key v ≡ k) × OwnKeys key d

  pub OwnKeys-insert :
      (key : V → String) (k : String) (v : V) (d : Dict V)
      → key v ≡ k
      → OwnKeys key d
      → OwnKeys key (insert k v d)
  unfolding insert
  OwnKeys-insert key k v [] e h = (e, tt)
  OwnKeys-insert key k v ((j, w) ∷ d) e h =
      ground (arith, eq_iff j k, OwnKeys-insert key k v d e h.1)

module _ {V W : Type 0} where
  pub map_values-insert :
      (f : V → W) (k : String) (v : V) (d : Dict V)
      → map_values f (insert k v d) ≡ insert k (f v) (map_values f d)
  unfolding insert
  map_values-insert f k v [] = refl
  map_values-insert f k v ((j, w) ∷ d) = ground (arith, map_values-insert f k v d)

  pub lookup-map_values :
      (f : V → W) (k : String) (d : Dict V) → lookup k d ≡ none → lookup k (map_values f d) ≡ none
  unfolding lookup
  lookup-map_values f k [] h = refl
  lookup-map_values f k ((j, w) ∷ d) h = ground (arith, lookup-map_values f k d)
