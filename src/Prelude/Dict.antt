-- ===== src/Prelude/Dict.antt =====
-- A `Record<string, V>` or a `Map<string, V>`: the entries in the order of insertion. Assigning
-- to a key that is there keeps its place.
use Prim.Native.String.{String}
use mathlib.Core.Path.{◌≡◌, refl, sym, ◌∙◌}
use mathlib.Core.Bool.{Bool}
use mathlib.Core.Option.{Option, none, some, map as option_map}
use mathlib.Core.List.{List, [], ◌∷◌}
use native.Mathlib.Omega.{arith}
use text.Mathlib.TextEquality.{eq_iff}
use mathlib.Core.Bool.{true, false}
use mathlib.Core.Logic.{◌≢◌, ◌⊎◌, inl, inr}
use text.Mathlib.TextPositions.{eq_refl}
use specrails_core.Prelude.Tests.{str_eq, str_eq-false, Bool-cases, is_some, if◌then◌else◌}
use specrails_core.Prelude.Lists.{any, All, keep}

abbrev pub Dict {ℓ} : Type ℓ → Type ℓ
Dict V = List (String × V)

-- `list.includes(id)`
abbrev pub includes : List String → String → Bool
includes xs s = any (λ x. str_eq x s) xs

module _ {ℓ} {V : Type ℓ} where
  unfoldable pub get : String → Dict V → Option V
  get k [] = none
  get k ((j, v) ∷ d) = if str_eq j k then some v else get k d

  unfoldable pub put : String → V → Dict V → Dict V
  put k v [] = (k, v) ∷ []
  put k v ((j, w) ∷ d) = if str_eq j k then (j, v) ∷ d else (j, w) ∷ put k v d

  abbrev pub keys : Dict V → List String
  keys [] = []
  keys ((j, v) ∷ d) = j ∷ keys d

  abbrev pub values : Dict V → List V
  values [] = []
  values ((j, v) ∷ d) = v ∷ values d

  -- `delete record[key]`, `map.delete(key)`
  unfoldable pub remove : String → Dict V → Dict V
  remove k [] = []
  remove k ((j, v) ∷ d) = let rest = remove k d in if str_eq j k then rest else (j, v) ∷ rest

  abbrev pub map_values : (V → V) → Dict V → Dict V
  map_values f [] = []
  map_values f ((j, v) ∷ d) = (j, f v) ∷ map_values f d

  pub get-map_values :
      (f : V → V) (k : String) (d : Dict V) → get k (map_values f d) ≡ option_map f (get k d)
  unfolding get
  get-map_values f k [] = refl
  get-map_values f k ((j, v) ∷ d) = elim (Bool-cases (str_eq j k)) [
    | inl e ↦ rw e refl
    | inr e ↦ rw e (get-map_values f k d)
  ]

  pub put-map_values :
      (f : V → V) (k : String) (v : V) (d : Dict V)
      → put k (f v) (map_values f d) ≡ map_values f (put k v d)
  unfolding put
  put-map_values f k v [] = refl
  put-map_values f k v ((j, w) ∷ d) = elim (Bool-cases (str_eq j k)) [
    | inl e ↦ rw e refl
    | inr e ↦ rw (e, put-map_values f k v d) refl
  ]

  pub get-put :
      (k j : String) (v : V) (d : Dict V)
      → get j (put k v d) ≡ (if str_eq k j then some v else get j d)
  unfolding get put
  get-put k j v [] = refl
  get-put k j v ((i, w) ∷ d) = ground (arith, eq_iff k j, eq_iff i k, eq_iff i j, get-put k j v d)

  pub get-remove :
      (k j : String) (d : Dict V) → get j (remove k d) ≡ (if str_eq k j then none else get j d)
  unfolding get remove
  get-remove k j [] = ground arith
  get-remove k j ((i, w) ∷ d) = ground (arith, get-remove k j d, eq_iff k j, eq_iff i k, eq_iff i j)

  -- An entry found after a write is the one written, or was there.
  pub get-put-cases :
      (k j : String) (v : V) (d : Dict V) (w : V)
      → get j (put k v d) ≡ some w
      → ((k ≡ j) × (w ≡ v)) ⊎ ((k ≢ j) × (get j d ≡ some w))
  get-put-cases k j v d w h = elim (Bool-cases (str_eq k j)) [
    | inl e ↦ inl ((eq_iff k j).0 e, ground (arith, get-put k j v d))
    | inr e ↦ inr ((λ q. cc (e, (eq_iff k j).1 q)), ground (arith, get-put k j v d))
  ]

  pub get-put_self : (k : String) (v : V) (d : Dict V) → get k (put k v d) ≡ some v
  get-put_self k v d = rw (get-put k k v d) (rw (eq_refl k))

  pub get-put_ne : (k j : String) (v : V) (d : Dict V) → k ≢ j → get j (put k v d) ≡ get j d
  get-put_ne k j v d h = rw (get-put k j v d) (rw (str_eq-false k j h))

  pub is_some-put :
      (k j : String) (v : V) (d : Dict V)
      → is_some (get j d) ≡ true
      → is_some (get j (put k v d)) ≡ true
  is_some-put k j v d h = ground (arith, get-put k j v d)

  -- What a filter keeps it keeps under its key.
  pub get-keep :
      (p : String × V → Bool) (k : String) (v : V) (d : Dict V)
      → get k d ≡ some v
      → p (k, v) ≡ true
      → get k (keep p d) ≡ some v
  unfolding get
  get-keep p k v [] h q = h
  get-keep p k v ((j, w) ∷ d) h q = elim (Bool-cases (str_eq j k)) [
    | inl e ↦
        (let same_key : j ≡ k = (eq_iff j k).0 e in
          let same_value : w ≡ v = ground arith in rw (same_key, same_value, q) (rw (eq_refl k)))
    | inr e ↦ (let ih = get-keep p k v d (ground arith) q in ground arith)
  ]

str_eq_sym : (s t : String) → str_eq s t ≡ false → str_eq t s ≡ false
str_eq_sym s t h = ground (arith, eq_iff s t, eq_iff t s)

-- No key stands twice.
abbrev pub Distinct : List String → Type 0
Distinct [] = Unit
Distinct (k ∷ ks) = (includes ks k ≡ false) × Distinct ks

module _ {ℓ} {V : Type ℓ} where
  includes-keys-put :
      (k : String) (v : V) (d : Dict V) (j : String)
      → includes (keys d) j ≡ false
      → str_eq k j ≡ false
      → includes (keys (put k v d)) j ≡ false
  unfolding put
  includes-keys-put k v [] j h e = ground arith
  includes-keys-put k v ((i, w) ∷ d) j h e = ground (arith, includes-keys-put k v d j)

  pub Distinct-put :
      (k : String) (v : V) (d : Dict V) → Distinct (keys d) → Distinct (keys (put k v d))
  unfolding put
  Distinct-put k v [] h = (refl, tt)
  Distinct-put k v ((i, w) ∷ d) h = elim (Bool-cases (str_eq i k)) [
    | inl e ↦ rw e h
    | inr e ↦ rw e (includes-keys-put k v d i h.0 (str_eq_sym i k e), Distinct-put k v d h.1)
  ]

  includes-keys-keep :
      (p : String × V → Bool) (d : Dict V) (j : String)
      → includes (keys d) j ≡ false
      → includes (keys (keep p d)) j ≡ false
  includes-keys-keep p [] j h = h
  includes-keys-keep p ((i, w) ∷ d) j h = ground (arith, includes-keys-keep p d j)

  pub Distinct-keep :
      (p : String × V → Bool) (d : Dict V) → Distinct (keys d) → Distinct (keys (keep p d))
  Distinct-keep p [] h = tt
  Distinct-keep p ((i, w) ∷ d) h = elim (Bool-cases (p (i, w))) [
    | inl e ↦ rw e (includes-keys-keep p d i h.0, Distinct-keep p d h.1)
    | inr e ↦ rw e (Distinct-keep p d h.1)
  ]

  -- Every value names its own key.
  abbrev pub NamedBy : (V → String) → Dict V → Type 0
  NamedBy name d = All (λ (e : String × V). name e.1 ≡ e.0) d

  pub NamedBy-put :
      (name : V → String) (k : String) (v : V) (d : Dict V)
      → name v ≡ k
      → NamedBy name d
      → NamedBy name (put k v d)
  unfolding put
  NamedBy-put name k v [] m h = (m, tt)
  NamedBy-put name k v ((i, w) ∷ d) m h = elim (Bool-cases (str_eq i k)) [
    | inl e ↦ rw e (m ∙ sym ((eq_iff i k).0 e), h.1)
    | inr e ↦ rw e (h.0, NamedBy-put name k v d m h.1)
  ]

  pub NamedBy-keep :
      (name : V → String) (p : String × V → Bool) (d : Dict V)
      → NamedBy name d
      → NamedBy name (keep p d)
  NamedBy-keep name p [] h = tt
  NamedBy-keep name p ((i, w) ∷ d) h = elim (Bool-cases (p (i, w))) [
    | inl e ↦ rw e (h.0, NamedBy-keep name p d h.1)
    | inr e ↦ rw e (NamedBy-keep name p d h.1)
  ]
