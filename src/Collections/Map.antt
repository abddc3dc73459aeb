-- ===== src/Collections/Map.antt =====
-- `Map<K, V>` and the operations that the code calls on it.
use subduction.Prelude.{
  ◌≡◌, refl, Bool, true, false, List, [], ◌∷◌, arith, Eq, ◌==◌, if◌then◌else◌, Option, none, some,
}
use subduction.Collections.Set.{contains}

abbrev pub Map {ℓ κ} : Type ℓ → Type κ → Type (ℓ ⊔ κ)
Map K V = List (K × V)

abbrev pub keys {ℓ κ} : {K : Type ℓ} {V : Type κ} → Map K V → List K
keys [] = []
keys ((k, v) ∷ m) = k ∷ keys m

abbrev pub values {ℓ κ} : {K : Type ℓ} {V : Type κ} → Map K V → List V
values [] = []
values ((k, v) ∷ m) = v ∷ values m

module _ {ℓ κ} {K : Type ℓ} {V : Type κ} ⦃e : Eq K⦄ where
  unfoldable pub get : Map K V → K → Option V
  get [] k = none
  get ((j, v) ∷ m) k = if j == k then some v else get m k

  abbrev pub contains_key : Map K V → K → Bool
  contains_key m k = elim (get m k) [ none ↦ false | some _ ↦ true ]

  -- `insert` replaces the value of a key that is there.
  unfoldable pub insert : Map K V → K → V → Map K V
  insert [] k v = (k, v) ∷ []
  insert ((j, w) ∷ m) k v = if j == k then (j, v) ∷ m else (j, w) ∷ insert m k v

  -- `retain` by a test of the key.
  unfoldable pub retain_keys : (K → Bool) → Map K V → Map K V
  retain_keys p [] = []
  retain_keys p ((k, v) ∷ m) = if p k then (k, v) ∷ retain_keys p m else retain_keys p m

  unfoldable pub remove : Map K V → K → Map K V
  remove [] k = []
  remove ((j, w) ∷ m) k = if j == k then m else (j, w) ∷ remove m k

  pub get-insert :
      (m : Map K V) (k j : K) (v : V) → get (insert m k v) j ≡ (if k == j then some v else get m j)
  unfolding get insert
  get-insert [] k j v = refl
  get-insert ((i, w) ∷ m) k j v = ground (arith, get-insert m k j v)

  pub get-retain_keys :
      (p : K → Bool) (m : Map K V) (j : K)
      → get (retain_keys p m) j ≡ (if p j then get m j else none)
  unfolding get retain_keys
  get-retain_keys p [] j = ground arith
  get-retain_keys p ((k, v) ∷ m) j = ground (arith, get-retain_keys p m j)

  pub contains-keys : (m : Map K V) (j : K) → contains (keys m) j ≡ contains_key m j
  unfolding contains get
  contains-keys [] j = refl
  contains-keys ((k, v) ∷ m) j = ground (arith, contains-keys m j)
