-- ===== src/Js/JsMap.antt =====
-- `Map` with string keys, as the list of its entries in insertion order. `set` on a key that is
-- there keeps the key's place.
pub mod Laws
use neko_stack.Common.{
  String, ◌≡◌, refl, Bool, true, false, Option, none, some, List, [], ◌∷◌, arith, ◌==◌, eq_iff, inl,
  inr, In, if◌then◌else◌, Bool-cases, eq_of_==,
}

abbrev pub JsMap {ℓ} : Type ℓ → Type ℓ
JsMap V = List (String × V)

module _ {ℓ} {V : Type ℓ} where
  unfoldable pub get : String → JsMap V → Option V
  get k [] = none
  get k ((j, v) ∷ m) = if j == k then some v else get k m

  unfoldable pub set : String → V → JsMap V → JsMap V
  set k v [] = (k, v) ∷ []
  set k v ((j, w) ∷ m) = if j == k then (j, v) ∷ m else (j, w) ∷ set k v m

  unfoldable pub keys : JsMap V → List String
  keys [] = []
  keys ((j, v) ∷ m) = j ∷ keys m

-- `?? new Map()`
abbrev pub map_or_new {ℓ} : {A : Type ℓ} → Option (JsMap A) → JsMap A
map_or_new none = []
map_or_new (some m) = m

abbrev pub is_some {ℓ} : {A : Type ℓ} → Option A → Bool
is_some none = false
is_some (some a) = true

unfoldable pub has {ℓ} : {V : Type ℓ} → String → JsMap V → Bool
unfolding get
has k m = is_some (get k m)

-- new Set(texts).has(k), texts.includes(k)
unfoldable pub includes : String → List String → Bool
includes k [] = false
includes k (t ∷ ts) = if t == k then true else includes k ts

module _ {ℓ} {V : Type ℓ} where
  pub get-set :
      (k j : String) (v : V) (m : JsMap V)
      → get j (set k v m) ≡ (if k == j then some v else get j m)
  unfolding get set
  get-set k j v [] = refl
  get-set k j v ((i, w) ∷ m) = ground (arith, eq_iff k j, eq_iff i k, eq_iff i j, get-set k j v m)

pub includes-In : (k : String) (ts : List String) → includes k ts ≡ true → In k ts
unfolding includes
includes-In k [] h = cc
includes-In k (t ∷ ts) h = elim (Bool-cases (t == k)) [
  | inl e ↦ let p : t ≡ k = eq_of_== t k e in inl (cc)
  | inr e ↦ inr (includes-In k ts (ground arith))
]

pub In-includes : (k : String) (ts : List String) → In k ts → includes k ts ≡ true
unfolding includes
In-includes k [] h = elim h [ ]
In-includes k (t ∷ ts) (inl e) = ground (arith, eq_iff t k)
In-includes k (t ∷ ts) (inr h) = ground (arith, In-includes k ts h)

pub not-In_of_includes : (k : String) (ts : List String) → includes k ts ≡ false → In k ts → ⊥
not-In_of_includes k ts h m = cc (h, In-includes k ts m)
