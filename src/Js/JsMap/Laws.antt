-- ===== src/Js/JsMap/Laws.antt =====
-- The laws of `Map`: keys stay distinct, and every entry is found under its key.
use neko_stack.Common.{
  ap, ◌∙◌, eq_of_==, if◌then◌else◌, String, ◌≡◌, refl, true, none, some, [], ◌∷◌, arith, ◌==◌,
  false, Bool-cases, eq_iff, eq_refl, All, All-imp, inl, inr,
}
use neko_stack.Js.JsMap.{map_or_new, JsMap, get, set, has, get-set}

module _ {V : Type 0} where
  abbrev pub HasDistinctKeys : JsMap V → Type 0
  HasDistinctKeys [] = Unit
  HasDistinctKeys ((k, v) ∷ m) = (get k m ≡ none) × HasDistinctKeys m

  pub set-HasDistinctKeys :
      (k : String) (v : V) (m : JsMap V) → HasDistinctKeys m → HasDistinctKeys (set k v m)
  unfolding set get
  set-HasDistinctKeys k v [] h = (refl, tt)
  set-HasDistinctKeys k v ((j, w) ∷ m) (fresh, h) = elim (Bool-cases (j == k)) [
    | inl e ↦ rw e (fresh, h)
    | inr e ↦ rw e (get_fresh e, set-HasDistinctKeys k v m h)
  ]
    where
      get_fresh : (j == k) ≡ false → get j (set k v m) ≡ none
      get_fresh e = ground (arith, get-set k j v m, eq_iff j k, eq_iff k j)

  -- The later of two entries under one key wins.
  pub set-set : (k : String) (v w : V) (m : JsMap V) → set k v (set k w m) ≡ set k v m
  unfolding set
  set-set k v w [] = rw (eq_refl k)
  set-set k v w ((j, u) ∷ m) = elim (Bool-cases (j == k)) [
    | inl e ↦ rw (e, e)
    | inr e ↦ rw (e, e) (ap (λ (l : JsMap V). (j, u) ∷ l) (set-set k v w m))
  ]

  pub has-set_same : (k : String) (v : V) (m : JsMap V) → has k (set k v m) ≡ true
  unfolding has
  has-set_same k v m = rw (get-set k k v m, eq_refl k) refl

  -- A key that is there keeps its place, so what is put under another key may come before or after.
  pub set-commute :
      (k j : String) (v w : V) (m : JsMap V)
      → (k == j) ≡ false
      → has k m ≡ true
      → set j w (set k v m) ≡ set k v (set j w m)
  unfolding set has get
  set-commute k j v w [] d h = cc
  set-commute k j v w ((i, u) ∷ m) d h = elim (Bool-cases (i == k)) [
    | inl e ↦
        let p : i ≡ k = eq_of_== i k e in
        let f : (i == j) ≡ false = ap (λ n. n == j) p ∙ d in rw (e, f) (rw e refl)
    | inr e ↦ elim (Bool-cases (i == j)) [
      | inl f ↦ rw (e, f) (rw e refl)
      | inr f ↦
          let r = set-commute k j v w m d (ground arith) in
          rw (e, f) (rw e (ap (λ (l : JsMap V). (i, u) ∷ l) r))
    ]
  ]

  pub has-set : (k j : String) (v : V) (m : JsMap V) → has k m ≡ true → has k (set j v m) ≡ true
  unfolding has
  has-set k j v m h = rw (get-set j k v m) (ground arith)

  -- An entry of the map is what `get` finds.
  abbrev pub IsFiled : JsMap V → String × V → Type 0
  IsFiled m e = get e.0 m ≡ some e.1

  IsFiled-cons :
      (k : String) (v : V) (m : JsMap V)
      → get k m ≡ none
      → (e : String × V) → IsFiled m e
      → IsFiled ((k, v) ∷ m) e
  unfolding get
  IsFiled-cons k v m fresh (j, w) h = ground (arith, eq_iff k j)

  pub All-IsFiled : (m : JsMap V) → HasDistinctKeys m → All (IsFiled m) m
  unfolding get
  All-IsFiled [] h = tt
  All-IsFiled ((k, v) ∷ m) (fresh, h) =
      (rw (eq_refl k), All-imp (IsFiled-cons k v m fresh) m (All-IsFiled m h))

  -- Every key of a map is one that it has.
  pub All-has : (m : JsMap V) → HasDistinctKeys m → All (λ e. has e.0 m ≡ true) m
  unfolding has
  All-has m h = All-imp (λ e filed. rw filed) m (All-IsFiled m h)

-- A change of the map under one key, seen from another key.
pub map_or_new-set :
    {A : Type 0} (k j : String) (F : JsMap A → JsMap A) (m : JsMap (JsMap A))
    → map_or_new (get j (set k (F (map_or_new (get k m))) m))
      ≡ (if k == j then F (map_or_new (get j m)) else map_or_new (get j m))
map_or_new-set k j F m = elim (Bool-cases (k == j)) [
  | inl e ↦
      let p : k ≡ j = eq_of_== k j e in
      rw (get-set k j (F (map_or_new (get k m))) m, e) (ap (λ i. F (map_or_new (get i m))) p)
  | inr e ↦ rw (get-set k j (F (map_or_new (get k m))) m, e) refl
]
