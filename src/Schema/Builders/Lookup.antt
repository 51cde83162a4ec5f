-- ===== src/Schema/Builders/Lookup.antt =====
-- What the composition operators of builders/object.ts of packages/schema leave at a key.
use neko_stack.Common.{
  String, ◌≡◌, ◌≢◌, refl, ap, Bool, true, false, not, ◌&&◌, Option, none, some, List, [], ◌∷◌,
  arith, ◌==◌, eq_iff, if◌then◌else◌, Bool-cases, inl, inr, eq_of_==, In, ◌↔◌,
}
use neko_stack.Js.JsMap.{get, keys, includes, is_some}
use neko_stack.Js.Throws.{Cause, returned, threw}
use neko_stack.Schema.Builders.{Schema, Shape, empty, entry}
use neko_stack.Schema.Builders.Shapes.{
  Mask, filtered, asks, own, is_in, put, keys_in, keys_not_in, spread,
}
use neko_stack.Schema.Builders.Causes.{unless_some}
use neko_stack.Schema.Builders.Compose.{put_own, kept, picked, omitted, changed_where}

abbrev pub or_else {ℓ} : {A : Type ℓ} → Option A → Option A → Option A
or_else none b = b
or_else (some a) b = some a

-- Where a filter leaves nothing, the test fails for each element.
pub filtered-nil :
    (test : String → Bool) (ks : List String)
    → filtered test ks ≡ []
    → (k : String) → In k ks
    → test k ≡ false
unfolding filtered
filtered-nil test [] h k m = elim m [ ]
filtered-nil test (j ∷ ks) h k m = elim (Bool-cases (test j)) [
  | inl e ↦ ground arith
  | inr e ↦ elim m [ inl p ↦ rw p e | inr r ↦ filtered-nil test ks (ground arith) k r ]
]

not-eq_false : (b : Bool) → not b ≡ false → b ≡ true
not-eq_false b h = ground arith

pub includes_of_asks :
    (j : String) (mask : Mask) → asks mask j ≡ true → includes j (keys mask) ≡ true
unfolding asks get keys includes
includes_of_asks j [] h = cc
includes_of_asks j ((k, b) ∷ mask) h = ground (arith, includes_of_asks j mask)

module _ {A : Type 0} where
  pub unless_some-returned :
      (ks : List String) (cause : List String → Cause) (a r : A)
      → unless_some ks cause a ≡ returned r
      → (ks ≡ []) × (a ≡ r)
  unless_some-returned [] cause a r h = (refl, cc)
  unless_some-returned (k ∷ ks) cause a r h = cc

  pub unless_some-threw :
      (ks : List String) (cause : List String → Cause) (a : A)
      → (ks ≢ []) ↔ (unless_some ks cause a ≡ threw (cause ks))
  unless_some-threw [] cause a = (λ n. elim (n refl) [ ], λ h n. cc)
  unless_some-threw (k ∷ ks) cause a = (λ n. refl, λ h n. cc)

module _ {N : Type 0} where
  -- No key stands twice, as in a plain object.
  unfoldable pub IsDistinct : Shape N → Type 0
  unfolding own
  IsDistinct empty = Unit
  IsDistinct (entry k s shape) = (own k shape ≡ none) × IsDistinct shape

  pub own-put :
      (j k : String) (s : Schema N) (shape : Shape N)
      → own j (put k s shape) ≡ (if k == j then some s else own j shape)
  unfolding own put
  own-put j k s empty = refl
  own-put j k s (entry i t shape) =
      ground (arith, eq_iff k j, eq_iff i k, eq_iff i j, own-put j k s shape)

  pub own-spread :
      (j : String) (shape extension : Shape N)
      → IsDistinct extension
      → own j (spread shape extension) ≡ or_else (own j extension) (own j shape)
  unfolding own spread IsDistinct
  own-spread j shape empty d = refl
  own-spread j shape (entry k s extension) (fresh, d) =
      ground
        (arith, own-spread j (put k s shape) extension d, own-put j k s shape, eq_iff k j, fresh)

  pub own-omitted :
      (j : String) (mask : Mask) (shape : Shape N)
      → own j (omitted mask shape) ≡ (if asks mask j then none else own j shape)
  unfolding own omitted
  own-omitted j mask empty = ground arith
  own-omitted j mask (entry k s shape) = ground (arith, own-omitted j mask shape, eq_iff k j)

  pub own-omitted-none :
      (j : String) (mask : Mask) (shape : Shape N)
      → own j shape ≡ none
      → own j (omitted mask shape) ≡ none
  own-omitted-none j mask shape h = ground (arith, own-omitted j mask shape)

  pub own-changed_where :
      (j : String) (affected : String → Bool) (f : Schema N → Schema N) (shape : Shape N)
      (s : Schema N)
      → own j shape ≡ some s
      → own j (changed_where affected f shape) ≡ some (if affected j then f s else s)
  unfolding own changed_where
  own-changed_where j affected f empty s h = cc
  own-changed_where j affected f (entry k t shape) s h = elim (Bool-cases (k == j)) [
    | inl e ↦ let p : k ≡ j = eq_of_== k j e in ground arith
    | inr e ↦ ground (arith, own-changed_where j affected f shape s)
  ]

  pub own-changed_where-none :
      (j : String) (affected : String → Bool) (f : Schema N → Schema N) (shape : Shape N)
      → own j shape ≡ none
      → own j (changed_where affected f shape) ≡ none
  unfolding own changed_where
  own-changed_where-none j affected f empty h = refl
  own-changed_where-none j affected f (entry k t shape) h =
      ground (arith, own-changed_where-none j affected f shape)

  own-put_own :
      (j k : String) (o : Option (Schema N)) (out : Shape N)
      → own j (put_own k o out) ≡ (if (k == j) && is_some o then o else own j out)
  unfolding put_own
  own-put_own j k none out = elim (Bool-cases (k == j)) [ inl e ↦ rw e refl | inr e ↦ rw e refl ]
  own-put_own j k (some s) out = ground (arith, own-put j k s out)

  pub own-kept :
      (j k : String) (mask : Mask) (shape out : Shape N)
      → own j (kept k mask shape out)
        ≡ (if (k == j) && asks mask j && is_some (own j shape) then own j shape else own j out)
  unfolding kept
  own-kept j k mask shape out = elim (Bool-cases (k == j)) [
    | inl e ↦
        let p : k ≡ j = eq_of_== k j e in
        ground (arith, own-put_own j k (own k shape) out, ap (λ (t : String). own t shape) p)
    | inr e ↦ ground (arith, own-put_own j k (own k shape) out)
  ]

  pub own-picked :
      (j : String) (ks : List String) (mask : Mask) (shape out : Shape N)
      → own j (picked ks mask shape out)
        ≡ (if includes j ks && asks mask j && is_some (own j shape) then own j shape else own j out)
  unfolding picked includes
  own-picked j [] mask shape out = refl
  own-picked j (k ∷ ks) mask shape out =
      ground
        (arith, own-picked j ks mask shape (kept k mask shape out), own-kept j k mask shape out)

  pub keys_in-nil :
      (ks : List String) (shape : Shape N)
      → keys_in ks shape ≡ []
      → (k : String) → In k ks
      → is_in k shape ≡ false
  unfolding keys_in
  keys_in-nil ks shape h k m = filtered-nil (λ k. is_in k shape) ks h k m

  pub keys_not_in-nil :
      (ks : List String) (shape : Shape N)
      → keys_not_in ks shape ≡ []
      → (k : String) → In k ks
      → is_in k shape ≡ true
  unfolding keys_not_in
  keys_not_in-nil ks shape h k m =
      not-eq_false (is_in k shape) (filtered-nil (λ k. not (is_in k shape)) ks h k m)
