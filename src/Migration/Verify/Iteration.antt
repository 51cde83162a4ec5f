-- ===== src/Migration/Verify/Iteration.antt =====
-- `iterateRegistry` of migrations/verify-provenance.ts of packages/schema: which entries it
-- yields.
use neko_stack.Common.{
  String, ◌≡◌, refl, sym, ap, ◌∙◌, subst, some, List, [], ◌∷◌, arith, ◌==◌, eq_iff, inl, inr, ◌⊎◌,
  ◌↔◌, In, In-append, In-append_left, In-append_right, Bool-cases, Option-cases,
}
use neko_stack.Js.Text.{text_lt, insert, sort}
use neko_stack.Js.JsMap.{JsMap, get, keys}
use neko_stack.Migration.Types.{MigrationEntry, Adjacency, MigrationRegistry}
use neko_stack.Migration.Plan.{find_exact_migration}
use neko_stack.Migration.Verify.{entries_at, entries_from, entries_of, iterate_registry}

In-insert : (k s : String) (ts : List String) → In k (insert s ts) ↔ ((k ≡ s) ⊎ In k ts)
unfolding insert
In-insert k s [] = (λ h. h, λ h. h)
In-insert k s (t ∷ ts) = elim (Bool-cases (text_lt t s)) [
  | inl e ↦
      let rest = In-insert k s ts in rw e (λ h. ground (arith, rest), λ h. ground (arith, rest))
  | inr e ↦ rw e (λ h. h, λ h. h)
]

In-sort : (k : String) (ts : List String) → In k (sort ts) ↔ In k ts
unfolding sort
In-sort k [] = (λ h. h, λ h. h)
In-sort k (t ∷ ts) =
    let rest = In-sort k ts in
    let here = In-insert k t (sort ts) in
    (λ h. ground (arith, rest, here), λ h. ground (arith, rest, here))

In-keys : {A : Type 0} (k : String) (m : JsMap A) (a : A) → get k m ≡ some a → In k (keys m)
unfolding get keys
In-keys k [] a h = cc
In-keys k ((j, v) ∷ m) a h = ground (arith, eq_iff j k, In-keys k m a)

In-keys_inv : {A : Type 0} (k : String) (m : JsMap A) → In k (keys m) → (a : A) × (get k m ≡ some a)
unfolding get keys
In-keys_inv k [] h = elim h [ ]
In-keys_inv k ((j, v) ∷ m) h = elim (Bool-cases (j == k)) [
  | inl e ↦ (v, rw e refl)
  | inr e ↦ elim h [
    | inl same ↦ absurd (ground (arith, eq_iff j k))
    | inr there ↦ let (a, found) = In-keys_inv k m there in (a, rw e found)
  ]
]

-- A key that is in a map is among its sorted keys.
In-sort-keys :
    {A : Type 0} (k : String) (m : JsMap A) (a : A) → get k m ≡ some a → In k (sort (keys m))
In-sort-keys k m a h = (In-sort k (keys m)).1 (In-keys k m a h)

module _ {V : Type 0} where
  In-entries_at :
      (e : MigrationEntry V) (by_to : JsMap (MigrationEntry V)) (ks : List String)
      → In e (entries_at by_to ks) ↔ ((t : String) × In t ks × (get t by_to ≡ some e))
  unfolding entries_at
  In-entries_at e by_to [] = (λ h. elim h [ ], λ h. elim h.1 [ ])
  In-entries_at e by_to (k ∷ ks) =
      let (ahead, back) = In-entries_at e by_to ks in
      elim (Option-cases (get k by_to)) [
        | inl nothing ↦
            rw (nothing, entries_at)
              (
                λ h. let (t, m, found) = ahead h in (t, inr m, found),
                λ w.
                    let (t, m, found) = w in
                    elim m [
                      | inl same ↦ cc (rw same at found)
                      | inr there ↦ back (t, there, found)
                    ],
              )
        | inr (entry, here) ↦
            rw (here, entries_at)
              (
                λ h. elim h [
                  | inl same ↦ (k, inl refl, here ∙ ap some (sym same))
                  | inr later ↦ let (t, m, found) = ahead later in (t, inr m, found)
                ],
                λ w.
                    let (t, m, found) = w in
                    elim m [
                      | inl same ↦ inl (cc (rw same at found))
                      | inr there ↦ inr (back (t, there, found))
                    ],
              )
      ]

  In-entries_from :
      (e : MigrationEntry V) (by_from : Adjacency V) (ks : List String)
      → In e (entries_from by_from ks) ↔ (
          (f : String) × In f ks
          × (by_to : JsMap (MigrationEntry V)) × (get f by_from ≡ some by_to)
          × In e (entries_at by_to (sort (keys by_to))))
  unfolding entries_from
  In-entries_from e by_from [] = (λ h. elim h [ ], λ h. elim h.1 [ ])
  In-entries_from e by_from (k ∷ ks) =
      let (ahead, back) = In-entries_from e by_from ks in
      elim (Option-cases (get k by_from)) [
        | inl nothing ↦
            rw (nothing, entries_from)
              (
                λ h. let (t, m, b, found, i) = ahead h in (t, inr m, b, found, i),
                λ w.
                    let (t, m, b, found, i) = w in
                    elim m [
                      | inl same ↦ cc (rw same at found)
                      | inr there ↦ back (t, there, b, found, i)
                    ],
              )
        | inr (by_to, here) ↦
            rw (here, entries_from)
              (
                λ h. elim (In-append e (entries_at by_to (sort (keys by_to))) _ h) [
                  | inl now ↦ (k, inl refl, by_to, here, now)
                  | inr later ↦ let (t, m, b, found, i) = ahead later in (t, inr m, b, found, i)
                ],
                λ w.
                    let (t, m, b, found, i) = w in
                    elim m [
                      | inl same ↦
                          let p : b ≡ by_to = cc (rw same at found) in
                          In-append_left e _ _
                            (subst (λ x. In e (entries_at x (sort (keys x)))) p i)
                      | inr there ↦
                          In-append_right e (entries_at by_to (sort (keys by_to))) _
                            (back (t, there, b, found, i))
                    ],
              )
      ]

  In-entries_of :
      (e : MigrationEntry V) (registry : MigrationRegistry V) (ks : List String)
      → In e (entries_of registry ks) ↔ (
          (f : String) × In f ks
          × (by_from : Adjacency V) × (get f registry ≡ some by_from)
          × In e (entries_from by_from (sort (keys by_from))))
  unfolding entries_of
  In-entries_of e registry [] = (λ h. elim h [ ], λ h. elim h.1 [ ])
  In-entries_of e registry (k ∷ ks) =
      let (ahead, back) = In-entries_of e registry ks in
      elim (Option-cases (get k registry)) [
        | inl nothing ↦
            rw (nothing, entries_of)
              (
                λ h. let (t, m, b, found, i) = ahead h in (t, inr m, b, found, i),
                λ w.
                    let (t, m, b, found, i) = w in
                    elim m [
                      | inl same ↦ cc (rw same at found)
                      | inr there ↦ back (t, there, b, found, i)
                    ],
              )
        | inr (by_from, here) ↦
            rw (here, entries_of)
              (
                λ h. elim (In-append e (entries_from by_from (sort (keys by_from))) _ h) [
                  | inl now ↦ (k, inl refl, by_from, here, now)
                  | inr later ↦ let (t, m, b, found, i) = ahead later in (t, inr m, b, found, i)
                ],
                λ w.
                    let (t, m, b, found, i) = w in
                    elim m [
                      | inl same ↦
                          let p : b ≡ by_from = cc (rw same at found) in
                          In-append_left e _ _
                            (subst (λ x. In e (entries_from x (sort (keys x)))) p i)
                      | inr there ↦
                          In-append_right e (entries_from by_from (sort (keys by_from))) _
                            (back (t, there, b, found, i))
                    ],
              )
      ]

  -- The two inner maps on the way to an entry.
  find_exact_migration-some :
      (registry : MigrationRegistry V) (s f t : String) (e : MigrationEntry V)
      → find_exact_migration registry s f t ≡ some e
      → (by_from : Adjacency V) × (by_to : JsMap (MigrationEntry V)) × (get s registry
          ≡ some by_from)
        × (get f by_from ≡ some by_to)
        × (get t by_to ≡ some e)
  unfolding find_exact_migration
  find_exact_migration-some registry s f t e h = elim (Option-cases (get s registry)) [
    | inl nothing ↦ cc (rw (nothing, find_exact_migration) at h)
    | inr (by_from, found_s) ↦ elim (Option-cases (get f by_from)) [
      | inl nothing ↦ cc (rw (found_s, find_exact_migration, nothing) at h)
      | inr (by_to, found_f) ↦
          (by_from, by_to, found_s, found_f, rw (found_s, find_exact_migration, found_f) at h)
    ]
  ]

  -- The iteration yields an entry exactly where the three maps file it under some schema id and two
  -- versions.
  pub In-iterate_registry_iff :
      (e : MigrationEntry V) (registry : MigrationRegistry V)
      → In e (iterate_registry registry) ↔ (
          (schema_id from_version to_version : String) × (find_exact_migration registry schema_id
              from_version to_version
            ≡ some e))
  unfolding iterate_registry find_exact_migration
  In-iterate_registry_iff e registry = (
    λ h.
        let (s, _, by_from, found_s, i) = (In-entries_of e registry _).0 h in
        let (f, _, by_to, found_f, j) = (In-entries_from e by_from _).0 i in
        let (t, _, found_t) = (In-entries_at e by_to _).0 j in
        (s, f, t, rw (found_s, find_exact_migration, found_f) found_t),
    λ w.
        let (s, f, t, found) = w in
        let (by_from, by_to, found_s, found_f, found_t) =
          find_exact_migration-some registry s f t e found in
        let at = (In-entries_at e by_to _).1 (t, In-sort-keys t by_to e found_t, found_t) in
        let from =
          (In-entries_from e by_from _).1
            (f, In-sort-keys f by_from by_to found_f, by_to, found_f, at) in
        (In-entries_of e registry _).1
          (s, In-sort-keys s registry by_from found_s, by_from, found_s, from),
  )
