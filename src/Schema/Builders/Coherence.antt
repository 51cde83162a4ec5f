-- ===== src/Schema/Builders/Coherence.antt =====
-- What holds of every schema that the builders of packages/schema give: the node of an array's
-- element and those of an object's fields are the nodes of the schemas that it was built from.
use neko_stack.Common.{◌≡◌, refl, ap, subst, ◌∙◌, sym, Option, List, [], ◌∷◌}
use neko_stack.Js.JsMap.{keys}
use neko_stack.Js.Throws.{returned}
use neko_stack.Schema.Ir.{UnknownKeysPolicy, EnumValue}
use neko_stack.Schema.Builders.{
  Schema, enum_schema, Shape, empty, entry, no_base, fields_of, with_refinement, optional, nullable,
  nullish, default, id, version, describe, deprecated, s_enum, s_array, s_object,
}
use neko_stack.Schema.Builders.Shapes.{Mask, spread}
use neko_stack.Schema.Builders.Causes.{extend_cause, mask_cause, override_cause}
use neko_stack.Schema.Builders.Compose.{
  ObjectSchema, as_schema, composed_object, with_unknown_keys, extend, picked, pick, omitted, omit,
  with_mask, make_partial, make_required, affects, changed_where, partial, required, override,
}
use neko_stack.Schema.Builders.Merge.{MergeOptions, or_throws, merge_fields, merge}
use neko_stack.Schema.Builders.Lookup.{unless_some-returned}
use neko_stack.Schema.Builders.Modifiers.{with_keys-returned}
use neko_stack.Schema.Builders.Operators.{merge-returned, started}
use neko_stack.Schema.Builders.Nodes.{
  IsCoherent, IsCoherentShape, IsCoherent-clone, IsCoherentShape-spread, IsCoherentShape-omitted,
  IsCoherentShape-changed_where, IsCoherentShape-picked_keys, IsCoherentShape-merge_fields,
}
use neko_stack.Schema.Builders.Built.{
  IsBuilt, IsBuiltShape, by_string, by_number, by_boolean, by_literal, by_enum, by_array, by_object,
  by_optional, by_nullable, by_nullish, by_default, by_id, by_version, by_describe, by_deprecated,
  by_refined, by_unknown_keys, by_extended, by_picked, by_omitted, by_made_partial,
  by_made_required, by_overridden, by_merged, by_empty, by_entry,
}

module _ {N : Type 0} where
  -- What an operator that returns gives.
  composed :
      (shape : Shape N) (policy : UnknownKeysPolicy) (p : ObjectSchema N)
      → IsCoherentShape shape
      → composed_object shape policy ≡ p
      → IsCoherent (as_schema p)
  unfolding IsCoherent composed_object
  composed shape policy p h e = subst (λ (o : ObjectSchema N). IsCoherent (as_schema o)) e (refl, h)

  IsCoherent-make_partial : (s : Schema N) → IsCoherent s → IsCoherent (make_partial s)
  unfolding make_partial
  IsCoherent-make_partial s h = IsCoherent-clone s _ h

  IsCoherent-make_required : (s : Schema N) → IsCoherent s → IsCoherent (make_required s)
  unfolding make_required
  IsCoherent-make_required s h = IsCoherent-clone s _ h

  s_enum-IsCoherent :
      (values : List (EnumValue N)) (s : Schema N) → s_enum values ≡ returned s → IsCoherent s
  unfolding s_enum IsCoherent
  s_enum-IsCoherent [] s e = cc
  s_enum-IsCoherent (v ∷ vs) s e =
      let p : enum_schema no_base (v ∷ vs) ≡ s = cc in subst IsCoherent p tt

  IsCoherent-merged :
      (o other p : ObjectSchema N) (options : MergeOptions)
      → IsCoherentShape o.shape
      → IsCoherentShape other.shape
      → merge o other options ≡ returned p
      → IsCoherent (as_schema p)
  unfolding IsCoherent started
  IsCoherent-merged o other p options h g e =
      let m = merge_fields (or_throws options.conflict) o.shape other.shape (started o) in
      let (_, shape, fields) = merge-returned o other p options e in
      (
        fields ∙ ap fields_of (sym shape),
        subst IsCoherentShape (sym shape) (
            IsCoherentShape-merge_fields (or_throws options.conflict) o.shape other.shape
              (started o) g h),
      )

  -- The operators on an object whose shape is coherent.
  module _ (o p : ObjectSchema N) (h : IsCoherentShape o.shape) where
    extended :
        (extension : Shape N)
        → IsCoherentShape extension
        → extend o extension ≡ returned p
        → IsCoherent (as_schema p)
    unfolding extend
    extended extension g e =
        composed (spread o.shape extension) o.unknown_keys p
          (IsCoherentShape-spread o.shape extension h g)
          (unless_some-returned _ extend_cause _ p e).1

    overridden :
        (overrides : Shape N)
        → IsCoherentShape overrides
        → override o overrides ≡ returned p
        → IsCoherent (as_schema p)
    unfolding override
    overridden overrides g e =
        composed (spread o.shape overrides) o.unknown_keys p
          (IsCoherentShape-spread o.shape overrides h g)
          (unless_some-returned _ override_cause _ p e).1

    picked_by : (mask : Mask) → pick o mask ≡ returned p → IsCoherent (as_schema p)
    unfolding pick with_mask
    picked_by mask e =
        composed (picked (keys mask) mask o.shape empty) o.unknown_keys p
          (IsCoherentShape-picked_keys (keys mask) mask o.shape h)
          (unless_some-returned _ (mask_cause "pick") _ p e).1

    omitted_by : (mask : Mask) → omit o mask ≡ returned p → IsCoherent (as_schema p)
    unfolding omit with_mask
    omitted_by mask e =
        composed (omitted mask o.shape) o.unknown_keys p (IsCoherentShape-omitted mask o.shape h)
          (unless_some-returned _ (mask_cause "omit") _ p e).1

    made_partial : (mask : Option Mask) → partial o mask ≡ returned p → IsCoherent (as_schema p)
    unfolding partial
    made_partial mask e =
        composed (changed_where (affects mask) make_partial o.shape) o.unknown_keys p
          (IsCoherentShape-changed_where (affects mask) make_partial IsCoherent-make_partial o.shape
            h)
          (with_keys-returned "partial" mask o.shape _ p e)

    made_required : (mask : Option Mask) → required o mask ≡ returned p → IsCoherent (as_schema p)
    unfolding required
    made_required mask e =
        composed (changed_where (affects mask) make_required o.shape) o.unknown_keys p
          (IsCoherentShape-changed_where (affects mask) make_required IsCoherent-make_required
            o.shape h)
          (with_keys-returned "required" mask o.shape _ p e)

  mutual
    unfolding IsCoherent IsCoherentShape optional nullable nullish default id version describe
        deprecated with_refinement with_unknown_keys s_array s_object

    built-IsCoherent : (s : Schema N) → IsBuilt s → IsCoherent s
    built-IsCoherent s by_string = tt
    built-IsCoherent s by_number = tt
    built-IsCoherent s by_boolean = tt
    built-IsCoherent s (by_literal value) = tt
    built-IsCoherent s (by_enum values e) = s_enum-IsCoherent values s e
    built-IsCoherent s (by_array h) = (refl, built-IsCoherent _ h)
    built-IsCoherent s (by_object h) = (refl, built-IsCoherentShape _ h)
    built-IsCoherent s (by_optional {s = t} h) = IsCoherent-clone t _ (built-IsCoherent t h)
    built-IsCoherent s (by_nullable {s = t} h) = IsCoherent-clone t _ (built-IsCoherent t h)
    built-IsCoherent s (by_nullish {s = t} h) = IsCoherent-clone t _ (built-IsCoherent t h)
    built-IsCoherent s (by_default {s = t} _ h) = IsCoherent-clone t _ (built-IsCoherent t h)
    built-IsCoherent s (by_id {s = t} _ h) = IsCoherent-clone t _ (built-IsCoherent t h)
    built-IsCoherent s (by_version {s = t} _ h) = IsCoherent-clone t _ (built-IsCoherent t h)
    built-IsCoherent s (by_describe {s = t} _ h) = IsCoherent-clone t _ (built-IsCoherent t h)
    built-IsCoherent s (by_deprecated {s = t} _ h) = IsCoherent-clone t _ (built-IsCoherent t h)
    built-IsCoherent s (by_refined {s = t} _ h) = IsCoherent-clone t _ (built-IsCoherent t h)
    built-IsCoherent s (by_unknown_keys o _ h) = built-IsCoherent (as_schema o) h
    built-IsCoherent s (by_extended o p extension h g e) =
        extended o p (built-IsCoherent (as_schema o) h).1 extension
          (built-IsCoherentShape extension g) e
    built-IsCoherent s (by_picked o p mask h e) =
        picked_by o p (built-IsCoherent (as_schema o) h).1 mask e
    built-IsCoherent s (by_omitted o p mask h e) =
        omitted_by o p (built-IsCoherent (as_schema o) h).1 mask e
    built-IsCoherent s (by_made_partial o p mask h e) =
        made_partial o p (built-IsCoherent (as_schema o) h).1 mask e
    built-IsCoherent s (by_made_required o p mask h e) =
        made_required o p (built-IsCoherent (as_schema o) h).1 mask e
    built-IsCoherent s (by_overridden o p overrides h g e) =
        overridden o p (built-IsCoherent (as_schema o) h).1 overrides
          (built-IsCoherentShape overrides g) e
    built-IsCoherent s (by_merged o other p options h g e) =
        IsCoherent-merged o other p options (built-IsCoherent (as_schema o) h).1
          (built-IsCoherent (as_schema other) g).1 e

    built-IsCoherentShape : (shape : Shape N) → IsBuiltShape shape → IsCoherentShape shape
    built-IsCoherentShape shape by_empty = tt
    built-IsCoherentShape (entry k s shape) (by_entry fresh h g) =
        (fresh, built-IsCoherent s h, built-IsCoherentShape shape g)

  -- Every schema that calls of the builders give is coherent: in it, also below, the node of an
  -- array has its element's node, the fields of an object are the nodes of its shape, under the
  -- same keys, and no key of a shape stands twice.
  pub IsBuilt-IsCoherent : (s : Schema N) → IsBuilt s → IsCoherent s
  IsBuilt-IsCoherent s h = built-IsCoherent s h
