-- ===== src/Schema/Builders/Merge.antt =====
-- `merge` of builders/object.ts of packages/schema.
use neko_stack.Common.{String, Bool, Option, none, some, List, [], ◌∷◌, ◌++◌, ◌==◌, if◌then◌else◌}
use neko_stack.Js.Throws.{Outcome, returned, threw, ◌>>=◌}
use neko_stack.Schema.Ir.{UnknownKeysPolicy}
use neko_stack.Schema.Diff.Absence.{policy_text}
use neko_stack.Schema.Builders.{Schema, Shape, empty, entry}
use neko_stack.Schema.Builders.Shapes.{is_in, put}
use neko_stack.Schema.Builders.Causes.{merge_cause, policy_cause, unless_some}
use neko_stack.Schema.Builders.Compose.{ObjectSchema, composed_object}

-- The values of both options: "throw" is what an option that is not given stands for.
pub data Conflict : Type 0 where
  throws left right : Conflict

pub record MergeOptions : Type 0 where
  pub conflict : Option Conflict
  pub unknown_keys : Option Conflict

abbrev pub or_throws : Option Conflict → Conflict
or_throws none = Conflict.throws
or_throws (some c) = c

-- The variables of the loop over the other shape.
pub record Merging (N : Type 0) : Type 0 where
  pub new_shape : Shape N
  pub collisions : List String

-- The policy for unknown keys.
unfoldable pub merge_policy :
    Conflict → UnknownKeysPolicy → UnknownKeysPolicy → Outcome UnknownKeysPolicy
unfolding policy_cause
merge_policy choice ours theirs =
    if policy_text ours == policy_text theirs then returned ours else elim choice [
      | Conflict.throws ↦ threw (policy_cause ours theirs)
      | Conflict.left ↦ returned ours
      | Conflict.right ↦ returned theirs
    ]

module _ {N : Type 0} where
  -- A round for a key that is in the shape, and for one that is not.
  unfoldable pub merge_present : Conflict → String → Schema N → Merging N → Merging N
  unfolding put
  merge_present Conflict.throws k s m = record m { collisions = m.collisions ++ k ∷ [] }
  merge_present Conflict.left k s m = m
  merge_present Conflict.right k s m = record m { new_shape = put k s m.new_shape }

  unfoldable pub merge_absent : String → Schema N → Merging N → Merging N
  unfolding put
  merge_absent k s m = record m { new_shape = put k s m.new_shape }

  unfoldable pub merge_round :
      Conflict → (present : Bool) → String → Schema N → Merging N → Merging N
  unfolding merge_present merge_absent
  merge_round conflict present k s m =
      if present then merge_present conflict k s m else merge_absent k s m

  unfoldable pub merge_fields : Conflict → Shape N → Shape N → Merging N → Merging N
  unfolding is_in merge_round
  merge_fields conflict shape empty m = m
  merge_fields conflict shape (entry k s other) m =
      merge_fields conflict shape other (merge_round conflict (is_in k shape) k s m)

  unfoldable pub merge : ObjectSchema N → ObjectSchema N → MergeOptions → Outcome (ObjectSchema N)
  unfolding merge_fields merge_policy composed_object merge_cause
  merge o other options =
      let merged =
        merge_fields (or_throws options.conflict) o.shape other.shape
          (record { new_shape = o.shape; collisions = [] }) in
      do
        shape ← unless_some merged.collisions merge_cause merged.new_shape
        policy ← merge_policy (or_throws options.unknown_keys) o.unknown_keys other.unknown_keys
        returned (composed_object shape policy)
