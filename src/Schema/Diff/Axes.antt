-- ===== src/Schema/Diff/Axes.antt =====
-- registry/diff.ts of packages/schema: the parts of a node that are compared one by one, but for the
-- absence axis, the refinements and the fields of an object.
use neko_stack.Common.{String, Bool, Option, none, some, List, [], ◌∷◌, ◌++◌, ◌==◌, if◌then◌else◌}
use neko_stack.Js.Text.{template}
use neko_stack.Js.JsMap.{includes}
use neko_stack.Js.Json.{JsNumber, Json, stringify, num, str}
use neko_stack.Schema.Issues.{IssuePath}
use neko_stack.Schema.Ir.{NodeMetadata, NodeModifiers, EnumValue}
use neko_stack.Schema.Diff.Changes.{
  breaking, additive, cosmetic, DiffChange, Shown, schema_version_changed, metadata_changed,
  default_added, default_removed, default_value_changed, enum_value_added, enum_value_removed,
  literal_changed,
}
use neko_stack.Schema.Diff.Compare.{
  same_text, or_null, flag_text, same_flag, is_true, metadata_or_empty, modifiers_or_empty,
}

module _ {N : Type 0} where
  abbrev pub shown_text : Option String → Option (Shown N)
  shown_text none = some Shown.null
  shown_text (some a) = some (Shown.text a)

  unfoldable pub diff_metadata :
      Option NodeMetadata → Option NodeMetadata → IssuePath → List (DiffChange N)
  unfolding template
  diff_metadata before after path =
      let b = metadata_or_empty before in
      let a = metadata_or_empty after in
      (if same_text b.version a.version
        then []
        else record {
          severity = cosmetic;
          path = path;
          kind = schema_version_changed;
          before = shown_text b.version;
          after = shown_text a.version;
          message = template (
              "schemaVersion changed from `"
              ∷ or_null b.version
              ∷ "` to `"
              ∷ or_null a.version
              ∷ "`"
              ∷ []);
        }
          ∷ [])
      ++ (if same_text b.description a.description
          then []
          else record {
            severity = cosmetic;
            path = path;
            kind = metadata_changed;
            before = shown_text b.description;
            after = shown_text a.description;
            message = "Description changed";
          }
            ∷ [])
      ++ (if same_flag (is_true b.deprecated) (is_true a.deprecated)
          then []
          else record {
            severity = cosmetic;
            path = path;
            kind = metadata_changed;
            before = some (Shown.flag (is_true b.deprecated));
            after = some (Shown.flag (is_true a.deprecated));
            message =
                template ("Deprecated flag changed to " ∷ flag_text (is_true a.deprecated) ∷ []);
          }
            ∷ [])
      ++ (if same_text b.id a.id
          then []
          else record {
            severity = cosmetic;
            path = path;
            kind = metadata_changed;
            before = shown_text b.id;
            after = shown_text a.id;
            message =
                template
                  ("schemaId changed from `" ∷ or_null b.id ∷ "` to `" ∷ or_null a.id ∷ "`" ∷ []);
          }
            ∷ [])

module _ {N : Type 0} ⦃number : JsNumber N⦄ where
  unfoldable pub json_equal : Json N → Json N → Bool
  json_equal a b = stringify a == stringify b

  unfoldable pub diff_default_values :
      Option (Json N) → Option (Json N) → IssuePath → List (DiffChange N)
  unfolding json_equal template
  diff_default_values none none path = []
  diff_default_values none (some a) path =
      record {
        severity = additive;
        path = path;
        kind = default_added;
        before = none;
        after = some (Shown.json a);
        message = template ("Default added (value: " ∷ stringify a ∷ ")" ∷ []);
      }
      ∷ []
  diff_default_values (some b) none path =
      record {
        severity = breaking;
        path = path;
        kind = default_removed;
        before = some (Shown.json b);
        after = none;
        message = template ("Default removed (was: " ∷ stringify b ∷ ")" ∷ []);
      }
      ∷ []
  diff_default_values (some b) (some a) path =
      if json_equal b a
      then []
      else record {
        severity = breaking;
        path = path;
        kind = default_value_changed;
        before = some (Shown.json b);
        after = some (Shown.json a);
        message =
            template ("Default value changed from " ∷ stringify b ∷ " to " ∷ stringify a ∷ []);
      }
        ∷ []

  unfoldable pub diff_default :
      Option (NodeModifiers N) → Option (NodeModifiers N) → IssuePath → List (DiffChange N)
  unfolding diff_default_values
  diff_default before after path =
      diff_default_values (modifiers_or_empty before).default_value
        (modifiers_or_empty after).default_value path

module _ {N : Type 0} ⦃number : JsNumber N⦄ where
  abbrev pub enum_json : EnumValue N → Json N
  enum_json (EnumValue.text s) = str s
  enum_json (EnumValue.number n) = num n

  -- for (const v of after) if (!beforeSet.has(JSON.stringify(v))) …
  unfoldable pub enum_added : List String → List (EnumValue N) → IssuePath → List (DiffChange N)
  unfolding template includes
  enum_added known [] path = []
  enum_added known (v ∷ vs) path =
      let rest = enum_added known vs path in
      if includes (stringify (enum_json v)) known
      then rest
      else record {
        severity = additive;
        path = path;
        kind = enum_value_added;
        before = none;
        after = some (Shown.json (enum_json v));
        message = template ("Enum value added: " ∷ stringify (enum_json v) ∷ []);
      }
        ∷ rest

  unfoldable pub enum_removed : List String → List (EnumValue N) → IssuePath → List (DiffChange N)
  unfolding template includes
  enum_removed kept [] path = []
  enum_removed kept (v ∷ vs) path =
      let rest = enum_removed kept vs path in
      if includes (stringify (enum_json v)) kept
      then rest
      else record {
        severity = breaking;
        path = path;
        kind = enum_value_removed;
        before = some (Shown.json (enum_json v));
        after = none;
        message = template ("Enum value removed: " ∷ stringify (enum_json v) ∷ []);
      }
        ∷ rest

  abbrev pub enum_texts : List (EnumValue N) → List String
  enum_texts [] = []
  enum_texts (v ∷ vs) = stringify (enum_json v) ∷ enum_texts vs

  unfoldable pub diff_enum :
      List (EnumValue N) → List (EnumValue N) → IssuePath → List (DiffChange N)
  unfolding enum_added enum_removed
  diff_enum before after path =
      enum_added (enum_texts before) after path ++ enum_removed (enum_texts after) before path

  unfoldable pub diff_literal : Json N → Json N → IssuePath → List (DiffChange N)
  unfolding json_equal template
  diff_literal before after path =
      if json_equal before after
      then []
      else record {
        severity = breaking;
        path = path;
        kind = literal_changed;
        before = some (Shown.json before);
        after = some (Shown.json after);
        message =
            template ("Literal changed from " ∷ stringify before ∷ " to " ∷ stringify after ∷ []);
      }
        ∷ []
