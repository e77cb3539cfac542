-- ===== src/Rules/Triggers/Rewriting.antt =====
-- triggers.rs: writing a YAML anew with changed values.
use Prim.Native.Char.{code}
use Prim.Native.String
use archipelago_xl.Base.{
  ℕ, zero, suc, ◌+◌, String, Bool, true, false, Option, none, some, unwrap_or, List, [], ◌∷◌, ◌++◌,
  any, ◌==◌, str_eq, if◌then◌else◌,
}
use archipelago_xl.Rules.Text.{i64_to_string}
use archipelago_xl.Rules.Values.{Crates}
use archipelago_xl.Rules.Triggers.{Loader}

abbrev bool_text : Bool → String
bool_text true = "true"
bool_text false = "false"

-- `str::replace` of one character
abbrev replace_char : ℕ → String → String → String
replace_char c text String.[] = String.[]
replace_char c text (String.◌∷◌ d s) =
    let rest = replace_char c text s in
    if code d == c then String.◌++◌ text rest else String.◌∷◌ d rest

abbrev spaces : ℕ → String
spaces zero = String.[]
spaces (suc n) = String.◌++◌ " " (spaces n)

-- `join("\n")`
abbrev lines_to_text : List String → String
lines_to_text [] = String.[]
lines_to_text (s ∷ []) = s
lines_to_text (s ∷ t ∷ rest) = String.◌++◌ s (String.◌++◌ "\n" (lines_to_text (t ∷ rest)))

module _ (y : Crates) (loader : Loader y) where
  open y use {Value, as_str, as_bool, as_integer, as_sequence, as_mapping}

  unfoldable pub yaml_value_to_inline : Value → String
  unfolding i64_to_string
  yaml_value_to_inline val = elim (as_str val) [
    | some s ↦
        String.◌++◌ "\"" (String.◌++◌ (replace_char 34 "\\\"" (replace_char 92 "\\\\" s)) "\"")
    | none ↦ elim (as_bool val) [
      | some b ↦ bool_text b
      | none ↦ elim (as_integer val) [
        | some i ↦ i64_to_string i
        | none ↦ unwrap_or (loader.as_floating_point val) "null"
      ]
    ]
  ]

  abbrev pub item_lines : String → List Value → List String → List String
  item_lines prefix [] lines = lines
  item_lines prefix (item ∷ items) lines =
      item_lines prefix items
        (lines ++ (String.◌++◌ prefix (String.◌++◌ "- " (yaml_value_to_inline item)) ∷ []))

  abbrev pub key_text : Value → String
  key_text k = unwrap_or (as_str k) String.[]

  -- each entry of a mapping, at one indentation
  abbrev pub each_entry :
      (String → Value → ℕ → List String → List String)
      → List (Value × Value)
      → ℕ
      → List String
      → List String
  each_entry serialize [] indent lines = lines
  each_entry serialize ((k, v) ∷ entries) indent lines =
      each_entry serialize entries indent (serialize (key_text k) v indent lines)

  abbrev pub key_line : ℕ → String → String → String
  key_line indent key rest = String.◌++◌ (spaces indent) (String.◌++◌ key (String.◌++◌ ":" rest))

  -- the lines of a key with a scalar or a list
  abbrev pub leaf_lines : Option (List Value) → String → Value → ℕ → List String → List String
  leaf_lines (some items) key value indent lines =
      item_lines (String.◌++◌ (spaces indent) "  ") items (lines ++ (key_line indent key "" ∷ []))
  leaf_lines none key value indent lines =
      lines ++ (key_line indent key (String.◌++◌ " " (yaml_value_to_inline value)) ∷ [])

  abbrev pub entry_lines :
      (String → Value → ℕ → List String → List String)
      → Option (List (Value × Value))
      → String
      → Value
      → ℕ
      → List String
      → List String
  entry_lines serialize (some entries) key value indent lines =
      each_entry serialize entries (indent + 2) (lines ++ (key_line indent key "" ∷ []))
  entry_lines serialize none key value indent lines =
      leaf_lines (as_sequence value) key value indent lines

  -- on fuel, of which more than the height of the value is enough
  unfoldable pub serialize_yaml_entry : ℕ → String → Value → ℕ → List String → List String
  serialize_yaml_entry zero key value indent lines = lines
  serialize_yaml_entry (suc fuel) key value indent lines =
      entry_lines (serialize_yaml_entry fuel) (as_mapping value) key value indent lines

  abbrev pub entry_of : String → Value → ℕ → List String → List String
  entry_of key value = serialize_yaml_entry (suc (loader.height value)) key value

  unfoldable pub serialize_yaml_value : Value → ℕ → List String → List String
  serialize_yaml_value value indent lines = elim (as_mapping value) [
    | some entries ↦ each_entry entry_of entries indent lines
    | none ↦ elim (as_sequence value) [
      | some items ↦ item_lines (spaces indent) items lines
      | none ↦ lines ++ (String.◌++◌ (spaces indent) (yaml_value_to_inline value) ∷ [])
    ]
  ]

  -- a change: the game, the key and the new value
  abbrev pub Change : Type 0
  Change = (String × String) × Value

  -- the changes of a game, by key
  abbrev pub changes_of : String → List Change → List (String × Value)
  changes_of game [] = []
  changes_of game (((g, k), v) ∷ changes) =
      let rest = changes_of game changes in if str_eq g game then (k, v) ∷ rest else rest

  abbrev pub changed : String → List (String × Value) → Option Value
  changed key [] = none
  changed key ((k, v) ∷ changes) =
      let rest = changed key changes in if str_eq k key then some v else rest

  abbrev pub game_lines : List (String × Value) → List (Value × Value) → List String → List String
  game_lines changes [] lines = lines
  game_lines changes ((k, v) ∷ entries) lines =
      game_lines changes entries
        (entry_of (key_text k) (unwrap_or (changed (key_text k) changes) v) 2 lines)

  abbrev pub is_seen : List (Value × Value) → String → Bool
  is_seen entries key = any (λ (e : Value × Value). str_eq (key_text (e.0)) key) entries

  -- the changes whose key the game did not have
  abbrev pub new_lines : List (Value × Value) → List (String × Value) → List String → List String
  new_lines entries [] lines = lines
  new_lines entries ((k, v) ∷ changes) lines =
      new_lines entries changes (if is_seen entries k then lines else entry_of k v 2 lines)

  abbrev pub section_lines : List (String × Value) → Value → List String → List String
  section_lines [] top_val lines = serialize_yaml_value top_val 2 lines
  section_lines (c ∷ changes) top_val lines = elim (as_mapping top_val) [
    | none ↦ serialize_yaml_value top_val 2 lines
    | some entries ↦
        new_lines entries (loader.hash_order (c ∷ changes)) (game_lines (c ∷ changes) entries lines)
  ]

  abbrev pub top_lines : List (Value × Value) → List Change → List String → List String
  top_lines [] changes lines = lines
  top_lines ((top_key, top_val) ∷ entries) changes lines = top_lines entries changes (
      section_lines (changes_of (key_text top_key) changes) top_val
        (lines ++ (String.◌++◌ (key_text top_key) ":" ∷ [])))

  abbrev pub last : List Value → Option Value
  last [] = none
  last (v ∷ []) = some v
  last (v ∷ w ∷ vs) = last (w ∷ vs)

  -- `load_from_str(..).ok().and_then(|mut docs| docs.pop()).unwrap_or_else(..)`
  abbrev pub load_or : String → Value → Value
  load_or text fallback = elim (loader.load_from_str text) [
    | none ↦ fallback
    | some docs ↦ unwrap_or (last docs) fallback
  ]

  unfoldable pub set_yaml_values : Value → List Change → Value
  set_yaml_values yaml changes = elim (as_mapping yaml) [
    | none ↦ yaml
    | some entries ↦ load_or (lines_to_text (top_lines entries changes [])) yaml
  ]

  abbrev pub existing_items : Option Value → List Value
  existing_items none = []
  existing_items (some existing) = unwrap_or (as_sequence existing) []

  abbrev pub added_items : Value → List Value
  added_items addition = elim (as_sequence addition) [ some items ↦ items | none ↦ addition ∷ [] ]

  unfoldable pub merge_additive : Option Value → Value → Value
  merge_additive existing addition =
      load_or
        (lines_to_text
          (item_lines "" (added_items addition) (item_lines "" (existing_items existing) [])))
        addition
