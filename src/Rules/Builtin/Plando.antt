-- ===== src/Rules/Builtin/Plando.antt =====
-- When the rule against plando for other players fails.
use Prim.Native.String
use archipelago_xl.Base.{
  ◌≡◌, refl, String, Bool, true, false, not, ◌&&◌, ◌||◌, Option, none, some, List, [], ◌∷◌, ◌++◌,
  any, str_eq, eq_iff, arith, if◌then◌else◌, ◌∙◌, ap,
}
use archipelago_xl.Rules.Values.{Crates}
use archipelago_xl.Rules.Syntax.{Outcome, pass, fail, skipped}
use archipelago_xl.Rules.Builtin.{
  RoomYaml, contains_name, check_name, check_items, check_keys, check_sequence, check_mapping,
  check_value_for_player_names, check_field, check_plando_entry_for_cross_refs, check_entries,
  other_names, result_of, violations_of, evaluate_plando, evaluate_section, no_cross_plando,
}

module _ (y : Crates) (room : List RoomYaml) (player : String) where
  open y use {Value, as_str, as_sequence, as_mapping, as_mapping_get}

  -- the name of a player of the room other than this one
  abbrev pub is_other : String → Bool
  is_other name = any (λ (r : RoomYaml). str_eq r.player_name name) room && not (str_eq name player)

  abbrev pub is_other_value : Value → Bool
  is_other_value val = elim (as_str val) [ none ↦ false | some name ↦ is_other name ]

  abbrev pub any_item : Option (List Value) → Bool
  any_item none = false
  any_item (some items) = any is_other_value items

  abbrev pub any_key : Option (List (Value × Value)) → Bool
  any_key none = false
  any_key (some entries) = any (λ (e : Value × Value). is_other_value (e.0)) entries

  -- the value itself, an item of it or a key of it is another player's name
  abbrev pub names_other : Value → Bool
  names_other val = is_other_value val || any_item (as_sequence val) || any_key (as_mapping val)

  abbrev pub field_names_other : Value → String → Bool
  field_names_other entry field = elim (as_mapping_get entry field) [
    | none ↦ false
    | some val ↦ names_other val
  ]

  abbrev pub entry_names_other : Value → Bool
  entry_names_other entry =
      field_names_other entry "from_player"
      || field_names_other entry "to_player"
      || field_names_other entry "world"

  abbrev pub plando_names_other : Value → Bool
  plando_names_other plando = elim (as_sequence plando) [
    | none ↦ false
    | some entries ↦ any entry_names_other entries
  ]

  abbrev others : List String
  others = other_names y room player

  contains-others : (name : String) → contains_name y others name ≡ is_other name
  contains-others name = go room
    where
      go :
          (rs : List RoomYaml)
          → contains_name y (other_names y rs player) name
            ≡ (any (λ (r : RoomYaml). str_eq r.player_name name) rs && not (str_eq name player))
      go [] = refl
      go (r ∷ rs) =
          ground (
            arith,
            go rs,
            eq_iff r.player_name name,
            eq_iff r.player_name player,
            eq_iff name player,
          )

  abbrev is_found : List String → Bool
  is_found [] = false
  is_found (_ ∷ _) = true

  is_found-end : (xs : List String) (x : String) → is_found (xs ++ (x ∷ [])) ≡ true
  is_found-end [] x = refl
  is_found-end (_ ∷ _) x = refl

  found-check_name :
      (o : Option String) (field : String) (vs : List String)
      → is_found (check_name y o field others vs)
        ≡ (elim o [ none ↦ false | some name ↦ is_other name ] || is_found vs)
  found-check_name none field vs = refl
  found-check_name (some name) field vs =
      ground
        (arith, contains-others name, is_found-end vs (String.◌++◌ field (String.◌++◌ ": " name)))

  found-check_items :
      (items : List Value) (field : String) (vs : List String)
      → is_found (check_items y items field others vs) ≡ (any is_other_value items || is_found vs)
  found-check_items [] field vs = refl
  found-check_items (item ∷ items) field vs = ground (
    arith,
    found-check_items items field (check_name y (as_str item) field others vs),
    found-check_name (as_str item) field vs,
  )

  found-check_keys :
      (entries : List (Value × Value)) (field : String) (vs : List String)
      → is_found (check_keys y entries field others vs)
        ≡ (any (λ (e : Value × Value). is_other_value (e.0)) entries || is_found vs)
  found-check_keys [] field vs = refl
  found-check_keys ((key, _) ∷ entries) field vs = ground (
    arith,
    found-check_keys entries field (check_name y (as_str key) field others vs),
    found-check_name (as_str key) field vs,
  )

  found-check_sequence :
      (o : Option (List Value)) (field : String) (vs : List String)
      → is_found (check_sequence y o field others vs) ≡ (any_item o || is_found vs)
  found-check_sequence none field vs = refl
  found-check_sequence (some items) field vs = found-check_items items field vs

  found-check_mapping :
      (o : Option (List (Value × Value))) (field : String) (vs : List String)
      → is_found (check_mapping y o field others vs) ≡ (any_key o || is_found vs)
  found-check_mapping none field vs = refl
  found-check_mapping (some entries) field vs = found-check_keys entries field vs

  or_rotate : (a b c d : Bool) → (c || (b || (a || d))) ≡ ((a || b || c) || d)
  or_rotate a b c d = ground arith

  found-check_value :
      (val : Value) (field : String) (vs : List String)
      → is_found (check_value_for_player_names y val field others vs)
        ≡ (names_other val || is_found vs)
  unfolding check_value_for_player_names
  found-check_value val field vs =
      let named = check_name y (as_str val) field others vs in
      let listed = check_sequence y (as_sequence val) field others named in
      found-check_mapping (as_mapping val) field listed
      ∙ ap (λ (b : Bool). any_key (as_mapping val) || b)
          (found-check_sequence (as_sequence val) field named
            ∙ ap (λ (b : Bool). any_item (as_sequence val) || b)
                (found-check_name (as_str val) field vs))
      ∙ or_rotate (is_other_value val) (any_item (as_sequence val)) (any_key (as_mapping val))
          (is_found vs)

  found-check_field :
      (o : Option Value) (field : String) (vs : List String)
      → is_found (check_field y o field others vs)
        ≡ (elim o [ none ↦ false | some val ↦ names_other val ] || is_found vs)
  found-check_field none field vs = refl
  found-check_field (some val) field vs = found-check_value val field vs

  found-check_entry :
      (entry : Value) (vs : List String)
      → is_found (check_plando_entry_for_cross_refs y entry others vs)
        ≡ (entry_names_other entry || is_found vs)
  unfolding check_plando_entry_for_cross_refs
  found-check_entry entry vs =
      let first = check_field y (as_mapping_get entry "from_player") "from_player" others vs in
      let second = check_field y (as_mapping_get entry "to_player") "to_player" others first in
      found-check_field (as_mapping_get entry "world") "world" second
      ∙ ap (λ (b : Bool). field_names_other entry "world" || b)
          (found-check_field (as_mapping_get entry "to_player") "to_player" first
            ∙ ap (λ (b : Bool). field_names_other entry "to_player" || b)
                (found-check_field (as_mapping_get entry "from_player") "from_player" vs))
      ∙ or_rotate (field_names_other entry "from_player") (field_names_other entry "to_player")
          (field_names_other entry "world") (is_found vs)

  or_swap : (a b c : Bool) → (b || (a || c)) ≡ ((a || b) || c)
  or_swap a b c = ground arith

  found-check_entries :
      (entries : List Value) (vs : List String)
      → is_found (check_entries y entries others vs)
        ≡ (any entry_names_other entries || is_found vs)
  found-check_entries [] vs = refl
  found-check_entries (entry ∷ entries) vs =
      found-check_entries entries (check_plando_entry_for_cross_refs y entry others vs)
      ∙ ap (λ (b : Bool). any entry_names_other entries || b) (found-check_entry entry vs)
      ∙ or_swap (entry_names_other entry) (any entry_names_other entries) (is_found vs)

  -- the verdict that the rule describes
  abbrev pub verdict : Option Value → Outcome
  verdict none = skipped
  verdict (some game_section) = elim (as_mapping_get game_section "plando_items") [
    | none ↦ pass
    | some plando ↦ if plando_names_other plando then fail else pass
  ]

  outcome-result_of :
      (vs : List String) → (result_of y vs).outcome ≡ (if is_found vs then fail else pass)
  outcome-result_of [] = refl
  outcome-result_of (x ∷ vs) = refl

  or_false : (b : Bool) → (b || false) ≡ b
  or_false b = ground arith

  found-violations_of :
      (o : Option (List Value))
      → is_found (violations_of y o others)
        ≡ elim o [ none ↦ false | some entries ↦ any entry_names_other entries ]
  found-violations_of none = refl
  found-violations_of (some entries) =
      found-check_entries entries [] ∙ or_false (any entry_names_other entries)

  plando-verdict :
      (o : Option Value)
      → (evaluate_plando y o others).outcome
        ≡ elim o [ none ↦ pass | some plando ↦ if plando_names_other plando then fail else pass ]
  plando-verdict none = refl
  plando-verdict (some plando) =
      outcome-result_of (violations_of y (as_sequence plando) others)
      ∙ ap (λ (b : Bool). if b then fail else pass) (found-violations_of (as_sequence plando))

  section-verdict : (o : Option Value) → (evaluate_section y o others).outcome ≡ verdict o
  section-verdict none = refl
  section-verdict (some game_section) = plando-verdict (as_mapping_get game_section "plando_items")

  -- The rule is skipped for a YAML without a section for the game. Otherwise it fails just if some
  -- entry of `plando_items` has a `from_player`, `to_player` or `world` that is, lists, or has as a
  -- key the name of a player of the room other than the YAML's own; and it passes in every other
  -- case.
  pub no_cross_plando-verdict :
      (yaml : Value) (game_name : String)
      → (no_cross_plando y yaml game_name player room).outcome
        ≡ verdict (as_mapping_get yaml game_name)
  unfolding no_cross_plando
  no_cross_plando-verdict yaml game_name = section-verdict (as_mapping_get yaml game_name)
