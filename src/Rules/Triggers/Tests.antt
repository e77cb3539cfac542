-- ===== src/Rules/Triggers/Tests.antt =====
-- The theorems on triggers, on a small YAML.
use archipelago_xl.Base.{
  ℕ, zero, suc, ◌+◌, ◌<◌, ◌≡◌, false, none, some, List, All, arith, subst, some-injective,
}
use archipelago_xl.Base.Int.{pos}
use archipelago_xl.Rules.Tests.{
  Node, number, word, mapping, sequence, Entries, end, entry, entries_of, crates,
}
use archipelago_xl.Rules.Triggers.{Loader}

unfoldable mutual
  pub height : Node → ℕ
  height (number n) = zero
  height (word s) = zero
  height (mapping es) = suc (heights es)
  height (sequence es) = suc (heights es)

  pub heights : Entries → ℕ
  heights end = zero
  heights (entry k v es) = height v + heights es

entries_of-lower :
    (h : ℕ) (es : Entries)
    → heights es < h
    → All (λ (e : Node × Node). height (e.1) < h) (entries_of es)
unfolding height
entries_of-lower h end s = tt
entries_of-lower h (entry k v es) s = (omega (arith, s), entries_of-lower h es (omega (arith, s)))

pub lower :
    (v : Node) (m : List (Node × Node))
    → crates.as_mapping v ≡ some m
    → All (λ (e : Node × Node). height (e.1) < height v) m
unfolding height
lower (number n) m e = ground arith
lower (word s) m e = ground arith
lower (sequence es) m e = ground arith
lower (mapping es) m e =
    subst (λ (l : List (Node × Node)). All (λ (e : Node × Node). height (e.1) < suc (heights es)) l)
      (some-injective _ _ e) (entries_of-lower (suc (heights es)) es (omega arith))

-- a loader that loads nothing
abbrev pub loader : Loader crates
loader = record {
  load_from_str = λ text. none;
  as_floating_point = λ v. none;
  value_eq = λ a b. false;
  hash_order = λ changes. changes;
  height = height;
  lower = lower;
}

-- a trigger that sets another option of the game
abbrev trigger : Node
trigger = mapping (
    entry "option_category" (word "Game") (
      entry "option_name" (word "goal") (
        entry "option_result" (word "all") (
          entry "options"
            (mapping (entry "Game" (mapping (entry "progression" (number (pos 60)) end)) end))
            end))))

abbrev yaml : Node
yaml = mapping (
    entry "triggers" (sequence (entry "first" trigger end))
      (entry "Game" (mapping (entry "goal" (word "all") end)) end))
