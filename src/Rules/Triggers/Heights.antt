-- ===== src/Rules/Triggers/Heights.antt =====
-- The fuel with which values are written is enough.
use archipelago_xl.Base.{
  ℕ, zero, suc, ◌+◌, ◌<◌, ◌≡◌, refl, ◌∙◌, ap, String, Option, none, some, List, [], ◌∷◌, ◌++◌, All,
  arith,
}
use archipelago_xl.Rules.Values.{Crates}
use archipelago_xl.Rules.Triggers.{Loader}
use archipelago_xl.Rules.Triggers.Rewriting.{
  each_entry, serialize_yaml_entry, entry_of, key_text, key_line, entry_lines,
}

module _ (y : Crates) (loader : Loader y) where
  open y use {Value, as_mapping, as_sequence}
  open loader use {height}

  each_entry-agrees :
      (f g : String → Value → ℕ → List String → List String) (h : ℕ)
      (entries : List (Value × Value)) (indent : ℕ) (lines : List String)
      → ((key : String) (v : Value) (i : ℕ) (ls : List String)
          → height v < h
          → f key v i ls ≡ g key v i ls)
      → All (λ (e : Value × Value). height (e.1) < h) entries
      → each_entry y loader f entries indent lines ≡ each_entry y loader g entries indent lines
  each_entry-agrees f g h [] indent lines same small = refl
  each_entry-agrees f g h ((k, v) ∷ entries) indent lines same (s, small) =
      ap (each_entry y loader f entries indent) (same (key_text y loader k) v indent lines s)
      ∙ each_entry-agrees f g h entries indent _ same small

  entry_lines-agrees :
      (f g : String → Value → ℕ → List String → List String) (o : Option (List (Value × Value)))
      (key : String) (v : Value) (indent : ℕ) (lines : List String)
      → as_mapping v ≡ o
      → ((k : String) (w : Value) (i : ℕ) (ls : List String)
          → height w < height v
          → f k w i ls ≡ g k w i ls)
      → entry_lines y loader f o key v indent lines ≡ entry_lines y loader g o key v indent lines
  entry_lines-agrees f g none key v indent lines e same = refl
  entry_lines-agrees f g (some entries) key v indent lines e same =
      each_entry-agrees f g (height v) entries (indent + 2)
        (lines ++ (key_line y loader indent key "" ∷ [])) same (loader.lower v entries e)

  -- with more fuel than the value is high, the lines do not depend on the fuel
  enough :
      (m n : ℕ) (key : String) (v : Value) (indent : ℕ) (lines : List String)
      → height v < m
      → height v < n
      → serialize_yaml_entry y loader m key v indent lines
        ≡ serialize_yaml_entry y loader n key v indent lines
  unfolding serialize_yaml_entry
  enough zero n key v indent lines hm hn = ground (arith, hm)
  enough (suc m) zero key v indent lines hm hn = ground (arith, hn)
  enough (suc m) (suc n) key v indent lines hm hn =
      entry_lines-agrees (serialize_yaml_entry y loader m) (serialize_yaml_entry y loader n)
        (as_mapping v) key v indent lines refl
        (λ k w i ls s. enough m n k w i ls (omega (arith, hm, s)) (omega (arith, hn, s)))

  -- A key and its value are written as the recursion of the code describes it: the entries of a
  -- mapping each with the writer itself, two further to the right, after a line with the key, and
  -- anything else as a list or a scalar.
  pub entry_of-unfolds :
      (key : String) (v : Value) (indent : ℕ) (lines : List String)
      → entry_of y loader key v indent lines
        ≡ entry_lines y loader (entry_of y loader) (as_mapping v) key v indent lines
  unfolding serialize_yaml_entry
  entry_of-unfolds key v indent lines =
      entry_lines-agrees (serialize_yaml_entry y loader (height v)) (entry_of y loader)
        (as_mapping v) key v indent lines refl
        (λ k w i ls s. enough (height v) (suc (height w)) k w i ls s (omega arith))
