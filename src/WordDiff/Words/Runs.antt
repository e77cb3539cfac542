-- ===== src/WordDiff/Words/Runs.antt =====
-- The words of a text are its runs of white space and of other characters.
use Prim.Native.Char.{Char}
use archipelago_xl.Base.{
  ◌≡◌, refl, subst, String, Bool, true, false, not, List, [], ◌∷◌, arith, if◌then◌else◌,
}
use archipelago_xl.WordDiff.Words.{is_whitespace, same_kind, attach, is_empty, split_into_words}

-- a run of one kind of characters
abbrev pub IsUniform : Bool → String → Type 0
IsUniform b String.[] = Unit
IsUniform b (String.◌∷◌ c s) = (is_whitespace c ≡ b) × IsUniform b s

-- the words are runs, none is empty, the first is of kind `b`, and the kinds alternate
abbrev pub AreRuns : Bool → List String → Type 0
AreRuns b [] = Unit
AreRuns b (w ∷ ws) = IsUniform b w × (is_empty w ≡ false) × AreRuns (not b) ws

runs-attach :
    (c : Char) (b : Bool) (words : List String)
    → is_whitespace c ≡ b
    → AreRuns b words
    → AreRuns b (attach c words)
runs-attach c b [] h r = ((h, tt), refl, tt)
runs-attach c b (w ∷ ws) h (uniform, filled, r) = ((h, uniform), refl, r)

alike : (a b : Bool) → same_kind a b ≡ true → b ≡ a
alike a b h = ground arith

unlike : (a b : Bool) → same_kind a b ≡ false → b ≡ not a
unlike a b h = ground arith

runs-choice :
    (c : Char) (a b : Bool) (same : Bool) (words : List String)
    → is_whitespace c ≡ a
    → same_kind a b ≡ same
    → AreRuns b words
    → AreRuns a (if same then attach c words else String.◌∷◌ c String.[] ∷ words)
runs-choice c a b true words h e r =
    runs-attach c a words h (subst (λ k. AreRuns k words) (alike a b e) r)
runs-choice c a b false words h e r = ((h, tt), refl, subst (λ k. AreRuns k words) (unlike a b e) r)

-- The words of a text that is not empty are its runs: none is empty, each has characters of one
-- kind only, white space or not, the first is of the kind of the first character, and no two
-- neighbours are of the same kind.
pub split_into_words-AreRuns :
    (c : Char) (s : String) → AreRuns (is_whitespace c) (split_into_words (String.◌∷◌ c s))
unfolding split_into_words
split_into_words-AreRuns c String.[] = ((refl, tt), refl, tt)
split_into_words-AreRuns c (String.◌∷◌ d s) =
    runs-choice c (is_whitespace c) (is_whitespace d)
      (same_kind (is_whitespace c) (is_whitespace d)) (split_into_words (String.◌∷◌ d s)) refl refl
      (split_into_words-AreRuns d s)
