-- ===== src/WordDiff/Words.antt =====
-- apdiff-viewer/src/diff/word_diff.rs: `split_into_words` and `is_whitespace_only`.
pub mod Runs
use Prim.Native.Char.{Char, code}
use Prim.Native.String
use text.Mathlib.TextLemmas.{cons-append, nil-append, append-nil}
use archipelago_xl.Base.{
  String, Bool, true, false, not, ◌&&◌, ◌||◌, ◌≡◌, refl, ◌∙◌, ap, List, [], ◌∷◌, arith, leb, ◌==◌,
  if◌then◌else◌,
}

-- `char::is_whitespace`: the Unicode property White_Space
unfoldable pub is_whitespace : Char → Bool
is_whitespace c =
    leb 9 (code c) && leb (code c) 13
    || code c == 32
    || code c == 0x85
    || code c == 0xa0
    || code c == 0x1680
    || leb 0x2000 (code c) && leb (code c) 0x200a
    || code c == 0x2028
    || code c == 0x2029
    || code c == 0x202f
    || code c == 0x205f
    || code c == 0x3000

abbrev pub same_kind : Bool → Bool → Bool
same_kind true b = b
same_kind false b = not b

-- a character in front of the word that follows it
abbrev pub attach : Char → List String → List String
attach c [] = String.◌∷◌ c String.[] ∷ []
attach c (w ∷ ws) = String.◌∷◌ c w ∷ ws

-- The source cuts the text at the positions where the kind of character changes; here each
-- character begins a word or goes in front of the word that the next one begins.
abbrev pub place : Char → String → List String → List String
place c String.[] words = attach c words
place c (String.◌∷◌ d s) words =
    if same_kind (is_whitespace c) (is_whitespace d)
    then attach c words
    else String.◌∷◌ c String.[] ∷ words

unfoldable pub split_into_words : String → List String
unfolding is_whitespace
split_into_words String.[] = []
split_into_words (String.◌∷◌ c s) = place c s (split_into_words s)

abbrev pub all_whitespace : String → Bool
all_whitespace String.[] = true
all_whitespace (String.◌∷◌ c s) = is_whitespace c && all_whitespace s

abbrev pub is_empty : String → Bool
is_empty String.[] = true
is_empty (String.◌∷◌ c s) = false

unfoldable pub is_whitespace_only : String → Bool
unfolding is_whitespace
is_whitespace_only text = not (is_empty text) && all_whitespace text

-- the texts of a list, put together
abbrev pub join : List String → String
join [] = String.[]
join (w ∷ ws) = String.◌++◌ w (join ws)

join-attach : (c : Char) (ws : List String) → join (attach c ws) ≡ String.◌∷◌ c (join ws)
join-attach c [] = append-nil _
join-attach c (w ∷ ws) = cons-append c w (join ws)

join-place :
    (c : Char) (s : String) (ws : List String) → join (place c s ws) ≡ String.◌∷◌ c (join ws)
join-place c String.[] ws = join-attach c ws
join-place c (String.◌∷◌ d s) ws =
    ground (arith, join-attach c ws, cons-append c String.[] (join ws), nil-append (join ws))

-- The words of a text, put together, are the text.
pub join-split_into_words : (text : String) → join (split_into_words text) ≡ text
unfolding split_into_words
join-split_into_words String.[] = refl
join-split_into_words (String.◌∷◌ c s) =
    join-place c s (split_into_words s) ∙ ap (String.◌∷◌ c) (join-split_into_words s)
