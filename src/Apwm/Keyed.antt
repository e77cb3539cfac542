-- ===== src/Apwm/Keyed.antt =====
-- `BTreeMap`s for any type of keys, and the order of the texts that are keys.
pub mod Laws
use Prim.Native.Char.{code}
use archipelago_xl.Base.{
  ◌≡◌, ◌↔◌, String, Bool, true, false, not, ◌&&◌, ◌||◌, Option, none, some, unwrap_or, List, [],
  ◌∷◌, ◌++◌, ltb, ◌==◌, str_eq, eq_iff, if◌then◌else◌,
}
use archipelago_xl.Apwm.Semver.{Semver}

pub record Key : Type 1 where
  pub K : Type 0
  pub le : K → K → Bool
  pub eq : K → K → Bool
  pub eq_iff : (a b : K) → (eq a b ≡ true) ↔ (a ≡ b)

-- `str` compares by bytes, which for UTF-8 is by code points
abbrev pub str_le : String → String → Bool
str_le String.[] t = true
str_le (String.◌∷◌ c s) String.[] = false
str_le (String.◌∷◌ c s) (String.◌∷◌ d t) =
    let rest = str_le s t in if code c == code d then rest else ltb (code c) (code d)

abbrev pub names : Key
names = record { K = String; le = str_le; eq = str_eq; eq_iff = eq_iff }

abbrev pub versions : Semver → Key
versions v = record { K = v.Version; le = v.le; eq = v.eq; eq_iff = v.eq_iff }

module _ (o : Key) {A : Type 0} where
  open o use {K, le, eq}

  abbrev pub get : K → List (K × A) → Option A
  get k [] = none
  get k ((j, a) ∷ m) = let rest = get k m in if eq j k then some a else rest

  abbrev pub contains : K → List (K × A) → Bool
  contains k [] = false
  contains k ((j, a) ∷ m) = eq j k || contains k m

  abbrev pub keys : List (K × A) → List K
  keys [] = []
  keys ((j, a) ∷ m) = j ∷ keys m

  unfoldable pub replace : K → A → List (K × A) → List (K × A)
  replace k a [] = []
  replace k a ((j, b) ∷ m) =
      let rest = replace k a m in if eq j k then (j, a) ∷ m else (j, b) ∷ rest

  -- a new key stands before the first one that is not less
  unfoldable pub place : K → A → List (K × A) → List (K × A)
  place k a [] = (k, a) ∷ []
  place k a ((j, b) ∷ m) =
      let rest = place k a m in if le k j then (k, a) ∷ (j, b) ∷ m else (j, b) ∷ rest

  unfoldable pub insert : K → A → List (K × A) → List (K × A)
  insert k a m = if contains k m then replace k a m else place k a m

  -- no key twice
  abbrev pub is_distinct : List (K × A) → Bool
  is_distinct [] = true
  is_distinct ((j, a) ∷ m) = not (contains j m) && is_distinct m

-- `entry(k).or_default().extend(items)`
abbrev pub extend_entry :
    (o : Key) {A : Type 0} → o.K → List A → List (o.K × List A) → List (o.K × List A)
extend_entry o k items m = insert o k (unwrap_or (get o k m) [] ++ items) m
