-- ===== src/Apwm/Semver.antt =====
-- What apwm uses of the crate `semver`: versions in their order, requirements, and their texts.
use archipelago_xl.Base.{String, ◌≡◌, ◌↔◌, ◌⊎◌, Bool, true, Option, none, some}

pub record Semver : Type 1 where
  pub Version : Type 0
  pub Req : Type 0
  pub le : Version → Version → Bool
  pub le_refl : (a : Version) → le a a ≡ true
  pub le_total : (a b : Version) → (le a b ≡ true) ⊎ (le b a ≡ true)
  pub le_trans : (a b c : Version) → le a b ≡ true → le b c ≡ true → le a c ≡ true
  pub eq : Version → Version → Bool
  pub eq_iff : (a b : Version) → (eq a b ≡ true) ↔ (a ≡ b)
  pub matches : Req → Version → Bool
  pub to_string : Version → String
  pub parse : String → Option Version
  pub parse-to_string : (v : Version) → parse (to_string v) ≡ some v
  -- a version's text begins with a digit
  pub parse-word :
      (parse "Latest" ≡ none) × (parse "Latest Supported" ≡ none) × (parse "Disabled" ≡ none)
