-- ===== src/Apwm/Files.antt =====
-- Code that reads and writes files and may end in an error, whose text is left out: what it did
-- to the files, in order, and its result.
use archipelago_xl.Base.{
  ℕ, ◌≡◌, refl, String, Bool, true, false, Option, none, some, List, [], ◌∷◌, ◌++◌, inl, inr,
}
use archipelago_xl.Apwm.Worlds.{Fallible, Fallible-cases, ok, fails}

pub data Effect (B : Type 0) : Type 0 where
  created_dir truncated : String → Effect B
  written : String → B → Effect B
  renamed : (from to : String) → Effect B

pub record Io {ℓ} (B : Type 0) (A : Type ℓ) : Type ℓ where
  pub effects : List (Effect B)
  pub result : Fallible A

-- what a request ends in: no request or no answer, or a status and the body, if all of it came
pub data Reply (B : Type 0) : Type 0 where
  no_request no_answer : Reply B
  answered : ℕ → Option B → Reply B

-- The files, the paths, the network and the digest that the code uses. The answer to a request may
-- differ from try to try; the files do not change while the code reads them.
pub record Files : Type 1 where
  pub Bytes : Type 0
  pub join : String → String → String
  pub parent : String → Option String
  pub can_create_dir : String → Bool
  pub can_open : String → Bool
  pub can_write : String → Bytes → Bool
  pub read : String → Fallible Bytes
  pub send : String → ℕ → Reply Bytes
  pub sha256 : Bytes → String

module _ {B : Type 0} where
  abbrev pub return {ℓ} : {A : Type ℓ} → A → Io B A
  return a = record { effects = []; result = ok a }

  abbrev pub give {ℓ} : {A : Type ℓ} → Fallible A → Io B A
  give r = record { effects = []; result = r }

  abbrev pub required {ℓ} : {A : Type ℓ} → Option A → Io B A
  required none = give fails
  required (some a) = return a

  abbrev pub attempt : Bool → Effect B → Io B (Unit {0})
  attempt true e = record { effects = e ∷ []; result = ok tt }
  attempt false e = give fails

  abbrev pub after {ℓ} : {A : Type ℓ} → List (Effect B) → Io B A → Io B A
  after before m = record m { effects = before ++ m.effects }

  infixl 5 ◌>>=◌ ◌>>◌
  abbrev pub ◌>>=◌ {ℓ κ} : {A : Type ℓ} {C : Type κ} → Io B A → (A → Io B C) → Io B C
  m >>= f = elim m.result [
    | fails ↦ record { effects = m.effects; result = fails }
    | ok a ↦ after m.effects (f a)
  ]

  abbrev pub ◌>>◌ {ℓ} : {C : Type ℓ} → Io B (Unit {0}) → Io B C → Io B C
  m >> k = m >>= λ _. k

  -- a chain succeeds just if its steps do
  pub result->>= {ℓ κ} :
      {A : Type ℓ} {C : Type κ} (m : Io B A) (f : A → Io B C) (a : A)
      → m.result ≡ ok a
      → (m >>= f).result ≡ (f a).result
  result->>= m f a h = rw h refl

  pub >>=-eq-ok {ℓ κ} :
      {A : Type ℓ} {C : Type κ} (m : Io B A) (f : A → Io B C) (c : C)
      → (m >>= f).result ≡ ok c
      → (a : A) × (m.result ≡ ok a) × ((f a).result ≡ ok c)
  >>=-eq-ok m f c h = elim (Fallible-cases m.result) [ inl e ↦ cc | inr (a, e) ↦ (a, e, rw e at h) ]
