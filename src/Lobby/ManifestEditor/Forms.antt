-- ===== src/Lobby/ManifestEditor/Forms.antt =====
-- What the loop over the worlds makes of a form.
use archipelago_xl.Base.{
  ◌≡◌, refl, ap, ◌∙◌, sym, subst, String, Bool, true, false, ◌||◌, Option, none, some, is_some,
  List, [], ◌∷◌, arith, str_eq, eq_refl, eq_iff, if◌then◌else◌, inl, inr, Bool-cases,
}
use archipelago_xl.Apwm.Semver.{Semver}
use archipelago_xl.Apwm.Keyed.{names, insert, get}
use archipelago_xl.Apwm.Keyed.Laws.{get-insert}
use archipelago_xl.Apwm.Worlds.{VersionReq, disabled, World}
use archipelago_xl.Apwm.Manifests.{Manifest, get_named, parse_version_req}
use archipelago_xl.Apwm.Manifests.Updating.{is_named}
use archipelago_xl.Lobby.ManifestEditor.{
  ManifestForm, FormError, no_version, unreadable_version, unresolved, Formed, formed, rejected,
  add_version_req, with_req, with_text, set_world, set_worlds, and_then,
}

module _ (v : Semver) where
  open v use {Version}

  abbrev read : Option String → Option (VersionReq Version)
  read none = none
  read (some text) = parse_version_req v text

  -- the requirement that a form gives a world: what its text says, if the world is ticked
  abbrev pub chosen : ManifestForm → String → Option (VersionReq Version)
  chosen form name =
      if is_some (get_named name form.enabled)
      then read (get_named name form.version)
      else some disabled

  get_named-get : {A : Type 0} (k : String) (m : List (String × A)) → get_named k m ≡ get names k m
  get_named-get k [] = refl
  get_named-get k ((j, a) ∷ m) = ground (arith, get_named-get k m)

  get_named-add :
      (u name : String) (req : VersionReq Version) (m : Manifest Version)
      → get_named u (add_version_req v name req m).worlds
        ≡ (if str_eq name u then some req else get_named u m.worlds)
  unfolding add_version_req
  get_named-add u name req m =
      get_named-get u (insert names name req m.worlds)
      ∙ get-insert names u name req m.worlds
      ∙ ap (λ o. if str_eq name u then some req else o) (sym (get_named-get u m.worlds))

  abbrev pub Because : Option String → FormError → Type 0
  Because none no_version = Unit
  Because none unreadable_version = ⊥
  Because none unresolved = ⊥
  Because (some text) no_version = ⊥
  Because (some text) unreadable_version = parse_version_req v text ≡ none
  Because (some text) unresolved = ⊥

  -- a ticked world has no text, or one that is no requirement
  abbrev pub Refused : ManifestForm → String → FormError → Type 0
  Refused form name e =
      (is_some (get_named name form.enabled) ≡ true) × Because (get_named name form.version) e

  Because-none : (o : Option String) (e : FormError) → Because o e → read o ≡ none
  Because-none none e h = refl
  Because-none (some text) unreadable_version h = h
  Because-none (some text) no_version h = elim h [ ]
  Because-none (some text) unresolved h = elim h [ ]

  pub Refused-none :
      (form : ManifestForm) (name : String) (e : FormError)
      → Refused form name e
      → chosen form name ≡ none
  Refused-none form name e (ticked, why) =
      rw ticked (Because-none (get_named name form.version) e why)

  abbrev IsDone : ManifestForm → String → Manifest Version → Formed Version → Type 0
  IsDone form name m (formed k) =
      (req : VersionReq Version) × (chosen form name ≡ some req)
      × (k ≡ add_version_req v name req m)
  IsDone form name m (rejected e) = Refused form name e

  with_req-IsDone :
      (form : ManifestForm) (name text : String) (m : Manifest Version)
      (o : Option (VersionReq Version))
      → is_some (get_named name form.enabled) ≡ true
      → get_named name form.version ≡ some text
      → parse_version_req v text ≡ o
      → IsDone form name m (with_req v name m o)
  with_req-IsDone form name text m none t e p = (t, rw e p)
  with_req-IsDone form name text m (some req) t e p = (req, rw (t, e) p, refl)

  with_text-IsDone :
      (form : ManifestForm) (name : String) (m : Manifest Version) (o : Option String)
      → is_some (get_named name form.enabled) ≡ true
      → get_named name form.version ≡ o
      → IsDone form name m (with_text v name m o)
  with_text-IsDone form name m none t e = (t, rw e tt)
  with_text-IsDone form name m (some text) t e =
      with_req-IsDone form name text m (parse_version_req v text) t e refl

  set_world-IsDone :
      (form : ManifestForm) (name : String) (m : Manifest Version)
      → IsDone form name m (set_world v form name m)
  unfolding set_world
  set_world-IsDone form name m = elim (Bool-cases (is_some (get_named name form.enabled))) [
    | inl t ↦ rw t (with_text-IsDone form name m (get_named name form.version) t refl)
    | inr t ↦ rw t (disabled, rw t refl, refl)
  ]

  -- what the loop over some worlds makes of a manifest
  abbrev pub AreSet :
      ManifestForm → List (String × World Version) → Manifest Version → Formed Version → Type 0
  AreSet form worlds m (formed k) =
      (k.new_apworld_policy ≡ m.new_apworld_policy)
      × (((name : String)
            → get_named name k.worlds
              ≡ (if is_named name worlds then chosen form name else get_named name m.worlds))
          × ((name : String) → is_named name worlds ≡ true → is_some (chosen form name) ≡ true))
  AreSet form worlds m (rejected e) =
      (name : String) × (is_named name worlds ≡ true) × Refused form name e

  chosen_next :
      (form : ManifestForm) (name u : String) (req : VersionReq Version)
      → chosen form name ≡ some req
      → str_eq name u ≡ true
      → chosen form u ≡ some req
  chosen_next form name u req e h = subst (λ n. chosen form n ≡ some req) ((eq_iff name u).0 h) e

  next-gets :
      (form : ManifestForm) (name u : String) (b : Bool) (req : VersionReq Version)
      (m : Manifest Version)
      → chosen form name ≡ some req
      → (if b then chosen form u else get_named u (add_version_req v name req m).worlds)
        ≡ (if str_eq name u || b then chosen form u else get_named u m.worlds)
  next-gets form name u true req m e = ground arith
  next-gets form name u false req m e = elim (Bool-cases (str_eq name u)) [
    | inl h ↦ rw h (rw (get_named-add u name req m) (rw h (sym (chosen_next form name u req e h))))
    | inr h ↦ rw h (rw (get_named-add u name req m) (rw h refl))
  ]

  next_is_chosen :
      (form : ManifestForm) (name u : String) (b : Bool) (req : VersionReq Version)
      → chosen form name ≡ some req
      → (b ≡ true → is_some (chosen form u) ≡ true)
      → (str_eq name u || b) ≡ true
      → is_some (chosen form u) ≡ true
  next_is_chosen form name u b req e are i = elim (Bool-cases (str_eq name u)) [
    | inl h ↦ ap (is_some {0}) (chosen_next form name u req e h)
    | inr h ↦ are (rw h at i)
  ]

  policy-add :
      (name : String) (req : VersionReq Version) (m : Manifest Version)
      → (add_version_req v name req m).new_apworld_policy ≡ m.new_apworld_policy
  unfolding add_version_req
  policy-add name req m = refl

  AreSet-step :
      (form : ManifestForm) (name : String) (w : World Version)
      (worlds : List (String × World Version)) (m : Manifest Version) (req : VersionReq Version)
      (r : Formed Version)
      → chosen form name ≡ some req
      → AreSet form worlds (add_version_req v name req m) r
      → AreSet form ((name, w) ∷ worlds) m r
  AreSet-step form name w worlds m req (formed k) e (policy, (gets, are)) = (
    policy ∙ policy-add name req m,
    (
      (λ u. gets u ∙ next-gets form name u (is_named u worlds) req m e),
      λ u. next_is_chosen form name u (is_named u worlds) req e (are u),
    ),
  )
  AreSet-step form name w worlds m req (rejected x) e (u, i, because) = (u, ground arith, because)

  set_rest :
      (form : ManifestForm) (name : String) (w : World Version)
      (worlds : List (String × World Version)) (m : Manifest Version) (r : Formed Version)
      → IsDone form name m r
      → ((k : Manifest Version) → AreSet form worlds k (set_worlds v form worlds k))
      → AreSet form ((name, w) ∷ worlds) m (and_then v r (set_worlds v form worlds))
  set_rest form name w worlds m (formed k) (req, e, same) h =
      AreSet-step form name w worlds m req (set_worlds v form worlds k) e
        (subst (λ i. AreSet form worlds i (set_worlds v form worlds k)) same (h k))
  set_rest form name w worlds m (rejected x) because h =
      (name, ground (arith, eq_refl name), because)

  pub set_worlds-AreSet :
      (form : ManifestForm) (worlds : List (String × World Version)) (m : Manifest Version)
      → AreSet form worlds m (set_worlds v form worlds m)
  set_worlds-AreSet form [] m = (refl, ((λ name. refl), λ name i. ground arith))
  set_worlds-AreSet form ((name, w) ∷ worlds) m =
      set_rest form name w worlds m (set_world v form name m) (set_world-IsDone form name m)
        (set_worlds-AreSet form worlds)
