-- ===== src/Lobby/ManifestEditor/Shown.antt =====
-- What the rows of the form show.
use archipelago_xl.Base.{
  ◌≡◌, refl, ◌∙◌, sym, subst, String, true, Option, none, some, is_some, List, [], ◌∷◌, All, arith,
  str_eq, eq_refl, eq_iff, inl, inr, Bool-cases, some-injective,
}
use archipelago_xl.Apwm.Semver.{Semver}
use archipelago_xl.Apwm.Keyed.{str_le}
use archipelago_xl.Apwm.Worlds.{VersionReq, World}
use archipelago_xl.Apwm.Manifests.{
  Manifest, Index, get_named, version_req_to_string, get_version_req, is_enabled,
}
use archipelago_xl.Apwm.Manifests.Updating.{is_named}
use archipelago_xl.Lobby.ManifestEditor.{
  ManifestForm, ManifestFormRow, valid_options_for_apworld, row_with, push_row, rows_of, put_row,
  sort_rows, sorted, rows, policy_of,
}

module _ (v : Semver) where
  open v use {Version}

  -- the form has what a row shows: the tick, and the text of the version if it is ticked
  abbrev pub IsSent : ManifestForm → ManifestFormRow Version → Type 0
  IsSent form row =
      (is_some (get_named row.apworld_name form.enabled) ≡ row.enabled)
      × (row.enabled ≡ true
          → get_named row.apworld_name form.version
            ≡ some (version_req_to_string v row.current_version))

  abbrev pub IsSubmitted : ManifestForm → Manifest Version → List (ManifestFormRow Version) → Type 0
  IsSubmitted form m rs =
      (policy_of v form.new_apworld_policy ≡ m.new_apworld_policy) × All (IsSent form) rs

  module _ (form : ManifestForm) (index : Index Version) (m : Manifest Version) where
    All-put :
        (row : ManifestFormRow Version) (rs : List (ManifestFormRow Version))
        → All (IsSent form) (put_row v row rs)
        → IsSent form row × All (IsSent form) rs
    All-put row [] h = h
    All-put row (r ∷ rs) h =
        elim (Bool-cases (str_le (row.world).display_name (r.world).display_name)) [
          | inl e ↦ (rw e at h)
          | inr e ↦
              let (now, later) = (rw e at h) in
              (let (first, rest) = All-put row rs later in (first, (now, rest)))
        ]

    All-sorted :
        (rs : List (ManifestFormRow Version))
        → All (IsSent form) (sort_rows v rs)
        → All (IsSent form) rs
    All-sorted [] h = h
    All-sorted (row ∷ rs) h =
        let (first, rest) = All-put row (sort_rows v rs) h in (first, All-sorted rs rest)

    -- the same of the world with a name
    abbrev pub Agrees : String → Type 0
    Agrees name =
        (is_some (get_named name form.enabled) ≡ is_enabled v m name)
        × (is_enabled v m name ≡ true
            → get_named name form.version
              ≡ some (version_req_to_string v (get_version_req v m name index)))

    pushed :
        (name : String) (w : World Version) (o : Option (List (VersionReq Version)))
        (rest : Option (List (ManifestFormRow Version))) (rs : List (ManifestFormRow Version))
        → push_row v (row_with v index m name w o) rest ≡ some rs
        → All (IsSent form) rs
        → Agrees name
          × ((rs' : List (ManifestFormRow Version)) × (rest ≡ some rs') × All (IsSent form) rs')
    pushed name w none rest rs h all = ground arith
    pushed name w (some options) none rs h all = ground arith
    pushed name w (some options) (some rs') rs h all =
        let (first, others) = subst (All (IsSent form)) (sym (some-injective _ _ h)) all in
        (first, (rs', refl, others))

    rows_of-agree :
        (worlds : List (String × World Version)) (rs : List (ManifestFormRow Version))
        → rows_of v index m worlds ≡ some rs
        → All (IsSent form) rs
        → (name : String) → is_named name worlds ≡ true
        → Agrees name
    rows_of-agree [] rs h all name i = ground arith
    rows_of-agree ((j, w) ∷ worlds) rs h all name i =
        let (first, (rs', e, others)) =
          pushed j w (valid_options_for_apworld v index j) (rows_of v index m worlds) rs h all in
        elim (Bool-cases (str_eq j name)) [
          | inl same ↦ subst Agrees ((eq_iff j name).0 same) first
          | inr other ↦ rows_of-agree worlds rs' e others name (rw other at i)
        ]

    pub sorted-agree :
        (o : Option (List (ManifestFormRow Version))) (rs : List (ManifestFormRow Version))
        → rows_of v index m index.worlds ≡ o
        → sorted v o ≡ some rs
        → All (IsSent form) rs
        → (name : String) → is_named name index.worlds ≡ true
        → Agrees name
    sorted-agree none rs e h all = λ name i. ground arith
    sorted-agree (some rs') rs e h all =
        rows_of-agree index.worlds rs' e
          (All-sorted rs' (subst (All (IsSent form)) (sym (some-injective _ _ h)) all))

  push_row-shown :
      (row : Option (ManifestFormRow Version)) (rest : Option (List (ManifestFormRow Version)))
      → is_some row ≡ true
      → is_some rest ≡ true
      → is_some (push_row v row rest) ≡ true
  push_row-shown none rest h k = h
  push_row-shown (some row) none h k = k
  push_row-shown (some row) (some rest) h k = refl

  row_with-shown :
      (index : Index Version) (m : Manifest Version) (name : String) (w : World Version)
      (o : Option (World Version))
      → get_named name index.worlds ≡ o
      → is_some o ≡ true
      → is_some (row_with v index m name w (valid_options_for_apworld v index name)) ≡ true
  row_with-shown index m name w none e h = ground arith
  row_with-shown index m name w (some x) e h = rw (e, is_some) refl

  is_named-get_named :
      {A : Type 0} (name : String) (worlds : List (String × A))
      → is_named name worlds ≡ is_some (get_named name worlds)
  is_named-get_named name [] = refl
  is_named-get_named name ((j, a) ∷ worlds) = ground (arith, is_named-get_named name worlds)

  rows_of-shown :
      (index : Index Version) (m : Manifest Version) (worlds : List (String × World Version))
      → ((name : String)
          → is_named name worlds ≡ true
          → is_some (get_named name index.worlds) ≡ true)
      → is_some (rows_of v index m worlds) ≡ true
  rows_of-shown index m [] h = refl
  rows_of-shown index m ((name, w) ∷ worlds) h =
      push_row-shown _ _
        (row_with-shown index m name w _ refl (h name (ground (arith, eq_refl name))))
        (rows_of-shown index m worlds (λ n i. h n (ground arith)))

  sorted-shown :
      (o : Option (List (ManifestFormRow Version))) → is_some o ≡ true → is_some (sorted v o) ≡ true
  sorted-shown none h = h
  sorted-shown (some rs) h = refl

  -- Showing a manifest never panics: every world that has a row is in the index.
  pub rows-shown : (index : Index Version) (m : Manifest Version) → is_some (rows v index m) ≡ true
  unfolding rows
  rows-shown index m = sorted-shown (rows_of v index m index.worlds) (
      rows_of-shown index m index.worlds (λ name i. sym (is_named-get_named name index.worlds) ∙ i))
