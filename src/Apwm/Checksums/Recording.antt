-- ===== src/Apwm/Checksums/Recording.antt =====
-- Which checksums a download records, and that each of them lets its version be fetched again.
use archipelago_xl.Base.{
  ◌≡◌, ◌≢◌, inl, inr, sym, ◌∙◌, String, Bool, true, false, ◌&&◌, ◌||◌, none, some, unwrap_or, List,
  [], ◌∷◌, arith, Bool-cases, Option-cases, subst, some-injective,
}
use archipelago_xl.Apwm.Semver.{Semver}
use archipelago_xl.Apwm.Maps as Versions
use archipelago_xl.Apwm.Keyed.{names, versions, get, contains, insert}
use archipelago_xl.Apwm.Keyed.Laws.{contains-get, get-insert, AllOf, AllOf-insert, AllOf-get}
use archipelago_xl.Apwm.Worlds.{WorldOrigin, is_supported, World, ok, ok-injective}
use archipelago_xl.Apwm.Manifests.{Index}
use archipelago_xl.Apwm.Changes.{Checksum, hash}
use archipelago_xl.Apwm.Changes.Views.{is_in}
use archipelago_xl.Apwm.Files.{Files, return, >>=-eq-ok, result->>=}
use archipelago_xl.Apwm.Downloads.{copy_to}
use archipelago_xl.Apwm.Downloads.Again.{CanWrite, copy_to-again}
use archipelago_xl.Apwm.Checksums.{
  open_new, apworld_path, record_checksum, download_origin, download_version, download_versions,
  fetch_expected,
}

module _ (v : Semver) (files : Files) (index : Index v.Version) (destination : String) where
  open v use {Version, eq, eq_iff}
  open files use {Bytes}

  -- every file of an apworld can be opened and written in the destination
  abbrev pub HasRoom : Type 0
  HasRoom =
      (name : String) (u : Version)
      → (files.can_open (apworld_path v files destination name u) ≡ true)
        × CanWrite v files (apworld_path v files destination name u)

  -- a checksum that lets the version be fetched
  abbrev pub Fits : String → Version → Checksum → Type 0
  Fits name u k =
      (w : World Version)
      → get names name index.worlds ≡ some w
      → (fetch_expected v files destination name w u k).result ≡ ok tt

  abbrev pub AllFit : List (String × List (Version × Checksum)) → Type 0
  AllFit cs = AllOf names (λ (name : String). AllOf (versions v) (Fits name)) cs

  abbrev pub checksums_of :
      String → List (String × List (Version × Checksum)) → List (Version × Checksum)
  checksums_of name cs = unwrap_or (get names name cs) []

  abbrev pub is_recorded : String → Version → List (String × List (Version × Checksum)) → Bool
  is_recorded name u cs = contains (versions v) u (checksums_of name cs)

  is_recorded-record :
      (n name : String) (u w : Version) (k : Checksum)
      (cs : List (String × List (Version × Checksum)))
      → is_recorded n u (record_checksum v files name w k cs)
        ≡ ((names.eq name n && eq w u) || is_recorded n u cs)
  is_recorded-record n name u w k cs = ground (
    arith,
    get-insert names n name (insert (versions v) w k (checksums_of name cs)) cs,
    contains-get (versions v) u (insert (versions v) w k (checksums_of name cs)),
    contains-get (versions v) u (checksums_of n cs),
    get-insert (versions v) u w k (checksums_of name cs),
    names.eq_iff name n,
  )

  pub of_name-AllFit :
      (name : String) (cs : List (String × List (Version × Checksum)))
      → AllFit cs
      → AllOf (versions v) (Fits name) (checksums_of name cs)
  of_name-AllFit name cs h = elim (Option-cases (get names name cs)) [
    | inl e ↦ rw e tt
    | inr (m, e) ↦
        rw e (AllOf-get names (λ (n : String). AllOf (versions v) (Fits n)) name m cs e h)
  ]

  record-AllFit :
      (name : String) (w : Version) (k : Checksum) (cs : List (String × List (Version × Checksum)))
      → Fits name w k
      → AllFit cs
      → AllFit (record_checksum v files name w k cs)
  record-AllFit name w k cs f h =
      AllOf-insert names (λ (n : String). AllOf (versions v) (Fits n)) name _ cs
        (AllOf-insert (versions v) (Fits name) w k (checksums_of name cs) f
          (of_name-AllFit name cs h))
        h

  fetched :
      (dir name : String) (w : World Version) (u : Version) (o : WorldOrigin) (h : String)
      → HasRoom
      → Versions.get v u w.versions ≡ some o
      → is_supported o ≡ false
      → (copy_to v files w u (apworld_path v files dir name u) none).result ≡ ok h
      → (fetch_expected v files destination name w u (hash h)).result ≡ ok tt
  fetched dir name w u o h room e no_support copied =
      let path = apworld_path v files destination name u in
      let again =
        copy_to-again v files w u (λ s. not_supported o no_support (some-injective _ _ (sym e ∙ s)))
          (apworld_path v files dir name u) path h copied (room name u).1 in
      rw (e, no_support, (room name u).0)
        (result->>= (copy_to v files w u path (some h)) (λ _. return tt) h again)
    where
      not_supported : (o : WorldOrigin) → is_supported o ≡ false → o ≢ WorldOrigin.supported
      not_supported o h e = ground arith

  origin-Fits :
      (dir name : String) (w : World Version) (u : Version) (o : WorldOrigin) (k : Checksum)
      → HasRoom
      → Versions.get v u w.versions ≡ some o
      → (download_origin v files dir name w u o).result ≡ ok k
      → (fetch_expected v files destination name w u k).result ≡ ok tt
  origin-Fits dir name w u o k room e r = elim (Bool-cases (is_supported o)) [
    | inl s ↦ ground arith
    | inr s ↦
        let opened =
          >>=-eq-ok (open_new v files (apworld_path v files dir name u)) _ k (rw s at r) in
        let copied =
          >>=-eq-ok (copy_to v files w u (apworld_path v files dir name u) none) _ k opened.2 in
        ground (arith, fetched dir name w u o copied.0 room e s copied.1, copied.2)
  ]

  version-Fits :
      (dir name : String) (w : World Version) (u : Version) (k : Checksum)
      → HasRoom
      → get names name index.worlds ≡ some w
      → (download_version v files dir name w u).result ≡ ok k
      → Fits name u k
  version-Fits dir name w u k room known r w' known' =
      elim (Option-cases (Versions.get v u w.versions)) [
        | inl e ↦ ground (arith, rw e at r)
        | inr (o, e) ↦
            subst
              (λ (x : World Version).
                (fetch_expected v files destination name x u k).result ≡ ok tt)
              (some-injective _ _ (sym known ∙ known'))
              (origin-Fits dir name w u o k room e (rw e at r))
      ]

  -- what the loop over the added versions of a world records
  pub versions-record :
      (dir name : String) (w : World Version) (us : List Version)
      (cs out : List (String × List (Version × Checksum)))
      → HasRoom
      → get names name index.worlds ≡ some w
      → AllFit cs
      → (download_versions v files dir name w us cs).result ≡ ok out
      → AllFit out
        × ((n : String) (u : Version)
            → is_recorded n u out ≡ ((names.eq name n && is_in v u us) || is_recorded n u cs))
  versions-record dir name w [] cs out room known fit r =
      (subst AllFit (ok-injective cs out r) fit, λ n u. ground (arith, ok-injective cs out r))
  versions-record dir name w (u ∷ us) cs out room known fit r =
      let one = >>=-eq-ok (download_version v files dir name w u) _ out r in
      let k = one.0 in
      let rest =
        versions-record dir name w us (record_checksum v files name u k cs) out room known
          (record-AllFit name u k cs (version-Fits dir name w u k room known one.1) fit) one.2 in
      (rest.0, λ n x. ground (arith, rest.1 n x, is_recorded-record n name x u k cs))
