-- ===== src/FilesystemCache/Deletion.antt =====
-- What DeleteWithPrefix of filesystem_cache/filesystem.go deletes, and when it panics.
use Prim.Native.String.{len}
use uplink_relay.Common.{
  String, ◌≡◌, ◌≢◌, refl, sym, ◌∙◌, ap, Bool, true, false, not, ◌&&◌, ◌||◌, none, some, List, [],
  ◌∷◌, Bool-cases, inl, inr, ◌==◌, eq_iff, ltb, Result, Result-cases, ok, arith, ◌⊎◌, starts_with,
}
use uplink_relay.FilesystemCache.{
  FileSystem, DirEntry, path_of, get, delete_entry, delete_entries, delete_with_prefix,
}
use uplink_relay.FilesystemCache.Reading.{IsDocumented}

-- The entries that DeleteWithPrefix means to remove.
abbrev pub is_target : String → DirEntry → Bool
is_target prefix file = not (file.is_dir || not file.is_regular) && starts_with file.name prefix

-- Some target has the name j.
unfoldable pub targets : String → String → List DirEntry → Bool
targets prefix j [] = false
targets prefix j (file ∷ files) =
    (is_target prefix file && file.name == j) || targets prefix j files

-- Some regular file has a name shorter than the prefix.
unfoldable pub has_short_name : String → List DirEntry → Bool
has_short_name prefix [] = false
has_short_name prefix (file ∷ files) =
    (not (file.is_dir || not file.is_regular) && ltb (len file.name) (len prefix))
    || has_short_name prefix files

module _ {D : Type 0} (os : FileSystem D) (documented : IsDocumented os)
    (directory prefix : String) where
  -- The key j names a different file than every target.
  abbrev pub IsSpared : String → List DirEntry → Type 0
  IsSpared j [] = Unit
  IsSpared j (file ∷ files) =
      (is_target prefix file ≡ true
        → documented.Different (path_of directory file.name) (path_of directory j))
      × IsSpared j files

  -- One round that succeeds.
  delete_entry-removes :
      (file : DirEntry) (j : String) (d : D)
      → (delete_entry os directory prefix file d).0 ≡ ok tt
      → (is_target prefix file && file.name == j) ≡ true
      → get os directory j (delete_entry os directory prefix file d).1 ≡ none
  unfolding delete_entry get
  delete_entry-removes file j d succeeded target =
      let same : file.name ≡ j = ground (arith, eq_iff file.name j, target) in
      let gone = documented.remove_gone (path_of directory file.name) d in
      rw (← same) (ground (arith, gone, target, succeeded))

  delete_entry-misses :
      (file : DirEntry) (j : String) (d : D)
      → get os directory j d ≡ none
      → get os directory j (delete_entry os directory prefix file d).1 ≡ none
  unfolding delete_entry get
  delete_entry-misses file j d missing = ground (
    arith,
    documented.remove_creates (path_of directory file.name) (path_of directory j) d,
    missing,
  )

  delete_entry-spares :
      (file : DirEntry) (j : String) (d : D)
      → (is_target prefix file ≡ true
          → documented.Different (path_of directory file.name) (path_of directory j))
      → get os directory j (delete_entry os directory prefix file d).1 ≡ get os directory j d
  unfolding delete_entry get
  delete_entry-spares file j d different =
      let kept = λ (target : is_target prefix file ≡ true).
        documented.remove_apart (path_of directory file.name) (path_of directory j) d
          (different target) in
      ground (arith, kept)

  -- The first round of the loop, and what is left of it.
  delete_entries_cases :
      (file : DirEntry) (files : List DirEntry) (d : D)
      → let round = delete_entry os directory prefix file d in
        ((round.0 ≡ ok tt)
          × (delete_entries os directory prefix (file ∷ files) d
              ≡ delete_entries os directory prefix files round.1))
        ⊎ ((round.0 ≢ ok tt) × ((delete_entries os directory prefix (file ∷ files) d).0 ≢ ok tt))
  unfolding delete_entries
  delete_entries_cases file files d =
      elim (Result-cases (delete_entry os directory prefix file d).0) [
        | inl (done, succeeded) ↦ inl (succeeded, rw succeeded refl)
        | inr (inl (e, failed_)) ↦
            inr (λ h. ground (arith, failed_, h), λ h. ground (arith, failed_, h))
        | inr (inr crashed) ↦ inr (λ h. ground (arith, crashed, h), λ h. ground (arith, crashed, h))
      ]

  delete_entries-misses :
      (files : List DirEntry) (j : String) (d : D)
      → get os directory j d ≡ none
      → (delete_entries os directory prefix files d).0 ≡ ok tt
      → get os directory j (delete_entries os directory prefix files d).1 ≡ none
  delete_entries-misses [] j d missing h = unfold delete_entries in missing
  delete_entries-misses (file ∷ files) j d missing h = elim (delete_entries_cases file files d) [
    | inl (fine, same) ↦
        rw same
          (delete_entries-misses files j _ (delete_entry-misses file j d missing) (rw same at h))
    | inr (wrong, stopped) ↦ absurd (stopped h)
  ]

  delete_entries-removes :
      (files : List DirEntry) (j : String) (d : D)
      → (delete_entries os directory prefix files d).0 ≡ ok tt
      → targets prefix j files ≡ true
      → get os directory j (delete_entries os directory prefix files d).1 ≡ none
  unfolding targets
  delete_entries-removes [] j d h target = absurd (ground (arith, target))
  delete_entries-removes (file ∷ files) j d h target = elim (delete_entries_cases file files d) [
    | inl (fine, same) ↦
        let rest_ok = rw same at h in
        elim (Bool-cases (is_target prefix file && file.name == j)) [
          | inl here ↦
              rw same
                (delete_entries-misses files j _ (delete_entry-removes file j d fine here) rest_ok)
          | inr other ↦
              rw same (delete_entries-removes files j _ rest_ok (ground (arith, other, target)))
        ]
    | inr (wrong, stopped) ↦ absurd (stopped h)
  ]

  delete_entries-spares :
      (files : List DirEntry) (j : String) (d : D)
      → (delete_entries os directory prefix files d).0 ≡ ok tt
      → IsSpared j files
      → get os directory j (delete_entries os directory prefix files d).1 ≡ get os directory j d
  delete_entries-spares [] j d h spared = unfold delete_entries in refl
  delete_entries-spares (file ∷ files) j d h (first, later) =
      elim (delete_entries_cases file files d) [
        | inl (fine, same) ↦ rw same (
            delete_entries-spares files j _ (rw same at h) later
            ∙ delete_entry-spares file j d first)
        | inr (wrong, stopped) ↦ absurd (stopped h)
      ]

  delete_entry_short :
      (file : DirEntry) (d : D)
      → (not (file.is_dir || not file.is_regular) && ltb (len file.name) (len prefix)) ≡ true
      → (delete_entry os directory prefix file d).0 ≢ ok tt
  unfolding delete_entry
  delete_entry_short file d short h = ground (arith, short, h)

  delete_entries_short :
      (files : List DirEntry) (d : D)
      → has_short_name prefix files ≡ true
      → (delete_entries os directory prefix files d).0 ≢ ok tt
  unfolding has_short_name
  delete_entries_short [] d short h = cc
  delete_entries_short (file ∷ files) d short h = elim (delete_entries_cases file files d) [
    | inl (fine, same) ↦
        let round = delete_entry os directory prefix file d in
        let rest_ok : (delete_entries os directory prefix files round.1).0 ≡ ok tt =
          ap (λ (r : Result (Unit {0}) × D). r.0) (sym same) ∙ h in
        elim (Bool-cases
          (not (file.is_dir || not file.is_regular) && ltb (len file.name) (len prefix))) [
            | inl here ↦ absurd (delete_entry_short file d here fine)
            | inr other ↦
                absurd (delete_entries_short files round.1 (ground (arith, other, short)) rest_ok)
          ]
    | inr (wrong, stopped) ↦ absurd (stopped h)
  ]

  -- On a disk as documented, if DeleteWithPrefix of the filesystem cache lists the directory and
  -- succeeds: Get misses the names of the listed regular files that start with the prefix, reads as
  -- before every key that names a different file than each of those, and no listed regular file has
  -- a name shorter than the prefix.
  pub get-delete_with_prefix_files :
      (files : List DirEntry) (j k : String) (d : D)
      → os.read_dir directory d ≡ some files
      → (delete_with_prefix os directory prefix d).0 ≡ ok tt
      → targets prefix j files ≡ true
      → IsSpared k files
      → let after = (delete_with_prefix os directory prefix d).1 in
        (get os directory j after ≡ none)
        × (get os directory k after ≡ get os directory k d)
        × (has_short_name prefix files ≡ false)
  unfolding delete_with_prefix
  get-delete_with_prefix_files files j k d listed succeeded target spared =
      let rest_ok : (delete_entries os directory prefix files d).0 ≡ ok tt =
        (rw (delete_with_prefix, listed) at succeeded) in
      (
        rw (delete_with_prefix, listed) (delete_entries-removes files j d rest_ok target),
        rw (delete_with_prefix, listed) (delete_entries-spares files k d rest_ok spared),
        elim (Bool-cases (has_short_name prefix files)) [
          | inl short ↦ absurd (delete_entries_short files d short rest_ok)
          | inr long ↦ long
        ],
      )
