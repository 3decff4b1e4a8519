-- ===== src/FilesystemCache/Reading.antt =====
-- What Get of filesystem_cache/filesystem.go reads after Set, for a file system as documented.
use uplink_relay.Common.{
  String, ◌≡◌, ◌≢◌, refl, sym, ◌∙◌, ap, none, some, ℤ, Time, inl, inr, Result, Result-cases, ok,
  err, panicked, Error, arith, ◌⊎◌,
}
use uplink_relay.FilesystemCache.{
  FileSystem, Stat, not_exist, refused, found, path_of, get, set, make_directory, filesystem_cache,
}

-- What os documents, for a directory whose links do not change: a file that was written reads as it
-- was written, a file that was removed does not read, a removal creates no file, no call touches the
-- content of a different file, and no call panics. Which paths name different files is up to the
-- disk (`d/a` and `d/./a` name one), so that it is a part of what is assumed.
pub record IsDocumented {D : Type 0} (os : FileSystem D) : Type 1 where
  pub Different : String → String → Type 0
  pub write_reads :
      (p v : String) (d : D)
      → (os.write_file p v d).0 ≡ ok tt
      → os.read_file p (os.write_file p v d).1 ≡ some v
  pub write_apart :
      (p q v : String) (d : D)
      → Different p q
      → os.read_file q (os.write_file p v d).1 ≡ os.read_file q d
  pub mkdir_apart : (p q : String) (d : D) → os.read_file q (os.mkdir_all p d).1 ≡ os.read_file q d
  pub remove_gone :
      (p : String) (d : D) → (os.remove p d).0 ≡ ok tt → os.read_file p (os.remove p d).1 ≡ none
  pub remove_creates :
      (p q : String) (d : D) → os.read_file q d ≡ none → os.read_file q (os.remove p d).1 ≡ none
  pub remove_apart :
      (p q : String) (d : D) → Different p q → os.read_file q (os.remove p d).1 ≡ os.read_file q d
  pub write_returns : (p v : String) (d : D) → (os.write_file p v d).0 ≢ panicked
  pub mkdir_returns : (p : String) (d : D) → (os.mkdir_all p d).0 ≢ panicked
  pub remove_returns : (p : String) (d : D) → (os.remove p d).0 ≢ panicked

module _ {D : Type 0} (os : FileSystem D) (documented : IsDocumented os) (directory : String) where
  make_directory_apart :
      (stat : Stat) (p q : String) (d : D)
      → os.read_file q (make_directory os directory stat p d).1 ≡ os.read_file q d
  unfolding make_directory
  make_directory_apart not_exist p q d = ground (arith, documented.mkdir_apart (os.dir p) q d)
  make_directory_apart refused p q d = refl
  make_directory_apart (found is_dir) p q d = refl

  make_directory_returns :
      (stat : Stat) (p : String) (d : D) → (make_directory os directory stat p d).0 ≢ panicked
  unfolding make_directory
  make_directory_returns not_exist p d h = ground (arith, h, documented.mkdir_returns (os.dir p) d)
  make_directory_returns refused p d h = cc
  make_directory_returns (found is_dir) p d h = cc

  -- What Set comes to, by what it did before it writes.
  set_cases :
      (key content : String) (d : D)
      → let p = path_of directory key in
        let made = make_directory os directory (os.stat p d) p d in
        (set os directory key content d ≡ os.write_file p content made.1)
        ⊎ ((e : Error) × (made.0 ≡ err e) × (set os directory key content d ≡ (err e, made.1)))
  unfolding set
  set_cases key content d =
      let p = path_of directory key in
      let stat = os.stat p d in
      elim (Result-cases (make_directory os directory stat p d).0) [
        | inl (done, succeeded) ↦ inl (rw succeeded refl)
        | inr (inl (e, failed_)) ↦ inr (e, failed_, rw failed_ refl)
        | inr (inr crashed) ↦ absurd (make_directory_returns stat p d crashed)
      ]

  get-set_self :
      (key content : String) (d : D)
      → (set os directory key content d).0 ≡ ok tt
      → get os directory key (set os directory key content d).1 ≡ some content
  unfolding get
  get-set_self key content d succeeded = elim (set_cases key content d) [
    | inl same ↦ rw same (
        documented.write_reads _ content _
          (ap (λ (r : Result (Unit {0}) × D). r.0) (sym same) ∙ succeeded))
    | inr (e, unmade, same) ↦ absurd (ground (arith, same, succeeded))
  ]

  get-set_other :
      (key j content : String) (d : D)
      → documented.Different (path_of directory key) (path_of directory j)
      → get os directory j (set os directory key content d).1 ≡ get os directory j d
  unfolding get
  get-set_other key j content d other =
      let p = path_of directory key in
      let q = path_of directory j in
      let made = make_directory_apart (os.stat p d) p q d in
      elim (set_cases key content d) [
        | inl same ↦ rw same (documented.write_apart p q content _ other ∙ made)
        | inr (e, unmade, same) ↦ rw same made
      ]

  -- On a disk as documented, after a Set of the filesystem cache that succeeds, for whatever
  -- duration: Get finds, at every time, the content at the key and what it found before at every
  -- key whose path names a different file.
  pub get-set_written :
      (now later : Time) (duration : ℤ) (key j content : String) (d : D)
      → let cache = filesystem_cache os directory in
        let after = cache.set now key content duration d in
        after.0 ≡ ok tt
        → documented.Different (path_of directory key) (path_of directory j)
        → (cache.get later key after.1 ≡ some content)
          × (cache.get later j after.1 ≡ cache.get later j d)
  get-set_written now later duration key j content d succeeded other =
      (get-set_self key content d succeeded, get-set_other key j content d other)
