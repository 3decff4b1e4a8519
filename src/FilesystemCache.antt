-- ===== src/FilesystemCache.antt =====
-- filesystem_cache/filesystem.go: a cache in the files of a directory. Go's os package is the
-- parameter `FileSystem`, over the state D of the disk.
pub mod Reading
pub mod Deletion
use Prim.Native.String.{len}
use uplink_relay.Common.{
  String, Bool, true, false, not, ◌&&◌, ◌||◌, Option, none, some, List, [], ◌∷◌, ltb, if◌then◌else◌,
  Act, Result, ok, err, panicked, failed, library, pure, raise, panic, ◌>>=◌, ◌>>◌, ◌<>◌,
  starts_with,
}
use uplink_relay.Cache.{Cache}

-- What os.Stat gives back, with f.Mode().IsDir().
pub data Stat : Type 0 where
  not_exist : Stat
  refused : Stat
  found : (is_dir : Bool) → Stat

-- os.DirEntry
pub record DirEntry : Type 0 where
  pub name : String
  pub is_dir : Bool
  pub is_regular : Bool

-- The calls of os and path. A call that gives an error may have changed the disk.
pub record FileSystem (D : Type 0) : Type 0 where
  pub stat : String → D → Stat
  pub read_file : String → D → Option String
  pub mkdir_all : String → Act D (Unit {0})
  pub write_file : String → String → Act D (Unit {0})
  pub read_dir : String → D → Option (List DirEntry)
  pub remove : String → Act D (Unit {0})
  pub dir : String → String

-- fmt.Sprintf("%v/%v", directory, name)
abbrev pub path_of : String → String → String
path_of directory name = directory <> "/" <> name

-- An error of a call, wrapped in a text of this program.
abbrev wrapped : {D : Type 0} → Act D (Unit {0}) → String → Act D (Unit {0})
wrapped call message d =
    let (result, d') = call d in
    elim result [
      | ok _ ↦ (ok tt, d')
      | err _ ↦ (err (failed message), d')
      | panicked ↦ (panicked, d')
    ]

module _ {D : Type 0} (os : FileSystem D) where
  -- An error of Stat that is not IsNotExist leaves f nil, and f.Mode() panics.
  unfoldable pub new_filesystem_cache : String → Act D String
  new_filesystem_cache directory d = elim (os.stat directory d) [
    | not_exist ↦
        (do wrapped (os.mkdir_all directory) "failed to create directory"; pure directory) d
    | refused ↦ panic d
    | found is_dir ↦
        if not is_dir then raise (failed "path is not a directory") d else pure directory d
  ]

  module _ (directory : String) where
    unfoldable pub get : String → D → Option String
    get key d = os.read_file (path_of directory key) d

    -- What Set does before it writes, by what Stat gave back.
    unfoldable pub make_directory : Stat → String → Act D (Unit {0})
    make_directory not_exist p = wrapped (os.mkdir_all (os.dir p)) "failed to create directory"
    make_directory refused p = pure tt
    make_directory (found is_dir) p = pure tt

    unfoldable pub set : String → String → Act D (Unit {0})
    unfolding make_directory
    set key content d =
        (do
          make_directory (os.stat (path_of directory key) d) (path_of directory key)
          os.write_file (path_of directory key) content)
          d

    -- One round of the loop: file.Name()[:len(prefix)] panics on a shorter name.
    unfoldable pub delete_entry : String → DirEntry → Act D (Unit {0})
    delete_entry prefix file =
        if file.is_dir || not file.is_regular
        then pure tt
        else (if ltb (len file.name) (len prefix)
            then panic
            else (if starts_with file.name prefix
                then wrapped (os.remove (path_of directory file.name)) "failed to delete file"
                else pure tt))

    unfoldable pub delete_entries : String → List DirEntry → Act D (Unit {0})
    unfolding delete_entry
    delete_entries prefix [] = pure tt
    delete_entries prefix (file ∷ files) =
        let rest = delete_entries prefix files in (do delete_entry prefix file; rest)

    unfoldable pub delete_with_prefix : String → Act D (Unit {0})
    delete_with_prefix prefix d = elim (os.read_dir directory d) [
      | none ↦ (err (failed "failed to read directory"), d)
      | some files ↦ delete_entries prefix files d
    ]

    -- FilesystemCache as an implementation of Cache: time and duration are not used.
    abbrev pub filesystem_cache : Cache D
    filesystem_cache = record {
      get = λ now. get;
      set = λ now key content duration. set key content;
      delete_with_prefix = delete_with_prefix;
      name = "Filesystem";
    }
