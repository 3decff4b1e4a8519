-- ===== src/Tests/Disks.antt =====
-- A disk and a Redis server for the examples: a list of files, and a list of keys with their ends.
use uplink_relay.Common.{
  ◌+◌, ltb, String, ◌≡◌, ◌≢◌, refl, true, false, Bool-cases, inl, inr, Option, none, some, List, [],
  ◌∷◌, ℤ, pos, negsuc, Time, ◌==◌, ◌<>◌, if◌then◌else◌, lookup, without, insert, lookup-insert,
  lookup-without, eq_refl, eq_iff, strip_prefix, ok, arith, lt→ltb, eqb,
}
use uplink_relay.FilesystemCache.{FileSystem, not_exist, found, DirEntry}
use uplink_relay.FilesystemCache.Reading.{IsDocumented}
use uplink_relay.Redis.{Client, Reply, value, nil}
use uplink_relay.Redis.Expiration as Redis
use uplink_relay.Redis.Expiration.{is_member}

abbrev pub Disk : Type 0
Disk = List (String × String)

abbrev pub file : String → DirEntry
file name = record { name = name; is_dir = false; is_regular = true }

-- The files of a directory.
abbrev pub files_of : String → Disk → List DirEntry
files_of directory [] = []
files_of directory ((p, content) ∷ d) =
    let rest = files_of directory d in
    elim (strip_prefix p (directory <> "/")) [ none ↦ rest | some name ↦ file name ∷ rest ]

-- The only directory is "c".
abbrev pub disk : FileSystem Disk
disk = record {
  stat = λ p d.
      if p == "c"
      then found true
      else elim (lookup p d) [ none ↦ not_exist | some _ ↦ found false ];
  read_file = λ p d. lookup p d;
  mkdir_all = λ p d. (ok tt, d);
  write_file = λ p content d. (ok tt, insert p content d);
  read_dir = λ p d. some (files_of p d);
  remove = λ p d. (ok tt, without p d);
  dir = λ p. "c";
}

pub apart : (p q : String) → p ≢ q → p == q ≡ false
apart p q other = elim (Bool-cases (p == q)) [
  | inl same ↦ absurd (other ((eq_iff p q).0 same))
  | inr no_ ↦ no_
]

pub missed : (p q : String) (d : Disk) → lookup q d ≡ none → lookup q (without p d) ≡ none
missed p q d missing = rw (lookup-without p q d, missing) (ground arith)

unfoldable pub disk-IsDocumented : IsDocumented disk
disk-IsDocumented = record {
  Different = λ p q. p ≢ q;
  write_reads = λ p v d h. rw (lookup-insert p p v d, eq_refl) refl;
  write_apart = λ p q v d other. rw (lookup-insert p q v d, apart p q other) refl;
  mkdir_apart = λ p q d. refl;
  remove_gone = λ p d h. rw (lookup-without p p d, eq_refl) refl;
  remove_creates = missed;
  remove_apart = λ p q d other. rw (lookup-without p q d, apart p q other) refl;
  write_returns = λ p v d h. cc;
  mkdir_returns = λ p d h. cc;
  remove_returns = λ p d h. cc;
}

-- The content of a key, and its end, where it has one.
abbrev pub Keys : Type 0
Keys = List (String × (String × Option Time))

abbrev reply_at : Time → Option (String × Option Time) → Reply
reply_at now none = nil
reply_at now (some (content, none)) = value content
reply_at now (some (content, some end)) = if ltb now end then value content else nil

abbrev end_of : Time → ℤ → Option Time
end_of now (pos n) = if eqb n 0 then none else some (now + n)
end_of now (negsuc n) = none

abbrev pub all_keys : Keys → List String
all_keys [] = []
all_keys ((key, entry) ∷ keys) = key ∷ all_keys keys

abbrev delete : List String → Keys → Keys
delete [] r = r
delete (key ∷ keys) r = without key (delete keys r)

abbrev pub server : Client Keys
server = record {
  get = λ now key r. reply_at now (lookup key r);
  set = λ now key content expiration r. (ok tt, insert key (content, end_of now expiration) r);
  keys = λ pattern r. all_keys r;
  del = λ keys r. (ok tt, delete keys r);
}

lookup-delete :
    (keys : List String) (j : String) (r : Keys)
    → lookup j (delete keys r) ≡ (if is_member j keys then none else lookup j r)
lookup-delete [] j r = refl
lookup-delete (key ∷ keys) j r =
    ground (arith, lookup-without key j (delete keys r), lookup-delete keys j r)

value-eq :
    (now : Time) (content v : String) (end : Option Time)
    → reply_at now (some (content, end)) ≡ value v
    → v ≡ content
value-eq now content v none h = cc
value-eq now content v (some end) h = ground (arith, h)

pub server-IsDocumented : Redis.IsDocumented server
server-IsDocumented = record {
  set_lasting =
      λ now later key content r h. rw (lookup-insert key key (content, none) r, eq_refl) refl;
  set_expiring = λ now later key content n r h soon.
      rw (lookup-insert key key (content, end_of now (pos n)) r, eq_refl)
        (ground (arith, lt→ltb later (now + n) soon));
  set_reads = λ now later key content v e r h read.
      let stored = lookup-insert key key (content, end_of now e) r in
      value-eq later content v (end_of now e) (rw (stored, eq_refl) at read);
  set_apart = λ now later key j content e r other.
      rw (lookup-insert key j (content, end_of now e) r, apart key j other) refl;
  set_returns = λ now key content e r h. cc;
  del_keys = λ keys now j r h. rw (lookup-delete keys j r) (ground arith);
}

pub server_succeeds :
    (now : Time) (key content : String) (e : ℤ) (r : Keys)
    → (server.set now key content e r).0 ≡ ok tt
server_succeeds now key content e r = refl
