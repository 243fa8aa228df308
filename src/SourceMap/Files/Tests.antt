-- ===== src/SourceMap/Files/Tests.antt =====
-- Runs on a small tree of map directories.
use Prim.Native.String
use crashlens.Base.{
  ◌≡◌, refl, String, true, false, Option, none, some, List, [], ◌∷◌, order_by, insert_by, any, ◌==◌,
  string_eq, if◌then◌else◌,
}
use crashlens.SourceMap.Symbolicate.{Disk, absent, release_dirname, strip_right}
use crashlens.SourceMap.Files.{
  Stat, Tree, Codec, release_from_dirname, list_release_maps, delete_release_maps,
  prune_expired_release_maps, release_dirs_older_than, walk_release_dirs,
}

abbrev disk : Disk
disk = record {
  urlsafe_b64encode = λ s. s;
  path_join = λ s t. String.◌++◌ s (String.◌++◌ "/" t);
  path_basename = λ s. s;
  file = λ s. absent;
}

abbrev codec : Codec
codec = record { urlsafe_b64decode = λ s. some s; isoformat = λ t. "t"; first = λ a b. true }

abbrev names : String → Option (List String)
names path =
    if path == "m"
    then some ("o" ∷ [])
    else if path == "m/o"
    then some ("p" ∷ "stray" ∷ [])
    else if path == "m/o/p"
    then some ("old1" ∷ "new1" ∷ [])
    else if path == "m/o/p/new1"
    then some ("a.js.map" ∷ "note" ∷ [])
    else none

abbrev stat_of : String → Option Stat
stat_of path =
    if path == "m/o/p/old1"
    then some (record { size = 0; mtime = 3 })
    else some (record { size = 7; mtime = 9 })

abbrev tree : Tree
tree = record {
  listdir = names;
  isdir = λ s. any (λ t. t == s) ("m/o" ∷ "m/o/p" ∷ "m/o/p/old1" ∷ "m/o/p/new1" ∷ []);
  stat = stat_of;
  rmtree = λ s. true;
}

old_release_goes : prune_expired_release_maps disk tree "m" 5 ≡ "m/o/p/old1" ∷ []
unfolding prune_expired_release_maps release_dirs_older_than walk_release_dirs
old_release_goes = refl

one_release_listed :
    list_release_maps disk tree codec "m" "o" "p"
    ≡ record {
      release = "new1";
      files = record { basename = "a.js.map"; size = 7; uploaded_at = "t" } ∷ [];
      newest = 9;
    }
      ∷ []
unfolding list_release_maps release_from_dirname order_by insert_by
one_release_listed = refl

release_removed : delete_release_maps disk tree "m" "o" "p" "new1=" ≡ some (true, "m/o/p/new1" ∷ [])
unfolding delete_release_maps release_dirname strip_right
release_removed = refl

absent_release : delete_release_maps disk tree "m" "o" "p" "other" ≡ some (false, [])
unfolding delete_release_maps release_dirname strip_right
absent_release = refl
