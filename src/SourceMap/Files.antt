-- ===== src/SourceMap/Files.antt =====
-- The directories of uploaded maps in server/app/sourcemaps.py: listing, deletion and the pruning by age.
-- A time counts microseconds from the midnight of the calendar's first day.
mod Tests
use Prim.Native.String
use mathlib.Core.List
use crashlens.Base.{
  ℕ, ◌-◌, ◌%◌, String, Bool, true, false, not, Option, none, some, List, [], ◌∷◌, ◌++◌, keep_if,
  map, order_by, max, length, count, ltb, leb, ◌==◌, nat_eq, string_eq, if◌then◌else◌,
}
use crashlens.SourceMap.Symbolicate.{Disk, ends_with, project_maps_dir, release_maps_dir}

-- What `os.stat` says of a path.
pub record Stat : Type 0 where
  pub size : ℕ
  pub mtime : ℕ

-- The directories as the code asks for them: none is an OSError. `rmtree` says whether a removal
-- succeeds.
pub record Tree : Type 0 where
  pub listdir : String → Option (List String)
  pub isdir : String → Bool
  pub stat : String → Option Stat
  pub rmtree : String → Bool

-- What the listing takes from Python besides: the decoding of padded base64url, none where it raises,
-- the ISO text of a time, and the order of texts.
pub record Codec : Type 0 where
  pub urlsafe_b64decode : String → Option String
  pub isoformat : ℕ → String
  pub first : String → String → Bool

-- `"=" * (-n % 4)`, for n modulo 4.
abbrev pub padding : ℕ → String
padding r = if r == 1 then "===" else if r == 2 then "==" else if r == 3 then "=" else ""

unfoldable pub release_from_dirname : Codec → String → Option String
release_from_dirname c dirname =
    c.urlsafe_b64decode (String.◌++◌ dirname (padding (count dirname % 4)))

unfoldable pub destination_path : Disk → String → String → String → String → String → String
destination_path d sourcemaps_dir org_id project_id release basename =
    d.path_join (release_maps_dir d sourcemaps_dir org_id project_id release) basename

pub record MapFile : Type 0 where
  pub basename : String
  pub size : ℕ
  pub uploaded_at : String

pub record Release : Type 0 where
  pub release : String
  pub files : List MapFile
  -- The key of the sort.
  pub newest : ℕ

pub record Scanned : Type 0 where
  pub files : List MapFile
  pub newest : ℕ

abbrev pub with_file : Codec → String → Option Stat → Scanned → Scanned
with_file c name none rest = rest
with_file c name (some s) rest = record {
  files = record { basename = name; size = s.size; uploaded_at = c.isoformat s.mtime } ∷ rest.files;
  newest = max s.mtime rest.newest;
}

-- The loop over the entries of a release's directory.
abbrev pub scan_files : Disk → Tree → Codec → String → List String → Scanned
scan_files d t c path [] = record { files = []; newest = 0 }
scan_files d t c path (name ∷ names) =
    let rest = scan_files d t c path names in
    if ends_with name ".map" then with_file c name (t.stat (d.path_join path name)) rest else rest

abbrev pub with_release : Codec → String → Scanned → List Release → List Release
with_release c release s rest =
    if length s.files == 0
    then rest
    else record {
      release = release;
      files = order_by (λ (a b : MapFile). c.first a.basename b.basename) s.files;
      newest = s.newest;
    }
      ∷ rest

abbrev pub on_entries :
    Disk → Tree → Codec → String → String → Option (List String) → List Release → List Release
on_entries d t c path release none rest = rest
on_entries d t c path release (some names) rest =
    with_release c release (scan_files d t c path names) rest

abbrev pub on_release : Disk → Tree → Codec → String → Option String → List Release → List Release
on_release d t c path none rest = rest
on_release d t c path (some release) rest =
    if t.isdir path then on_entries d t c path release (t.listdir path) rest else rest

abbrev pub scan_releases : Disk → Tree → Codec → String → List String → List Release
scan_releases d t c base [] = []
scan_releases d t c base (dirname ∷ dirnames) =
    on_release d t c (d.path_join base dirname) (release_from_dirname c dirname)
      (scan_releases d t c base dirnames)

abbrev pub of_listing : Disk → Tree → Codec → String → Option (List String) → List Release
of_listing d t c base none = []
of_listing d t c base (some dirnames) =
    order_by (λ (a b : Release). leb b.newest a.newest) (scan_releases d t c base dirnames)

unfoldable pub list_release_maps : Disk → Tree → Codec → String → String → String → List Release
unfolding release_from_dirname
list_release_maps d t c sourcemaps_dir org_id project_id =
    let base = project_maps_dir d sourcemaps_dir org_id project_id in
    of_listing d t c base (t.listdir base)

-- Whether one was removed, with the path; none is an OSError of the removal.
unfoldable pub delete_release_maps :
    Disk → Tree → String → String → String → String → Option (Bool × List String)
delete_release_maps d t sourcemaps_dir org_id project_id release =
    let path = release_maps_dir d sourcemaps_dir org_id project_id release in
    if t.isdir path
    then (if t.rmtree path then some (true, path ∷ []) else none)
    else some (false, [])

unfoldable pub release_dirs_older_than : List (String × ℕ) → ℕ → List String
release_dirs_older_than entries cutoff =
    map (λ (e : String × ℕ). e.0) (keep_if (λ (e : String × ℕ). ltb e.1 cutoff) entries)

-- One level of the walk: the subdirectories of a directory that can be listed.
abbrev pub below : Disk → Tree → String → List String → List String
below d t path [] = []
below d t path (name ∷ names) =
    let rest = below d t path names in
    let child = d.path_join path name in if t.isdir child then child ∷ rest else rest

abbrev pub children_of : Disk → Tree → String → Option (List String) → List String
children_of d t path none = []
children_of d t path (some names) = below d t path names

abbrev pub children : Disk → Tree → List String → List String
children d t [] = []
children d t (path ∷ paths) = children_of d t path (t.listdir path) ++ children d t paths

abbrev pub with_mtime : String → Option Stat → List (String × ℕ) → List (String × ℕ)
with_mtime path none rest = rest
with_mtime path (some s) rest = (path, s.mtime) ∷ rest

abbrev pub with_mtimes : Tree → List String → List (String × ℕ)
with_mtimes t [] = []
with_mtimes t (path ∷ paths) = with_mtime path (t.stat path) (with_mtimes t paths)

-- `{sourcemaps_dir}/{org}/{project}/{release}`, in the order of the nested loops.
unfoldable pub walk_release_dirs : Disk → Tree → String → List (String × ℕ)
walk_release_dirs d t sourcemaps_dir =
    with_mtimes t (children d t (children d t (children d t (sourcemaps_dir ∷ []))))

unfoldable pub prune_expired_release_maps : Disk → Tree → String → ℕ → List String
unfolding release_dirs_older_than walk_release_dirs
prune_expired_release_maps d t sourcemaps_dir cutoff =
    keep_if t.rmtree (release_dirs_older_than (walk_release_dirs d t sourcemaps_dir) cutoff)
