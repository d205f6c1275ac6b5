-- ===== src/Script/Host/Laws.antt =====
-- Where a program is found.
use influxdb_relay.Base.{
  String, Bool, true, false, Option, none, some, List, [], ◌∷◌, ◌≡◌, refl, ◌&&◌, ◌==◌, inl, inr,
  Bool-cases,
}
use influxdb_relay.Base.Text.{strip_by, split}
use influxdb_relay.Os.{Os, Trace, Outcome, returned, ◌>>=◌, asks, or_raise}
use influxdb_relay.Script.{join_path}
use influxdb_relay.Script.Host.{first_executable, check_path_for}

-- The file that an entry of PATH would give.
abbrev pub candidate : String → String → String
candidate b path = join_path (strip_by (λ c. c == b'"') path) b

abbrev pub runs : Os → Trace → String → String → Bool
runs os t b path = os.is_file t (candidate b path) && os.may_execute t (candidate b path)

-- The answer for a list of entries: the file of the first one that gives an executable file.
pub data IsFirst (os : Os) (t : Trace) (b : String) : List String → Option String → Type 0 where
  nowhere : IsFirst os t b [] none
  here :
      (path : String) (paths : List String)
      → runs os t b path ≡ true
      → IsFirst os t b (path ∷ paths) (some (candidate b path))
  later :
      (path : String) (paths : List String) (o : Option String)
      → runs os t b path ≡ false
      → IsFirst os t b paths o
      → IsFirst os t b (path ∷ paths) o

abbrev pub Finds : Os → Trace → String → List String → Outcome (Option String) × Trace → Type 0
Finds os t b paths r = (o : Option String) × (r ≡ (returned o, t)) × IsFirst os t b paths o

first_executable-Finds :
    (os : Os) (t : Trace) (b : String) (paths : List String)
    → Finds os t b paths (first_executable os paths b t)
unfolding first_executable ◌>>=◌ asks
first_executable-Finds os t b [] = (none, refl, nowhere)
first_executable-Finds os t b (path ∷ paths) = elim (Bool-cases (runs os t b path)) [
  | inl e ↦ (some (candidate b path), rw e, here path paths e)
  | inr e ↦
      let (o, same, first) = first_executable-Finds os t b paths in
      (o, rw e same, later path paths o e first)
]

-- With a PATH, `check_path_for` changes nothing and returns the file of the first entry that gives an
-- executable file, or None where no entry does.
pub check_path_for-Finds :
    (os : Os) (t : Trace) (b path : String)
    → os.environ "PATH" ≡ some path
    → Finds os t b (split ":" path) (check_path_for os b t)
unfolding check_path_for ◌>>=◌ or_raise
check_path_for-Finds os t b path h = rw h (first_executable-Finds os t b (split ":" path))
