-- ===== src/Tests/World.antt =====
-- A machine to run build.py on: git on branch "master" until another is checked out, Go 1.17, and a
-- file system where the programs of /bin exist and nothing fails.
use influxdb_relay.Base.{
  ℕ, String, ◌<>◌, true, false, ◌||◌, none, some, List, [], ◌∷◌, ◌++◌, refl, if◌then◌else◌,
}
use influxdb_relay.Base.Text.{join, words, strip}
use influxdb_relay.Os.{Os, Trace, ran, Command, argv, shell, CommandResult, printed}
use influxdb_relay.Script.Digest.{Md5}
use influxdb_relay.Script.Main.Laws.{IsGit}
use text.Mathlib.Text.{◌==◌}

-- The branch of the newest checkout.
unfoldable pub branch_in : Trace → String
branch_in [] = "master"
branch_in (ran (argv (g ∷ c ∷ b ∷ [])) ∷ t) =
    let rest = branch_in t in if c == "checkout" then b else rest
branch_in (_ ∷ t) = branch_in t

answer : Trace → String → CommandResult
answer t command =
    if command == "git rev-parse --abbrev-ref HEAD"
    then printed (branch_in t <> "\n")
    else if command == "git log --pretty=format:'%h' -n 1"
    then printed "'a1b2c3d'"
    else if command == "go version"
    then printed "go version go1.17 linux/amd64\n"
    else printed ""

unfoldable pub respond : Trace → Command → CommandResult
unfolding answer branch_in join
respond t (argv ws) = answer t (join " " ws)
respond t (shell s) = printed "{:path=>\"influxdb-relay_1.2.0-1_amd64.deb\"}"

abbrev pub machine : Os
machine = record {
  check_output = respond;
  popen = λ t ws. some "a\na/vendor/b\n";
  fails = λ t a. false;
  exists = λ t p. true;
  is_file = λ t p. p == "/bin/git" || p == "/bin/go" || p == "/bin/fpm";
  may_execute = λ t p. true;
  mkdtemp = λ t p. some ("/tmp/" <> p);
  contents = λ t p. some (1 ∷ 2 ∷ []);
  environ = λ v. if v == "PATH" then some "/usr:/bin" else none;
  cwd = "/work";
  machine = "x86_64";
  platform = "linux2";
  utc_stamp = λ t. "202001020304";
}

-- A hash that keeps what it is given, and prints its length in strokes.
abbrev pub strokes : Md5
strokes = record { State = List ℕ; start = []; update = λ s bytes. s ++ bytes; hexdigest = dashes }
  where
    dashes : List ℕ → String
    dashes [] = ""
    dashes (b ∷ bytes) = "-" <> dashes bytes

-- The machine's git behaves as documented for its branches.
pub machine-IsGit : IsGit machine "master"
unfolding respond words strip
machine-IsGit = record { asks_again = λ t. refl; checks_out = λ t out h. refl }
