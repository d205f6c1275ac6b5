-- ===== src/Os.antt =====
-- What build.py runs on: the operating system, git, go and fpm as an oracle, and the effects of the
-- script as a list of events. Code of Python's standard library, of subprocesses and of the file
-- system is outside the repository: an `Os` answers each question, from all that happened before.
pub mod Keeps
pub mod Inversion
use influxdb_relay.Base.{
  ℕ, Bool, true, false, String, Option, none, some, List, [], ◌∷◌, if◌then◌else◌,
}

-- `run` passes a text to the shell, or a list of arguments to the program that it begins with.
pub data Command : Type 0 where
  argv : List String → Command
  shell : String → Command

-- What `check_output(...).decode('utf-8')` comes to.
pub data CommandResult : Type 0 where
  printed : String → CommandResult
  undecodable : CommandResult
  failed : CommandResult
  not_started : CommandResult

-- Calls that change the file system.
pub data Action : Type 0 where
  makedirs rmtree : String → Action
  chmod : String → ℕ → Action
  copyfile copy rename : String → String → Action

pub data Event : Type 0 where
  ran : Command → Event
  listed : List String → Event
  did : Action → Event
  made_temp : String → Event
  reported : String → String → Event

-- The newest event stands first.
abbrev pub Trace : Type 0
Trace = List Event

pub record Os : Type 0 where
  -- subprocess.check_output, subprocess.Popen(...).communicate()
  pub check_output : Trace → Command → CommandResult
  pub popen : Trace → List String → Option String
  -- whether a call raises OSError
  pub fails : Trace → Action → Bool
  -- os.path.exists, os.path.isfile, os.access(..., os.X_OK)
  pub exists : Trace → String → Bool
  pub is_file : Trace → String → Bool
  pub may_execute : Trace → String → Bool
  -- tempfile.mkdtemp(prefix=...), where it does not raise
  pub mkdtemp : Trace → String → Option String
  -- open(path, 'rb').read()
  pub contents : Trace → String → Option (List ℕ)
  -- os.environ, os.getcwd(), os.uname()[4], sys.platform
  pub environ : String → Option String
  pub cwd : String
  pub machine : String
  pub platform : String
  -- datetime.utcnow().strftime("%Y%m%d%H%M")
  pub utc_stamp : Trace → String

pub data Exception : Type 0 where
  key_error name_error type_error attribute_error value_error os_error unicode_error : Exception

-- How a call ends: with a value, by an exception, or by sys.exit.
pub data Outcome (A : Type 0) : Type 0 where
  returned : A → Outcome A
  raised : Exception → Outcome A
  exited : ℕ → Outcome A

abbrev pub M : Type 0 → Type 0
M A = Trace → Outcome A × Trace

abbrev pub pure : {A : Type 0} → A → M A
pure a t = (returned a, t)

unfoldable pub raise : {A : Type 0} → Exception → M A
raise e t = (raised e, t)

unfoldable pub sys_exit : {A : Type 0} → ℕ → M A
sys_exit n t = (exited n, t)

abbrev pub then_with : {A B : Type 0} → Outcome A → Trace → (A → M B) → Outcome B × Trace
then_with (returned a) t f = f a t
then_with (raised e) t f = (raised e, t)
then_with (exited n) t f = (exited n, t)

infixl 5 ◌>>=◌ ◌>>◌
unfoldable pub ◌>>=◌ : {A B : Type 0} → M A → (A → M B) → M B
◌>>=◌ m f t = let (o, t') = m t in then_with o t' f

abbrev pub ◌>>◌ : {A B : Type 0} → M A → M B → M B
m >> k = m >>= λ _. k

-- A question to the operating system.
unfoldable pub asks : {A : Type 0} → (Trace → A) → M A
asks q t = (returned (q t), t)

unfoldable pub tell : Event → M (Unit {0})
tell e t = (returned tt, e ∷ t)

-- `try: m finally: last`
abbrev pub end_with : {A : Type 0} → Outcome A → Outcome (Unit {0}) × Trace → Outcome A × Trace
end_with o (returned _, t) = (o, t)
end_with o (raised e, t) = (raised e, t)
end_with o (exited n, t) = (exited n, t)

unfoldable pub try_finally : {A : Type 0} → M A → M (Unit {0}) → M A
try_finally m last t = let (o, t') = m t in end_with o (last t')

unfoldable pub for_each : {A : Type 0} → List A → (A → M (Unit {0})) → M (Unit {0})
for_each [] f = pure tt
for_each (x ∷ xs) f = f x >> for_each xs f

unfoldable pub or_raise : {A : Type 0} → Option A → Exception → M A
unfolding raise
or_raise none e = raise e
or_raise (some a) e = pure a

abbrev pub when : Bool → M (Unit {0}) → M (Unit {0})
when true m = m
when false m = pure tt

module _ (os : Os) where
  -- A call that fails leaves its attempt in the trace.
  unfoldable pub perform : Action → M (Unit {0})
  unfolding tell asks raise ◌>>=◌
  perform a = do
    broken ← asks (λ t. os.fails t a)
    tell (did a)
    if broken then raise os_error else pure tt

  unfoldable pub mkdtemp : String → M String
  unfolding tell asks or_raise ◌>>=◌
  mkdtemp prefix = do
    made ← asks (λ t. os.mkdtemp t prefix)
    path ← or_raise made os_error
    tell (made_temp path)
    pure path
