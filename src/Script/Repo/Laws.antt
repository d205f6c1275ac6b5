-- ===== src/Script/Repo/Laws.antt =====
-- What `get_current_branch` and `go_get` come to, by the answers of git.
use influxdb_relay.Base.{String, Option, ◌≡◌, refl, ◌∷◌, false}
use influxdb_relay.Base.Text.{strip, words}
use influxdb_relay.Os.{
  attribute_error, pure, Os, Trace, M, Outcome, returned, raised, exited, ran, argv, CommandResult,
  printed, undecodable, failed, not_started, ◌>>=◌, asks, tell, or_raise, raise, sys_exit,
  unicode_error,
}
use influxdb_relay.Script.Shell.{run, run_result}
use influxdb_relay.Script.Repo.{get_current_branch, branch_command}

pub run_plain :
    (os : Os) (command : String) (t : Trace)
    → run os command false false t
      ≡ run_result false (os.check_output t (argv (words command))) (ran (argv (words command)) ∷ t)
unfolding run ◌>>=◌ asks tell
run_plain os command t = refl

-- The text that a command's answer gives, stripped once more, or how the script ends.
abbrev pub text_of : CommandResult → Outcome String
text_of (printed out) = returned (strip (strip out))
text_of undecodable = raised unicode_error
text_of failed = exited 1
text_of not_started = exited 1

-- What `get_current_branch` makes of the result of `run`.
branch_text : CommandResult → M String
branch_text r = do out ← run_result false r; text ← or_raise out attribute_error; pure (strip text)

branch_text_lem : (r : CommandResult) (t : Trace) → branch_text r t ≡ (text_of r, t)
unfolding branch_text ◌>>=◌ or_raise run_result raise sys_exit
branch_text_lem (printed out) t = refl
branch_text_lem undecodable t = refl
branch_text_lem failed t = refl
branch_text_lem not_started t = refl

pub get_current_branch_lem :
    (os : Os) (t : Trace)
    → get_current_branch os t ≡ (
      text_of (os.check_output t (argv (words branch_command))),
      ran (argv (words branch_command)) ∷ t,
    )
unfolding get_current_branch branch_text ◌>>=◌ run asks tell
get_current_branch_lem os t = branch_text_lem (os.check_output t (argv (words branch_command))) _

-- A plain `run` that returned has printed something, and has left its command on the trace.
pub run_checked :
    (os : Os) (command : String) (t : Trace) (o : Option String)
    → (run os command false false t).0 ≡ returned o
    → ((out : String) × (os.check_output t (argv (words command)) ≡ printed out))
      × ((run os command false false t).1 ≡ ran (argv (words command)) ∷ t)
unfolding run ◌>>=◌ asks tell run_result raise sys_exit
run_checked os command t o h = outcome (os.check_output t (argv (words command))) refl h
  where
    outcome :
        (r : CommandResult)
        → os.check_output t (argv (words command)) ≡ r
        → (run_result false r (ran (argv (words command)) ∷ t)).0 ≡ returned o
        → ((out : String) × (os.check_output t (argv (words command)) ≡ printed out))
          × ((run_result false
                (os.check_output t (argv (words command)))
                (ran (argv (words command)) ∷ t)).1
              ≡ ran (argv (words command)) ∷ t)
    outcome (printed out) e h = ((out, e), rw e)
    outcome undecodable e h = absurd (cc)
    outcome failed e h = absurd (cc)
    outcome not_started e h = absurd (cc)
