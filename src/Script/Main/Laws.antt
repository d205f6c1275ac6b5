-- ===== src/Script/Main/Laws.antt =====
-- How `main` ends.
use influxdb_relay.Base.{
  subst, sym, ap, ℕ, String, ◌<>◌, Bool, true, false, not, Option, none, some, ◌∷◌, ◌≡◌, ◌∙◌, inl,
  inr, Bool-cases, arith, eq_iff,
}
use influxdb_relay.Base.Text.{words}
use influxdb_relay.Os.{◌>>◌, Os, Trace, Outcome, returned, ran, argv, printed, pure, when}
use influxdb_relay.Script.Shell.{run}
use influxdb_relay.Script.Repo.{get_current_branch, branch_command}
use influxdb_relay.Os.Inversion.{>>=-returned}
use influxdb_relay.Script.Repo.Laws.{text_of, get_current_branch_lem, run_checked}
use influxdb_relay.Script.Digest.{Md5}
use influxdb_relay.Script.Main.{
  Args, BuildOutput, checkout, dependencies, build_all, make_packages, return_to, finish,
  after_builds, after_dependencies, after_checkout, main_build, main,
}
use text.Mathlib.Text.{◌==◌ as str_eq}

-- A release and a nightly build at once are refused before anything is done.
pub main_release_and_nightly :
    (os : Os) (md5 : Md5) (args : Args) (t : Trace)
    → args.release ≡ true
    → args.nightly ≡ true
    → main os md5 args t ≡ (returned 1, t)
unfolding main
main_release_and_nightly os md5 args t r n = rw (r, n)

-- The branch that the repository is on, as `get_current_branch` would answer.
abbrev pub IsOn : Os → String → Trace → Type 0
IsOn os branch t = (get_current_branch os t).0 ≡ returned branch

abbrev asked : Trace → Trace
asked t = ran (argv (words branch_command)) ∷ t

-- What git documents of `rev-parse` and `checkout`: asking for the branch changes nothing, and
-- after a checkout of the branch that went well it is the current one.
pub record IsGit (os : Os) (branch : String) : Type 0 where
  pub asks_again :
      (t : Trace)
      → os.check_output (ran (argv (words branch_command)) ∷ t) (argv (words branch_command))
        ≡ os.check_output t (argv (words branch_command))
  pub checks_out :
      (t : Trace) (out : String)
      → os.check_output t (argv (words ("git checkout " <> branch))) ≡ printed out
      → text_of (
          os.check_output
            (ran (argv (words ("git checkout " <> branch))) ∷ t)
            (argv (words branch_command)))
        ≡ returned branch

IsOn-text_of :
    (os : Os) (branch : String) (t : Trace)
    → text_of (os.check_output t (argv (words branch_command))) ≡ returned branch
    → IsOn os branch t
IsOn-text_of os branch t h = rw (get_current_branch_lem os t) h

module _ (os : Os) (branch : String) (git : IsGit os branch) where
  stays : (current : String) (t : Trace) → IsOn os current t → IsOn os current (asked t)
  stays current t h =
      IsOn-text_of os current (asked t)
        (ap text_of (git.asks_again t) ∙ rw (get_current_branch_lem os t) at h)

  stays_after :
      (current : String) (t : Trace)
      → IsOn os current t
      → IsOn os current (get_current_branch os t).1
  stays_after current t on = rw (get_current_branch_lem os t) (stays current t on)

  checked_out :
      (t : Trace) (out : Option String)
      → (run os ("git checkout " <> branch) false false t).0 ≡ returned out
      → IsOn os branch (run os ("git checkout " <> branch) false false t).1
  checked_out t out h =
      let (answer, trace) = run_checked os ("git checkout " <> branch) t out h in
      rw trace (IsOn-text_of os branch _ (git.checks_out t answer.0 answer.1))

  switched :
      (t : Trace)
      → ((run os ("git checkout " <> branch) false false >> pure tt) t).0 ≡ returned tt
      → IsOn os branch ((run os ("git checkout " <> branch) false false >> pure tt) t).1
  switched t h =
      let (out, went, rest) =
        >>=-returned (run os ("git checkout " <> branch) false false) (λ _. pure tt) t h in
      rw rest (checked_out t out went)

  back :
      (current : String) (t : Trace)
      → IsOn os current t
      → (when
          (not (str_eq branch current))
          (run os ("git checkout " <> branch) false false >> pure tt)
          t).0
        ≡ returned tt
      → IsOn os branch
          (when
            (not (str_eq branch current))
            (run os ("git checkout " <> branch) false false >> pure tt)
            t).1
  back current t on h = elim (Bool-cases (str_eq branch current)) [
    | inl e ↦ rw e (subst (λ b. IsOn os b t) (sym ((eq_iff branch current).0 e)) on)
    | inr e ↦ rw e (switched t (rw e at h))
  ]

  -- Where `return_to` returns, the repository is on the branch.
  return_to-IsOn :
      (t : Trace)
      → (return_to os branch t).0 ≡ returned tt
      → IsOn os branch (return_to os branch t).1
  unfolding return_to
  return_to-IsOn t h =
      let (current, on, rest) = >>=-returned (get_current_branch os) _ t h in
      rw rest (back current _ (stays_after current t on) (ap (λ r. r.0) (sym rest) ∙ h))

pub not_zero : {P : Type 0} → ◌≡◌ {A = Outcome ℕ} (returned 1) (returned 0) → P
not_zero h = absurd (ground arith)

module _ (os : Os) (md5 : Md5) (args : Args) (branch : String) (git : IsGit os branch) where
  finish-IsOn :
      (packed : Bool) (t : Trace)
      → (finish os md5 branch packed t).0 ≡ returned 0
      → IsOn os branch (finish os md5 branch packed t).1
  unfolding finish
  finish-IsOn false t h = not_zero h
  finish-IsOn true t h =
      let (u, went, rest) = >>=-returned (return_to os branch) (λ _. pure 0) t h in
      rw rest (return_to-IsOn os branch git t went)

  after_builds-IsOn :
      (built : Option BuildOutput) (t : Trace)
      → (after_builds os md5 args branch built t).0 ≡ returned 0
      → IsOn os branch (after_builds os md5 args branch built t).1
  unfolding after_builds
  after_builds-IsOn none t h = not_zero h
  after_builds-IsOn (some output) t h =
      let (packed, went, rest) =
        >>=-returned (make_packages os md5 args output) (finish os md5 branch) t h in
      rw rest (finish-IsOn packed _ (ap (λ r. r.0) (sym rest) ∙ h))

  after_dependencies-IsOn :
      (ready : Bool) (t : Trace)
      → (after_dependencies os md5 args branch ready t).0 ≡ returned 0
      → IsOn os branch (after_dependencies os md5 args branch ready t).1
  unfolding after_dependencies
  after_dependencies-IsOn false t h = not_zero h
  after_dependencies-IsOn true t h =
      let (built, went, rest) =
        >>=-returned (build_all os args) (after_builds os md5 args branch) t h in
      rw rest (after_builds-IsOn built _ (ap (λ r. r.0) (sym rest) ∙ h))

  after_checkout-IsOn :
      (moved : Bool) (t : Trace)
      → (after_checkout os md5 args branch moved t).0 ≡ returned 0
      → IsOn os branch (after_checkout os md5 args branch moved t).1
  unfolding after_checkout
  after_checkout-IsOn false t h = not_zero h
  after_checkout-IsOn true t h =
      let (ready, went, rest) =
        >>=-returned (dependencies os args) (after_dependencies os md5 args branch) t h in
      rw rest (after_dependencies-IsOn ready _ (ap (λ r. r.0) (sym rest) ∙ h))

  -- Over a git that behaves as documented for a branch: where `main_build` returns
  -- 0, the repository is on that branch, whatever was checked out and built.
  pub main_build-IsOn :
      (commit : String) (t : Trace)
      → (main_build os md5 args commit branch t).0 ≡ returned 0
      → IsOn os branch (main_build os md5 args commit branch t).1
  unfolding main_build
  main_build-IsOn commit t h =
      let (moved, went, rest) =
        >>=-returned (checkout os args commit branch) (after_checkout os md5 args branch) t h in
      rw rest (after_checkout-IsOn moved _ (ap (λ r. r.0) (sym rest) ∙ h))
