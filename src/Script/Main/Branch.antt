-- ===== src/Script/Main/Branch.antt =====
-- The branch that `main` leaves the repository on.
use influxdb_relay.Base.{
  ℕ, String, Bool, true, false, not, ◌&&◌, is_some, ◌≡◌, ◌≢◌, ◌⊎◌, inl, inr, sym, ap, ◌∙◌, arith,
  eq_iff, Bool-cases,
}
use influxdb_relay.Os.{Os, Trace, Outcome, returned, raised, raise, name_error}
use influxdb_relay.Os.Inversion.{>>=-returned}
use influxdb_relay.Script.{lookup, supported_builds}
use influxdb_relay.Script.Repo.{get_current_branch, get_current_commit}
use influxdb_relay.Script.Host.{check_prereqs}
use influxdb_relay.Script.Digest.{Md5}
use influxdb_relay.Script.Main.{
  Args, nightly_args, after_questions, after_prereqs, after_version, main,
}
use influxdb_relay.Script.Main.Laws.{IsOn, IsGit, not_zero, main_build-IsOn}
use text.Mathlib.Text.{◌==◌ as str_eq}

-- Where `main` asks for the branch.
abbrev pub at_question : Os → Args → Trace → Trace
at_question os args t =
    (get_current_commit os true (check_prereqs os (nightly_args os args t).1).1).1

-- The repository is on the branch that `main` found, or it was on none, which git prints as HEAD.
abbrev pub IsBack : Os → Args → Trace → Trace → Type 0
IsBack os args t u =
    (branch : String) × IsOn os branch (at_question os args t)
    × ((branch ≡ "HEAD") ⊎ IsOn os branch u)

raised_not_returned : {P : Type 0} → ◌≡◌ {A = Outcome ℕ} (raised name_error) (returned 0) → P
raised_not_returned h = absurd (ground arith)

module _ (os : Os) (md5 : Md5) where
  after_questions-IsOn :
      (args : Args) (commit branch : String) (t : Trace)
      → IsGit os branch
      → (after_questions os md5 args commit branch t).0 ≡ returned 0
      → IsOn os branch (after_questions os md5 args commit branch t).1
  unfolding after_questions raise
  after_questions-IsOn args commit branch t git h =
      elim (Bool-cases (
        not (is_some (lookup args.platform supported_builds))
        && not (str_eq args.platform "all"))) [
          | inl e ↦ raised_not_returned (rw e at h)
          | inr e ↦ rw e (main_build-IsOn os md5 args branch git commit t (rw e at h))
        ]

  after_prereqs-IsOn :
      (args : Args) (found : Bool) (t : Trace)
      → let u = (get_current_commit os true t).1 in
        ((branch : String) → IsOn os branch u → branch ≢ "HEAD" → IsGit os branch)
        → (after_prereqs os md5 args found t).0 ≡ returned 0
        → (branch : String) × IsOn os branch u
          × ((branch ≡ "HEAD") ⊎ IsOn os branch (after_prereqs os md5 args found t).1)
  unfolding after_prereqs
  after_prereqs-IsOn args false t git h = not_zero h
  after_prereqs-IsOn args true t git h =
      let (commit, c, after_commit) = >>=-returned (get_current_commit os true) _ t h in
      let (branch, b, after_branch) =
        >>=-returned (get_current_branch os) _ _ (ap (λ r. r.0) (sym after_commit) ∙ h) in
      let went = ap (λ r. r.0) (sym (after_commit ∙ after_branch)) ∙ h in
      (
        branch,
        b,
        elim (Bool-cases (str_eq branch "HEAD")) [
          | inl e ↦ inl ((eq_iff branch "HEAD").0 e)
          | inr e ↦ inr (
              rw (after_commit ∙ after_branch) (
                after_questions-IsOn args commit branch _
                  (git branch b (ground (arith, eq_iff branch "HEAD"))) went))
        ],
      )

-- Where `main` returns 0, the repository is on the branch that `main` found when it asked for it, before
-- it checked out anything; unless it was on none (git then prints HEAD). git is to behave as
-- documented for the branch that is found.
pub main-IsBack :
    (os : Os) (md5 : Md5) (args : Args) (t : Trace)
    → ((branch : String)
        → IsOn os branch (at_question os args t)
        → branch ≢ "HEAD"
        → IsGit os branch)
    → (main os md5 args t).0 ≡ returned 0
    → IsBack os args t (main os md5 args t).1
unfolding main after_version
main-IsBack os md5 args t git h = elim (Bool-cases (args.release && args.nightly)) [
  | inl e ↦ not_zero (rw e at h)
  | inr e ↦
      let h' = rw e at h in
      let (args', n, after_nightly) = >>=-returned (nightly_args os args) _ t h' in
      let (found, f, after_check) =
        >>=-returned (check_prereqs os) _ _ (ap (λ r. r.0) (sym after_nightly) ∙ h') in
      rw (e, after_nightly ∙ after_check)
        (after_prereqs-IsOn os md5 args' found _ git
          (ap (λ r. r.0) (sym (after_nightly ∙ after_check)) ∙ h'))
]
