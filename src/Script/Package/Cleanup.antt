-- ===== src/Script/Package/Cleanup.antt =====
-- `package` removes its temporary directory, and writes nowhere else.
use influxdb_relay.Base.{◌<>◌, String, Bool, true, false, ◌≡◌, refl, some, List, ◌∷◌, if◌then◌else◌}
use influxdb_relay.Os.{
  Os, Action, did, rmtree, made_temp, Trace, Outcome, raised, perform, mkdtemp, try_finally,
  end_with, ◌>>=◌, or_raise, asks, tell, raise, pure, os_error,
}
use influxdb_relay.Script.{package_name}
use influxdb_relay.Script.Shell.{create_temp_dir}
use influxdb_relay.Script.Package.Names.{PackageArgs}
use influxdb_relay.Script.Package.{package_build, package_platforms}

-- `perform` leaves its attempt on top of the trace.
perform-trace : (os : Os) (a : Action) (t : Trace) → (perform os a t).1 ≡ did a ∷ t
unfolding perform ◌>>=◌ asks tell raise
perform-trace os a t = attempt (os.fails t a)
  where
    attempt : (b : Bool) → ((if b then raise os_error else pure tt) (did a ∷ t)).1 ≡ did a ∷ t
    attempt true = refl
    attempt false = refl

after_body :
    (os : Os) (tmp : String) (o : Outcome (List String)) (t : Trace)
    → ((end_with o (perform os (rmtree tmp) t)).1 ≡ did (rmtree tmp) ∷ t)
      × ((end_with o (perform os (rmtree tmp) t)).0
          ≡ (if os.fails t (rmtree tmp) then raised os_error else o))
unfolding perform ◌>>=◌ asks tell raise
after_body os tmp o t = ended (os.fails t (rmtree tmp))
  where
    ended :
        (b : Bool)
        → let r = (if b then raise os_error else pure tt) (did (rmtree tmp) ∷ t) in
          ((end_with o r).1 ≡ did (rmtree tmp) ∷ t)
          × ((end_with o r).0 ≡ (if b then raised os_error else o))
    ended true = (refl, refl)
    ended false = (refl, refl)

module _ (os : Os) (args : PackageArgs) (output : List (String × List (String × String))) where
  pub package_build-after_mkdtemp :
      (t : Trace) (tmp : String)
      → os.mkdtemp t (package_name <> "-build.") ≡ some tmp
      → package_build os args output t
        ≡ try_finally
            (package_platforms os args tmp output)
            (perform os (rmtree tmp))
            (made_temp tmp ∷ t)
  unfolding package_build create_temp_dir mkdtemp ◌>>=◌ asks or_raise tell
  package_build-after_mkdtemp t tmp h = rw h

  -- Once the temporary directory is made, the last thing that `package` does is to remove it,
  -- however the packaging ends. The result is the one that the packaging came to, unless
  -- the removal itself fails.
  pub package_build-removes_temp :
      (t : Trace) (tmp : String)
      → os.mkdtemp t (package_name <> "-build.") ≡ some tmp
      → let (o, u) = package_platforms os args tmp output (made_temp tmp ∷ t) in
        ((package_build os args output t).1 ≡ did (rmtree tmp) ∷ u)
        × ((package_build os args output t).0
            ≡ (if os.fails u (rmtree tmp) then raised os_error else o))
  unfolding try_finally
  package_build-removes_temp t tmp h =
      rw (package_build-after_mkdtemp t tmp h) (after_body os tmp _ _)
