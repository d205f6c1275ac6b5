-- ===== src/Script/Target/Laws.antt =====
-- What `build` removes, and the architectures that it compiles for.
use influxdb_relay.Base.{
  String, ◌<>◌, Bool, true, false, not, ◌&&◌, ◌||◌, some, ◌≡◌, ◌≢◌, refl, inl, inr, Bool-cases,
  if◌then◌else◌, arith, eq_iff,
}
use influxdb_relay.Base.Text.{contains}
use influxdb_relay.Base.Text.Laws.{contains-prefix, replace-prefix}
use influxdb_relay.Os.{Os, Event, Command, ran, did, rmtree}
use influxdb_relay.Os.Keeps.{Emits}
use influxdb_relay.Script.Target.Effects.{build-Emits}
use influxdb_relay.Script.Target.{BuildArgs, handle_static, go_arch, go_arm, build}
use text.Mathlib.Text.{◌==◌ as str_eq}

-- `build` may remove the output directory, if it was asked to clean and the directory is
-- neither `/` nor `.`, and removes nothing else.
abbrev pub RemovesOnly : BuildArgs → Event → Type 0
RemovesOnly args (did (rmtree path)) =
    (path ≡ args.outdir) × (args.clean ≡ true) × (args.outdir ≢ "/") × (args.outdir ≢ ".")
RemovesOnly args _ = Unit

module _ (os : Os) (args : BuildArgs) where
  runs : (c : Command) → RemovesOnly args (ran c)
  runs c = tt

  may_clean :
      (args.clean && not (str_eq args.outdir "/") && not (str_eq args.outdir ".")) ≡ true
      → RemovesOnly args (did (rmtree args.outdir))
  may_clean h = ground (arith, eq_iff args.outdir "/", eq_iff args.outdir ".")

  -- For every environment and all arguments: the only path that `build` removes is the output
  -- directory, only when cleaning was asked for, and never where it is written `/` or `.`.
  pub build-RemovesOnly : Emits (RemovesOnly args) (build os args)
  build-RemovesOnly =
      build-Emits (RemovesOnly args) runs (λ path. tt) (λ path. tt) os args may_clean

arm_texts : (contains "arm" "386" ≡ false) × (contains "arm" "arm" ≡ true)
unfolding contains
arm_texts = (refl, refl)

-- `go_arch` leaves no architecture that the ARM test could refuse: what has "arm" in its name
-- has become "arm", so `armel`, `armhf` and `arm64` all get GOARM=6, and no other setting is made.
pub go_arm-go_arch :
    (arch : String)
    → go_arm (go_arch arch)
      ≡ some (
          if contains "arm" arch && not (str_eq arch "i386" || str_eq arch "i686")
          then "GOARM=6 "
          else "")
unfolding go_arm go_arch
go_arm-go_arch arch = elim (Bool-cases (str_eq arch "i386" || str_eq arch "i686")) [
  | inl e ↦ rw (e, arm_texts.0) (ground arith)
  | inr e ↦ elim (Bool-cases (contains "arm" arch)) [
    | inl arm ↦ rw (e, arm, arm_texts.1)
    | inr other ↦ rw (e, other, other)
  ]
]

-- A "static_" in front of an architecture that has it nowhere else is cut off, turns the static
-- build on and cgo off; without it the architecture and the flag stay, and cgo goes off with the flag.
pub handle_static_lem :
    (arch : String) (static : Bool)
    → contains "static_" arch ≡ false
    → (handle_static (record { arch = "static_" <> arch; static = static })
        ≡ (record { arch = arch; static = true }, "CGO_ENABLED=0 "))
      × (handle_static (record { arch = arch; static = static })
          ≡ (record { arch = arch; static = static }, (if static then "CGO_ENABLED=0 " else "")))
unfolding handle_static
handle_static_lem arch static h =
    ground (arith, contains-prefix "static_" arch, replace-prefix "s" "tatic_" arch h)
