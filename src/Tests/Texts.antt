-- ===== src/Tests/Texts.antt =====
-- The functions on texts.
use influxdb_relay.Base.{◌<>◌, true, false, none, some, [], ◌∷◌, ◌≡◌, refl}
use influxdb_relay.Base.Text.{replace, contains, strip, words, split}
use influxdb_relay.Base.Decimal.{show, int, str, pos, negsuc}
use influxdb_relay.Os.{returned}
use influxdb_relay.Script.{join_path}
use influxdb_relay.Script.Host.{system_arch, system_platform, search_go_version}
use influxdb_relay.Script.Version.{increment_minor_version}
use influxdb_relay.Script.Version.Laws.{
  increment_minor_version-three, increment_minor_version-other,
}
use influxdb_relay.Script.GoList.{packages_of, drop_last_empty}
use influxdb_relay.Script.GoList.Laws.{packages_of-relative, packages_of-non_vendor}
use influxdb_relay.Script.Package.Names.{
  search_output, strip_output, PackageArgs, archive_name, is_static, package_arch,
}
use influxdb_relay.Script.Target.{go_arch, go_arm, handle_static}
use influxdb_relay.Script.Target.Laws.{go_arm-go_arch, handle_static_lem}

texts :
    (replace "a-b--c" "-" "_" ≡ "a_b__c")
    × (replace "aaa" "aa" "b" ≡ "ba")
    × (words "  git  log\n-n 1 " ≡ "git" ∷ "log" ∷ "-n" ∷ "1" ∷ [])
    × (strip " a b\n" ≡ "a b")
    × (split "." "1.2." ≡ "1" ∷ "2" ∷ "" ∷ [])
unfolding replace words strip split
texts = (refl, refl, refl, refl, refl)

numbers :
    (int " -12 " ≡ some (negsuc 11))
    × (int "1x" ≡ none)
    × (int "+07" ≡ some (pos 7))
    × (str (negsuc 11) ≡ "-12")
unfolding int str
numbers = (refl, refl, refl, refl)

searches :
    (search_go_version "go version go1.17.3 linux/amd64" ≡ some "1.17.3")
    × (search_output "x\nCreated package {:path=>\"a\"b.rpm\"}\n" ≡ some "a\"b.rpm")
unfolding search_go_version search_output
searches = (refl, refl)

systems :
    (system_arch "x86_64" ≡ "amd64")
    × (system_arch "armv7l" ≡ "arm")
    × (system_arch "386" ≡ "i386")
    × (system_platform "linux2" ≡ "linux")
unfolding system_arch system_platform
systems = (refl, refl, refl, refl)

paths :
    (join_path "/a" "b" ≡ "/a/b")
    × (join_path "/a/" "b" ≡ "/a/b")
    × (join_path "/a" "/b" ≡ "/b")
    × (join_path "" "b" ≡ "b")
unfolding join_path
paths = (refl, refl, refl, refl)

abbrev rpm_args : PackageArgs
rpm_args = record {
  version = "1.2-rc";
  nightly = false;
  iteration = "1";
  static = false;
  release = false;
}

names :
    (strip_output rpm_args "rpm" "influxdb-relay-1.2_rc-1.x86_64.rpm"
      ≡ "influxdb-relay-1.2_rc.x86_64.rpm")
    × (archive_name rpm_args "linux" "static_amd64" ≡ "influxdb-relay-1.2-rc-1-static_linux_amd64")
unfolding strip_output archive_name replace contains is_static package_arch
names = (refl, refl)

increment_minor_version-three_example :
    increment_minor_version ("1" <> "." <> show 19 <> "." <> "7-rc") []
    ≡ (returned ("1" <> "." <> show 20 <> ".0"), [])
increment_minor_version-three_example =
    increment_minor_version-three "1" "7-rc" 19 [] (refl, tt) (refl, (refl, (refl, (refl, tt))))

other_version : increment_minor_version "a1b2c3d" [] ≡ (returned "a1b2c3d", [])
unfolding split
other_version = increment_minor_version-other "a1b2c3d" [] (λ e. cc)

packages_of-relative_example :
    packages_of false true "a/b\nc\n" ≡ packages_of false false "a/b\nc\n"
unfolding drop_last_empty split
packages_of-relative_example =
    packages_of-relative false "a/b\nc\n"
      ((((refl, (refl, (refl, tt))), refl), (((refl, tt), refl), tt)))

vendor_left_out : packages_of false false "a\nb/vendor/c\n" ≡ "a" ∷ []
unfolding drop_last_empty split contains
vendor_left_out = packages_of-non_vendor "a\nb/vendor/c\n"

go_arm-go_arch_example : go_arm (go_arch "arm64") ≡ some "GOARM=6 "
unfolding contains
go_arm-go_arch_example = go_arm-go_arch "arm64"

handle_static_lem_example :
    (handle_static (record { arch = "static_" <> "amd64"; static = false })
      ≡ (record { arch = "amd64"; static = true }, "CGO_ENABLED=0 "))
    × (handle_static (record { arch = "amd64"; static = false })
        ≡ (record { arch = "amd64"; static = false }, ""))
unfolding contains
handle_static_lem_example = handle_static_lem "amd64" false refl
