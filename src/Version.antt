-- ===== src/Version.antt =====
-- version/version.go: the version string, and the first act of `main` (main.go) that prints it.
use damon.Prelude.{String, ◌<>◌, Bool, ◌&&◌, if◌then◌else◌}
use damon.Host.{is_set}

pub record Info : Type 0 where
  pub revision : String
  pub number : String
  pub pre_release : String
  pub build_metadata : String

-- `GetInfo`; the revision is filled in by the build.
unfoldable pub get_info : String → Info
get_info git_commit = record {
  revision = git_commit;
  number = "0.1.1";
  pre_release = "";
  build_metadata = "";
}

with_pre_release : Info → String
with_pre_release i = if is_set i.pre_release then i.number <> ("-" <> i.pre_release) else i.number

unfoldable pub string : Info → String
unfolding with_pre_release
string i =
    if is_set i.build_metadata
    then with_pre_release i <> ("+" <> i.build_metadata)
    else with_pre_release i

unfoldable pub full_string : Bool → Info → String
unfolding string
full_string rev i =
    if rev && is_set i.revision
    then "Damon v" <> (string i <> (" (" <> (i.revision <> ")")))
    else "Damon v" <> string i
