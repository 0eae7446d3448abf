-- ===== src/Ubuntu/Examples.antt =====
-- Two archives, and a host that keeps the calls that it gets.
use deployd.Prelude.{String, ◌<>◌, ◌≡◌, refl, none, List, [], ◌∷◌}
use deployd.Prelude.Decimal.{format_uint}
use deployd.Path.{join}
use deployd.HostConfigure.Archive.{dir, type_reg, entry}
use deployd.Ubuntu.{Calls, finished, next_prefix, trim_prefix, configure}
use deployd.Ubuntu.Names.{stripped}

-- A name outside of the first directory is kept whole, and strip_first_level would cut it.
second_directory_test : stripped "" ("app/bin" ∷ "etc/env" ∷ []) ≡ "bin" ∷ "etc/env" ∷ []
unfolding stripped next_prefix trim_prefix
second_directory_test = refl

abbrev calls : Calls (List String)
calls = record {
  mkdir_all = λ d m s. (none, s);
  fetch = λ url s. (none, s);
  create = λ p s. (none, p ∷ s);
  copy_body = λ p s. (none, s);
  open_archive = λ p s. (none, s);
  unzip = λ s. (none, s);
  answers = λ s.
      entry (record { name = "app/svc"; type_flag = type_reg; mode = 0o755; contents = [] }) ∷ [];
  copy_entry = λ p bytes s. (none, s);
  open_create = λ p s. (none, p ∷ s);
  close = λ p s. (none, s);
  write_file = λ p text s. (none, p ∷ s);
  remove = λ p s. (none, s);
  symlink = λ target link s. (none, s);
  rename = λ p q s. (none, (q <> (" from " <> p)) ∷ s);
}

-- The paths have the name deployd, whatever service is configured.
configure_test : configure calls "profile" 7 [] ≡ (
  finished,
  "demo/opt/deployd/current from demo/opt/deployd/current.tmp"
      ∷ "./demo/etc/systemd/system/deployd.service" ∷ "demo/etc/deployd/overwrite.env"
      ∷ "demo/etc/deployd/secret.yaml" ∷ "demo/opt/deployd/releases/7/svc" ∷ "./demo/tmp/deployd/0"
      ∷ [],
)
unfolding configure join dir format_uint
configure_test = refl
