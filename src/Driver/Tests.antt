-- ===== src/Driver/Tests.antt =====
-- The theorem on src/compiler/driver.c at a concrete directory.
use cleric.Common.{true, none, some, if◌then◌else◌}
use cleric.Common.Text.{Text, codes, text_eq}
use cleric.Files.{Directory}

abbrev a_source : Text
a_source = codes "int main(void) { return 3; }"

abbrev a_directory : Directory
a_directory = record {
  files = λ name. if text_eq name (codes "main.i") then some a_source else none;
  writable = λ name. true;
  stops_at = λ name. none;
  removable = λ name. true;
}
