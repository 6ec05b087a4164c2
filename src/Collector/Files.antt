-- ===== src/Collector/Files.antt =====
-- src/collector/unix: the files of a directory, and how the collectors of the host read them. The
-- modules cpu.rs, md.rs and hwmon.rs have the same readers.
use ferrometer.Prelude.{ℕ, Option, none, some}
use ferrometer.Prelude.Text.{Text, trim}
use ferrometer.Prelude.Text.Numbers.{parse_u64, ok_num}

-- What each file that can be read holds.
abbrev pub Directory : Type 0
Directory = Text → Option Text

abbrev pub trimmed : Option Text → Option Text
trimmed none = none
trimmed (some s) = some (trim s)

abbrev pub parsed : Option Text → Option ℕ
parsed none = none
parsed (some s) = ok_num (parse_u64 s)

unfoldable pub read_string : Directory → Text → Option Text
unfolding trim
read_string dir attr = trimmed (dir attr)

unfoldable pub read_u64 : Directory → Text → Option ℕ
unfolding read_string parse_u64
read_u64 dir attr = parsed (read_string dir attr)
