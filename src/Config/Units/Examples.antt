-- ===== src/Config/Units/Examples.antt =====
-- The theorem on sizes at one and a half GiB.
use cachic.Common.{ok, ◌≡◌, arith}
use cachic.Config.Units.{parse_size, format_size}
use cachic.Config.Units.Sizes.{parse_size-format_size}

parse_size-format_size_example : parse_size (format_size 1610612736) ≡ ok 1610612736
parse_size-format_size_example = parse_size-format_size 1610612736 (omega arith)
