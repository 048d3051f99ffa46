-- ===== src/Tests/Start.antt =====
-- The configuration that the daemon starts with, at a sample.
use vsecplat.Common.{false, [], ◌∷◌, none, some, pos}
use vsecplat.Common.{◌≡◌, arith}
use vsecplat.Common.Run.{ok}
use vsecplat.Json.Parse.Shown.{shown}
use vsecplat.Configuration.{parse_vsecplat_config}
use vsecplat.Configuration.Written.{
  Settings, settings_json, kept_config, parse_vsecplat_config-settings_json,
}
use vsecplat.Tests.Exchange.{Signed, signed_ops, signed_exact, show_signed}

-- A manager on `e0` with port 8000, no server, and one port to read from.
abbrev stated : Settings
stated = record {
  mgt = some (record {
    name = b'e' ∷ b'0' ∷ [];
    ipaddr = b'1' ∷ b'.' ∷ b'2' ∷ [];
    gateway = b'1' ∷ [];
    tcpport = pos 8000;
  });
  serv = none;
  inports = (b'e' ∷ b'1' ∷ []) ∷ [];
  outports = [];
  time_interval = pos 30;
  isencrypted = pos 1;
  isstatistics = pos 0;
}

parse_vsecplat_config-settings_json_example :
    parse_vsecplat_config signed_ops
      (some (shown {F = Signed} false 0 (settings_json stated) []))
      (b'x' ∷ [])
    ≡ ok (some (kept_config stated))
parse_vsecplat_config-settings_json_example =
    parse_vsecplat_config-settings_json signed_ops signed_exact show_signed stated (b'x' ∷ [])
      (omega arith)
