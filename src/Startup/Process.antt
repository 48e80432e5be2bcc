-- ===== src/Startup/Process.antt =====
-- The process of the controller: mainE and main of cmd/controller/main.go, FallbackVersion of pkg/buildinfo/version.go
-- and the handler of pkg/log/log.go. pflag, slog and debug.ReadBuildInfo are parameters, and so is what
-- controller.Main does until it returns (its start is Startup/Main).
use Prim.Native.String
use sealed_secrets.Base.{
  ℕ, String, Bool, not, List, [], ◌∷◌, ◌++◌, Option, none, some, Outcome, ok, err, panic, leb, ◌==◌,
  if◌then◌else◌,
}
use sealed_secrets.Base.Action.{Action, lift, ◌>>=◌, ◌>>◌}
use sealed_secrets.Startup.Options.{Flags}

-- The levels of slog that have a name, from the lowest; they stand four apart, and levels in between are left out.
pub data Level : Type 0 where
  debug_level info_level warn_level error_level : Level

abbrev pub rank : Level → ℕ
rank debug_level = 0
rank info_level = 4
rank warn_level = 8
rank error_level = 12

-- Where a process writes.
pub data Stream : Type 0 where
  stdout stderr : Stream

pub data Format : Type 0 where
  json_format text_format : Format

-- MultiStreamHandler; a handler of slog is its stream and its format.
pub record MultiStreamHandler : Type 0 where
  pub level : Level
  pub low_handler : Stream × Format
  pub high_handler : Stream × Format

-- New
unfoldable pub new_handler : Stream → Stream → String → Level → MultiStreamHandler
new_handler out_low out_high format level =
    if format == "json"
    then record {
      level = level;
      low_handler = (out_low, json_format);
      high_handler = (out_high, json_format);
    }
    else record {
      level = level;
      low_handler = (out_low, text_format);
      high_handler = (out_high, text_format);
    }

-- Enabled
unfoldable pub enabled : MultiStreamHandler → Level → Bool
enabled m level = leb (rank m.level) (rank level)

-- Handle: the handler that a record goes to.
unfoldable pub handler_of : MultiStreamHandler → Level → Stream × Format
handler_of m level = if leb (rank level) (rank info_level) then m.low_handler else m.high_handler

-- What a Logger does with a record, as slog documents it: Handle is called if it is enabled.
unfoldable pub logged : MultiStreamHandler → Level → Option (Stream × Format)
unfolding enabled handler_of
logged m level = if enabled m level then some (handler_of m level) else none

abbrev pub default_version : String
default_version = "UNKNOWN"

-- FallbackVersion, with the version of the main module that ReadBuildInfo returns, if it returns any.
unfoldable pub fallback_version : Option String → String → String → String
fallback_version build_info v unchanged =
    if not (v == unchanged)
    then v
    else (elim build_info [ none ↦ v | some modv ↦ if not (modv == "(devel)") then modv else v ])

-- What mainE calls: bindFlags with fs.Parse (Flags and --version), gofs.Parse, Level.UnmarshalText, whose error is
-- dropped, ReadBuildInfo, and controller.Main with the version.
pub record Shell (S : Type 0) : Type 0 where
  pub parse : List String → Outcome (Flags × Bool)
  pub parse_go : Outcome (Unit {0})
  pub unmarshal_level : String → Option Level
  pub build_info : Option String
  pub main : Flags → String → Action S (Unit {0})

-- The process: the version that was linked in, the default logger, AcceptDeprecatedV1Data, and what was printed.
pub record Process (S : Type 0) : Type 0 where
  pub version : String
  pub logger : Option MultiStreamHandler
  pub accept_deprecated_v1_data : Bool
  pub printed : List String
  pub world : S

module _ {S : Type 0} (shell : Shell S) where
  abbrev or_info : Option Level → Level
  or_info none = info_level
  or_info (some level) = level

  -- The settings that mainE makes from the flags.
  unfoldable pub configure : Flags → Process S → Process S
  unfolding new_handler
  configure flags s =
      let log_level = or_info (shell.unmarshal_level flags.log_level) in
      let low = if flags.log_info_to_stdout then stdout else stderr in
      record s {
        logger = some (new_handler low stderr flags.log_format log_level);
        accept_deprecated_v1_data = flags.accept_v1_data;
      }

  -- controller.Main, whose error is a panic.
  unfoldable pub run_main : Flags → Action (Process S) (Unit {0})
  run_main flags s =
      let (r, world) = shell.main flags s.version s.world in
      (elim r [ ok done ↦ ok tt | err e ↦ panic | panic ↦ panic ], record s { world = world })

  -- What mainE does with the flags.
  unfoldable pub run_flags : Flags × Bool → Action (Process S) (Unit {0})
  unfolding configure run_main
  run_flags (flags, print_version) s =
      let s' = configure flags s in
      if print_version
      then (
        ok tt,
        record s' {
          printed =
              s'.printed ++ (String.◌++◌ "controller version: " (String.◌++◌ s'.version "\n") ∷ []);
        },
      )
      else run_main flags s'

  -- mainE
  unfoldable pub main_e : List String → Action (Process S) (Unit {0})
  unfolding fallback_version run_flags
  main_e args s =
      (do flags ← lift (shell.parse args); lift shell.parse_go; run_flags flags)
        (record s { version = fallback_version shell.build_info s.version default_version })
