-- ===== src/Logging.antt =====
-- logging.go: the set-up of a logger. The reading of the JSON text and `Build` of go.uber.org/zap are a
-- parameter: the logger that they make of a text, or none if one of them answers an error.
use Prim.Native.String.{◌++◌}
use loaderbot.Prelude.{String, Option, none, some}
use loaderbot.Config.{RunnerConfig}
use loaderbot.Outcome.{Outcome, returned, panicked, bad_logger}

-- The text with `level` and `encoding` in it.
unfoldable pub raw_json : String → String → String
raw_json level encoding =
    "{\n\t  \"level\": \""
    ++ (level
        ++ ("\",\n\t  \"encoding\": \""
            ++ (encoding
                ++ ("\",\n\t  \"outputPaths\": [\"stdout\"],\n\t  \"errorOutputPaths\": [\"stderr\"],"
                    ++ ("\n\t  \"encoderConfig\": {\n\t    \"messageKey\": \"message\","
                        ++ ("\n\t    \"levelKey\": \"level\",\n\t\t\"levelEncoder\": \"uppercase\","
                            ++ ("\n        \"timeKey\": \"time\",\n\t\t\"timeEncoder\": \"ISO8601\","
                                ++ "\n\t\t\"callerKey\": \"caller\",\n\t\t\"callerEncoder\": \"short\"\n\t  }\n\t}")))))))

abbrev pub or_panic : {Z : Type 0} → Option Z → Outcome Z
or_panic none = panicked bad_logger
or_panic (some l) = returned l

module _ {Z : Type 0} (zap : String → Option Z) where
  unfoldable pub setup_logger : String → String → Outcome Z
  setup_logger encoding level = or_panic (zap (raw_json level encoding))

  unfoldable pub new_logger : {F : Type 0} → RunnerConfig F → Outcome Z
  new_logger cfg = setup_logger cfg.log_encoding cfg.log_level
