-- ===== src/Log/Tests.antt =====
-- A run of two calls on the logger.
use mapex_mqttbroker.Common.{◌≡◌, refl, List, [], ◌∷◌, ◌++◌, codes}
use mapex_mqttbroker.Log.{
  log_debug, log_info, log_warn, Formatter, stderr_logger, line, debug, warn, write, is_written,
}
use mapex_mqttbroker.Log.Lines.{Call, perform}

-- A format is its own text, and a time one byte.
abbrev formatter : Formatter
formatter = record { sprintf = λ format _. format; timestamp = λ t. t ∷ [] }

abbrev calls : List Call
calls =
    record { now = 50; level = log_debug; format = codes "hidden"; args = [] }
    ∷ record { now = 51; level = log_warn; format = codes "shown"; args = [] }
    ∷ []

shown :
    perform formatter (stderr_logger (record { w = codes "old"; min_level = log_info })) calls
    ≡ stderr_logger (record {
      w = codes "old" ++ line (51 ∷ []) (codes "WARN ") (codes "shown");
      min_level = log_info;
    })
unfolding perform debug warn write is_written
shown = refl
