-- ===== src/Log/Lines.antt =====
-- What a run of calls leaves with the writer of src/log.go.
use mapex_mqttbroker.Common.{
  ℕ, ◌<◌, ◌≡◌, refl, ap, ◌∙◌, ◌≢◌, ◌↔◌, inl, inr, true, length, length-append, List, [], ◌∷◌, ◌++◌,
  append_assoc, append-nil, leb, if◌then◌else◌, Bool-cases, Bytes, codes, arith,
}
use mapex_mqttbroker.Log.{
  LogLevel, log_debug, log_info, log_warn, log_error, level_number, Arg, Formatter, StderrLogger,
  Logger, stderr_logger, nop_logger, line, layer, is_written, write, debug, info, warn, error,
}

-- A call of one of the four methods.
pub record Call : Type 0 where
  pub now : ℕ
  pub level : LogLevel
  pub format : Bytes
  pub args : List Arg

abbrev pub label_of : LogLevel → Bytes
label_of log_debug = codes "DEBUG"
label_of log_info = codes "INFO "
label_of log_warn = codes "WARN "
label_of log_error = codes "ERROR"

module _ (fmt : Formatter) where
  abbrev pub perform_at : LogLevel → ℕ → Logger → Bytes → List Arg → Logger
  perform_at log_debug = debug fmt
  perform_at log_info = info fmt
  perform_at log_warn = warn fmt
  perform_at log_error = error fmt

  -- The calls, one after the other.
  unfoldable pub perform : Logger → List Call → Logger
  perform l [] = l
  perform l (c ∷ cs) = perform (perform_at c.level c.now l c.format c.args) cs

  -- The lines of the calls at the level or above it, in their order.
  pub lines : LogLevel → List Call → Bytes
  lines min_level [] = []
  lines min_level (c ∷ cs) =
      if leb (level_number min_level) (level_number c.level)
      then line (fmt.timestamp c.now) (label_of c.level) (fmt.sprintf c.format c.args)
        ++ lines min_level cs
      else lines min_level cs

  perform_at-write :
      (level : LogLevel) (now : ℕ) (l : StderrLogger) (format : Bytes) (args : List Arg)
      → perform_at level now (stderr_logger l) format args
        ≡ stderr_logger (write fmt now l level (label_of level) format args)
  unfolding debug info warn error
  perform_at-write log_debug now l format args = refl
  perform_at-write log_info now l format args = refl
  perform_at-write log_warn now l format args = refl
  perform_at-write log_error now l format args = refl

  write_lem :
      (now : ℕ) (w : Bytes) (min_level level : LogLevel) (label format : Bytes) (args : List Arg)
      → write fmt now (record { w = w; min_level = min_level }) level label format args ≡ record {
        w =
            if leb (level_number min_level) (level_number level)
            then w ++ line (fmt.timestamp now) label (fmt.sprintf format args)
            else w;
        min_level = min_level;
      }
  unfolding write
  write_lem now w min_level level label format args = ground arith

  perform_at-nop :
      (level : LogLevel) (now : ℕ) (format : Bytes) (args : List Arg)
      → perform_at level now nop_logger format args ≡ nop_logger
  unfolding debug info warn error
  perform_at-nop log_debug now format args = refl
  perform_at-nop log_info now format args = refl
  perform_at-nop log_warn now format args = refl
  perform_at-nop log_error now format args = refl

  perform-nop : (cs : List Call) → perform nop_logger cs ≡ nop_logger
  unfolding perform
  perform-nop [] = refl
  perform-nop (c ∷ cs) = rw perform_at-nop (perform-nop cs)

  perform-append :
      (w : Bytes) (min_level : LogLevel) (cs : List Call)
      → perform (stderr_logger (record { w = w; min_level = min_level })) cs
        ≡ stderr_logger (record { w = w ++ lines min_level cs; min_level = min_level })
  unfolding perform lines
  perform-append w min_level [] = rw append-nil
  perform-append w min_level (c ∷ cs) =
      rw (perform_at-write, write_lem)
        (elim (Bool-cases (leb (level_number min_level) (level_number c.level))) [
          | inl e ↦ rw e (
              perform-append
                (w ++ line (fmt.timestamp c.now) (label_of c.level) (fmt.sprintf c.format c.args))
                min_level cs
              ∙ rw append_assoc)
          | inr e ↦ rw e (perform-append w min_level cs)
        ])

  -- What the writer is given by any run of calls is the lines of the calls at the logger's level or
  -- above, each whole, in the order of the calls, behind what it held; the level stays. A logger
  -- that discards stays so.
  pub perform-lines :
      (w : Bytes) (min_level : LogLevel) (cs : List Call)
      → (perform (stderr_logger (record { w = w; min_level = min_level })) cs
          ≡ stderr_logger (record { w = w ++ lines min_level cs; min_level = min_level }))
        × (perform nop_logger cs ≡ nop_logger)
  perform-lines w min_level cs = (perform-append w min_level cs, perform-nop cs)

  line_shows : (now label msg : Bytes) → 0 < length (line now label msg)
  unfolding line
  line_shows now label msg =
      ground (arith, length-append now (b' ' ∷ (label ++ (layer ++ (msg ++ 10 ∷ [])))))

  append_shows : (w x : Bytes) → 0 < length x → w ++ x ≢ w
  append_shows w x h e =
      let same_length : length (w ++ x) ≡ length w = ap length e in
      absurd (omega (arith, length-append w x))

  abbrev written : Logger → Bytes
  written (stderr_logger l) = l.w
  written nop_logger = []

  -- The writer is given something by a call exactly where its level is at the logger's or above.
  pub one_call_iff :
      (w : Bytes) (min_level : LogLevel) (c : Call)
      → let l = stderr_logger (record { w = w; min_level = min_level }) in
        (perform l (c ∷ []) ≢ l) ↔ (is_written min_level c.level ≡ true)
  unfolding perform write
  one_call_iff w min_level c = elim (Bool-cases (is_written min_level c.level)) [
    | inl e ↦
        rw (perform_at-write, write, e)
          (λ _. refl, λ _ k. append_shows w _ (line_shows _ _ _) (ap written k))
    | inr e ↦ rw (perform_at-write, write, e) (λ k. absurd (k refl), λ k. absurd (cc))
  ]
