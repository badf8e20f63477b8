-- ===== src/Fixsed/Checked.antt =====
-- What `options::parse` of fixsed/options.cpp has checked when it returns true.
use crocofix.Base.{
  ◌≡◌, ◌≢◌, refl, Bool, true, false, not, [], ◌∷◌, ◌==◌, ◌⊎◌, inl, inr, if◌then◌else◌, arith,
}
use crocofix.Base.Bytes.{Bytes}
use crocofix.Base.Exec.{Error, Result, ok, err, Exec, continue, pure, modify, ◌>>=◌}
use crocofix.Fixsed.{
  Env, Options, options, Variables, process_in, process_out, process_bind, process_script,
  process_log_level, process_log_path, process_all, throw_if, no_script_path, no_script, bad_level,
  no_log_path, set_script, parsed, parse,
}

-- What holds of the options when a method has returned.
abbrev Ends : (Options → Type 0) → Result (Unit {0}) × Options → Type 0
Ends Q (ok u, o) = Q o
Ends Q (err e, o) = Unit

module _ (P Q : Options → Type 0) where
  bound :
      (f : Exec Options (Unit {0}))
      → ((o : Options) → P o → Ends Q (f o))
      → (r : Result (Unit {0})) (o : Options) → Ends P (r, o)
      → Ends Q (continue r (λ u. f) o)
  bound f k (ok u) o h = k o h
  bound f k (err e) o h = tt

  Ends-bind :
      (m f : Exec Options (Unit {0}))
      → ((o : Options) → Ends P (m o))
      → ((o : Options) → P o → Ends Q (f o))
      → (o : Options) → Ends Q ((m >>= λ u. f) o)
  unfolding ◌>>=◌
  Ends-bind m f h k o = bound f k (m o).0 (m o).1 (h o)

module _ (Q : Options → Type 0) where
  Ends-throw_if :
      (c : Bool) (e : Error) (m : Exec Options (Unit {0})) (o : Options)
      → (c ≡ false → Ends Q (m o))
      → Ends Q (throw_if c e m o)
  unfolding ◌>>=◌
  Ends-throw_if true e m o h = tt
  Ends-throw_if false e m o h = h refl

not-false : (c : Bool) → not c ≡ false → c ≡ true
not-false true e = refl
not-false false e = absurd (cc e)

abbrev Anything : Options → Type 0
Anything o = Unit

anything : (r : Result (Unit {0}) × Options) → Ends Anything r
anything (ok u, o) = tt
anything (err e, o) = tt

module _ (env : Env) where
  abbrev HasScript : Options → Type 0
  HasScript o = env.is_regular_file o.script ≡ true

  abbrev HasLevel : Options → Type 0
  HasLevel o = (o.log_level ≡ env.info) ⊎ (o.log_level ≢ env.off)

  -- The script is a file, the log level is the default or one that spdlog has a name for, and the log
  -- path is a directory.
  pub record IsUsable (o : Options) : Type 0 where
    pub script : env.is_regular_file o.script ≡ true
    pub level : (o.log_level ≡ env.info) ⊎ (o.log_level ≢ env.off)
    pub log_path : env.is_directory o.log_path ≡ true

  script-Ends : (path file : Bytes) (o : Options) → Ends HasScript (process_script env path file o)
  unfolding process_script ◌>>=◌
  script-Ends path file o =
      let is_file = env.is_regular_file (env.in_directory path file) in
      Ends-throw_if HasScript (not (env.is_directory path)) (no_script_path path)
        (set_script env path file) o
        (λ e.
          Ends-throw_if HasScript (not is_file) (no_script path file) (pure tt)
            (record o { script = env.in_directory path file }) (λ q. not-false is_file q))

  abbrev HasBoth : Options → Type 0
  HasBoth o = HasScript o × HasLevel o

  level-Ends :
      (level : Bytes) (o : Options) → HasScript o → Ends HasBoth (process_log_level env level o)
  unfolding process_log_level ◌>>=◌
  level-Ends [] o h = (h, inl refl)
  level-Ends (c ∷ level) o h =
      Ends-throw_if HasBoth (env.from_str (c ∷ level) == env.off) (bad_level (c ∷ level)) (pure tt)
        (record o { log_level = env.from_str (c ∷ level) }) (λ e. (h, inr (ground (arith, e))))

  path-Ends : (path : Bytes) (o : Options) → HasBoth o → Ends IsUsable (process_log_path env path o)
  unfolding process_log_path ◌>>=◌
  path-Ends path o h =
      Ends-throw_if IsUsable (not (env.is_directory path)) (no_log_path path)
        (modify (λ q. record q { log_path = path })) o
        (λ e. record { script = h.0; level = h.1; log_path = not-false (env.is_directory path) e })

  all-Ends : (v : Variables) (o : Options) → Ends IsUsable (process_all env v o)
  unfolding process_all ◌>>=◌
  all-Ends v =
      Ends-bind Anything IsUsable (process_in v.input) _ (λ o. anything (process_in v.input o))
        (λ o p.
          Ends-bind Anything IsUsable (process_out v.output) _
            (λ o. anything (process_out v.output o))
            (λ o p.
              Ends-bind Anything IsUsable (process_bind v.bind) _
                (λ o. anything (process_bind v.bind o))
                (λ o p.
                  Ends-bind HasScript IsUsable (process_script env v.script_path v.script_file) _
                    (script-Ends v.script_path v.script_file)
                    (λ o p.
                      bound HasBoth IsUsable (process_log_path env v.log_path)
                        (path-Ends v.log_path) _ _ (level-Ends v.log_level o p))
                    o)
                o)
            o)

  finished :
      (x : Result (Unit {0}) × Options)
      → Ends IsUsable x
      → (parsed x).0 ≡ true
      → IsUsable (parsed x).1
  finished (ok u, o) h e = h
  finished (err x, o) h e = absurd (cc e)

  -- When `parse` returns true without being asked for help, the script is a regular file, the log path is a
  -- directory, and the log level is the default or is not `off`, whatever else the options say.
  pub parse-IsUsable :
      (v : Variables) → v.help ≡ false → (parse env v).0 ≡ true → IsUsable (parse env v).1
  unfolding parse
  parse-IsUsable v e h = by_help v.help e h
    where
      run : Result (Unit {0}) × Options
      run = process_all env v (record options { pretty_print = v.pretty })

      by_help :
          (b : Bool)
          → b ≡ false
          → (if b then (true, record options { help = true }) else parsed run).0 ≡ true
          → IsUsable (if b then (true, record options { help = true }) else parsed run).1
      by_help true q k = absurd (cc q)
      by_help false q k = finished run (all-Ends v (record options { pretty_print = v.pretty })) k
