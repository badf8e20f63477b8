-- ===== src/Fixsed.antt =====
-- fixsed/options.hpp and fixsed/options.cpp: the options of the proxy. What `boost` makes of the command
-- line, the file system and the names of the log levels are parameters. The proxy is in Fixsed/Pipeline.
pub mod Endpoints
pub mod Checked
pub mod Pipeline
pub mod Run
pub mod Forwarding
mod Examples
use crocofix.Base.{
  ℕ, Bool, true, false, not, Option, none, some, List, [], ◌∷◌, ◌++◌, ◌==◌, if◌then◌else◌,
}
use crocofix.Base.Bytes.{Bytes, ℤ, pos, text, stoi}
use crocofix.Base.Exec.{
  Error, Result, ok, err, runtime_error, Exec, pure, throw, lift, modify, ◌>>=◌, ◌>>◌,
}
use crocofix.Message.Decode.{cut}

-- `std::filesystem` and `spdlog::level`.
pub record Env : Type 0 where
  pub is_directory : Bytes → Bool
  pub is_regular_file : Bytes → Bool
  pub in_directory : Bytes → Bytes → Bytes
  pub from_str : Bytes → ℕ
  pub info : ℕ
  pub off : ℕ

-- A number that the code leaves uninitialised is 0 here; `parse` sets them all or fails.
pub record Options : Type 0 where
  pub help : Bool
  pub pretty_print : Bool
  pub in_host : Option Bytes
  pub in_port : ℤ
  pub out_host : Bytes
  pub out_port : ℤ
  pub bind_host : Option Bytes
  pub bind_port : Option ℤ
  pub script : Bytes
  pub log_level : ℕ
  pub log_path : Bytes

abbrev pub options : Options
options = record {
  help = false;
  pretty_print = false;
  in_host = none;
  in_port = pos 0;
  out_host = [];
  out_port = pos 0;
  bind_host = none;
  bind_port = none;
  script = [];
  log_level = 0;
  log_path = [];
}

-- The values of the command line, with the defaults of those that were not given.
pub record Variables : Type 0 where
  pub help : Bool
  pub pretty : Bool
  pub input : Bytes
  pub output : Bytes
  pub bind : Bytes
  pub script_path : Bytes
  pub script_file : Bytes
  pub log_level : Bytes
  pub log_path : Bytes

abbrev set_in_port : ℤ → Exec Options Unit
set_in_port p = modify (λ o. record o { in_port = p })

abbrev pub in_from : Bytes → Option (Bytes × Bytes) → Exec Options Unit
in_from input none = lift (stoi input) >>= set_in_port
in_from input (some (host, port)) =
    modify (λ o. record o { in_host = some host }) >> (lift (stoi port) >>= set_in_port)

unfoldable pub process_in : Bytes → Exec Options Unit
unfolding cut stoi ◌>>=◌
process_in input = in_from input (cut b':' input)

abbrev pub out_from : Option (Bytes × Bytes) → Exec Options Unit
out_from none = throw (
    runtime_error
      (text "malformed value for --out, it must contain a host and port separated by a :"))
out_from (some (host, port)) =
    modify (λ o. record o { out_host = host })
    >> (lift (stoi port) >>= λ p. modify (λ o. record o { out_port = p }))

unfoldable pub process_out : Bytes → Exec Options Unit
unfolding cut stoi ◌>>=◌
process_out out = out_from (cut b':' out)

abbrev set_bind_port : ℤ → Exec Options Unit
set_bind_port p = modify (λ o. record o { bind_port = some p })

abbrev pub bind_from : Bytes → Option (Bytes × Bytes) → Exec Options Unit
bind_from bind none = lift (stoi bind) >>= set_bind_port
bind_from bind (some (host, port)) =
    modify (λ o. record o { bind_host = some host }) >> (lift (stoi port) >>= set_bind_port)

unfoldable pub process_bind : Bytes → Exec Options Unit
unfolding cut stoi ◌>>=◌
process_bind [] = pure tt
process_bind (c ∷ s) = bind_from (c ∷ s) (cut b':' (c ∷ s))

-- The exceptions of the three checks.
abbrev pub no_script_path : Bytes → Error
no_script_path path =
    runtime_error (text "--script-path " ++ path ++ text " does not exist or is not a directory")

abbrev pub no_script : Bytes → Bytes → Error
no_script path file = runtime_error (
    text "--script "
    ++ file
    ++ text " does not exist or is not a regular file in --script-path "
    ++ path)

abbrev pub bad_level : Bytes → Error
bad_level level = runtime_error (
    text "--log-level "
    ++ level
    ++ text " is not valid, must be trace|debug|info|warning|error|critical")

abbrev pub no_log_path : Bytes → Error
no_log_path path =
    runtime_error (text "--log-path " ++ path ++ text " does not exist or is not a directory")

abbrev pub throw_if : Bool → Error → Exec Options Unit → Exec Options Unit
throw_if c e m = if c then throw e else m

abbrev pub set_script : Env → Bytes → Bytes → Exec Options Unit
set_script env path file =
    modify (λ o. record o { script = env.in_directory path file })
    >> throw_if (not (env.is_regular_file (env.in_directory path file))) (no_script path file)
        (pure tt)

unfoldable pub process_script : Env → Bytes → Bytes → Exec Options Unit
unfolding ◌>>=◌
process_script env path file =
    throw_if (not (env.is_directory path)) (no_script_path path) (set_script env path file)

unfoldable pub process_log_level : Env → Bytes → Exec Options Unit
unfolding ◌>>=◌
process_log_level env [] = modify (λ o. record o { log_level = env.info })
process_log_level env (c ∷ level) =
    modify (λ o. record o { log_level = env.from_str (c ∷ level) })
    >> throw_if (env.from_str (c ∷ level) == env.off) (bad_level (c ∷ level)) (pure tt)

unfoldable pub process_log_path : Env → Bytes → Exec Options Unit
unfolding ◌>>=◌
process_log_path env path =
    throw_if (not (env.is_directory path)) (no_log_path path)
      (modify (λ o. record o { log_path = path }))

unfoldable pub process_all : Env → Variables → Exec Options Unit
unfolding process_in process_out process_bind process_script process_log_level process_log_path
    ◌>>=◌
process_all env v =
    process_in v.input
    >> (process_out v.output
        >> (process_bind v.bind
            >> (process_script env v.script_path v.script_file
                >> (process_log_level env v.log_level >> process_log_path env v.log_path))))

-- The handler of an exception; what was set before it stays set.
abbrev pub parsed : Result (Unit {0}) × Options → Bool × Options
parsed (ok u, o) = (true, o)
parsed (err e, o) = (false, o)

-- `options::parse` from where the command line is read.
unfoldable pub parse : Env → Variables → Bool × Options
unfolding process_all
parse env v =
    if v.help
    then (true, record options { help = true })
    else parsed (process_all env v (record options { pretty_print = v.pretty }))
