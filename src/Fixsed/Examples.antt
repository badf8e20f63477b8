-- ===== src/Fixsed/Examples.antt =====
-- A Heartbeat through the proxy, and the options of an endpoint.
use crocofix.Base.{◌≡◌, refl, true, false, some, [], ◌∷◌, ◌++◌, arith}
use crocofix.Base.Bytes.{Bytes, pos, codes, to_string, stoi, signed, skip_spaces, scan, magnitude}
use crocofix.Base.Exec.{ok, ◌>>=◌}
use crocofix.Message.Decode.{cut}
use crocofix.Message.Wire.{Lacks}
use crocofix.Message.Examples.{table, lacks, lacks-Lacks}
use crocofix.SocketReader.Frames.{frames}
use crocofix.SocketReader.Examples.{sent}
use crocofix.SocketWriter.{socket_writer}
use crocofix.Fixsed.Run.{Pipeline, pipeline, from_initiator}
use crocofix.Fixsed.{
  Env, options, Variables, parse, process_in, process_out, process_bind, process_script,
  process_log_level, process_log_path, process_all,
}
use crocofix.Fixsed.Endpoints.{process-endpoint}
use crocofix.Fixsed.Checked.{IsUsable, parse-IsUsable}
use crocofix.Fixsed.Pipeline.{Proxy, Side}

abbrev host : Bytes
host = codes "localhost"

host-Lacks : Lacks b':' host
unfolding lacks
host-Lacks = lacks-Lacks b':' host refl

process-endpoint_example :
    (process_in (host ++ b':' ∷ to_string 8888) options
      ≡ (ok tt, record options { in_host = some host; in_port = pos 8888 }))
    × (process_out (host ++ b':' ∷ to_string 8888) options
        ≡ (ok tt, record options { out_host = host; out_port = pos 8888 }))
    × (process_bind (host ++ b':' ∷ to_string 8888) options
        ≡ (ok tt, record options { bind_host = some host; bind_port = some (pos 8888) }))
process-endpoint_example = process-endpoint host 8888 options host-Lacks (omega arith)

abbrev env : Env
env = record {
  is_directory = λ p. true;
  is_regular_file = λ p. true;
  in_directory = λ p f. p ++ b'/' ∷ f;
  from_str = λ s. 0;
  info = 2;
  off = 6;
}

abbrev given_options : Variables
given_options = record {
  help = false;
  pretty = false;
  input = codes "8888";
  output = codes "host:6666";
  bind = [];
  script_path = codes ".";
  script_file = codes "proxy.lua";
  log_level = codes "trace";
  log_path = codes ".";
}

read_all : (parse env given_options).0 ≡ true
unfolding parse process_all process_in process_out process_bind process_script process_log_level
    process_log_path ◌>>=◌ cut stoi signed skip_spaces scan magnitude
read_all = refl

parse-IsUsable_example : IsUsable env (parse env given_options).1
parse-IsUsable_example = parse-IsUsable env given_options refl read_all

abbrev proxy : Proxy
proxy = record { table = table; messages = []; function = λ m. (ok tt, m) }

abbrev side : Side
side = record { info = []; error = []; destination = socket_writer }

-- The initiator sends a Heartbeat, which goes on to the acceptor.
abbrev through : Pipeline
through = (from_initiator options proxy (frames sent) pipeline).1
