-- ===== src/Client/Settings.antt =====
-- client/options.go: what the functional options set. Durations are int64 nanoseconds. Values of
-- other libraries (transport credentials, interceptors, loggers, gRPC options) are kept as numbers
-- that tell them apart.
use p4runtime_go_controller.Common.{
  ℕ, ◌*◌, List, [], ◌∷◌, ◌++◌, Option, none, some, ◌==◌, if◌then◌else◌,
}
use p4runtime_go_controller.Common.Int.{ℤ, pos}
use p4runtime_go_controller.Election.{ElectionId}

-- A TLS configuration: its least version, and the rest of it.
pub record TlsConfig : Type 0 where
  pub min_version : ℕ
  pub rest : ℕ

pub data Credentials : Type 0 where
  insecure_credentials : Credentials
  tls_credentials : TlsConfig → Credentials
  other_credentials : ℕ → Credentials

pub record Options : Type 0 where
  pub device_id : ℕ
  pub election_id : ElectionId
  pub role : List ℕ
  pub tls_config : Option TlsConfig
  pub credentials : Option Credentials
  pub keepalive_time : ℤ
  pub keepalive_timeout : ℤ
  pub backoff_initial : ℤ
  pub backoff_max : ℤ
  pub arbitration_timeout : ℤ
  pub max_recv_size : ℤ
  pub max_send_size : ℤ
  pub dial_options : List ℕ
  pub unary_interceptors : List ℕ
  pub stream_interceptors : List ℕ
  pub logger : ℕ

-- slog.Default() is logger 0.
unfoldable pub default_options : Options
default_options = record {
  device_id = 0;
  election_id = record { high = 0; low = 0 };
  role = [];
  tls_config = none;
  credentials = none;
  keepalive_time = pos 30_000_000_000;
  keepalive_timeout = pos 10_000_000_000;
  backoff_initial = pos 500_000_000;
  backoff_max = pos 30_000_000_000;
  arbitration_timeout = pos 10_000_000_000;
  max_recv_size = pos (32 * 1024 * 1024);
  max_send_size = pos (32 * 1024 * 1024);
  dial_options = [];
  unary_interceptors = [];
  stream_interceptors = [];
  logger = 0;
}

-- An Option is a function on the options.
unfoldable pub with_device_id : ℕ → Options → Options
with_device_id id o = record o { device_id = id }

unfoldable pub with_election_id : ElectionId → Options → Options
with_election_id id o = record o { election_id = id }

unfoldable pub with_role : List ℕ → Options → Options
with_role name o = record o { role = name }

-- tls.VersionTLS12
abbrev pub tls12 : ℕ
tls12 = 0x0303

abbrev pub secured : TlsConfig → TlsConfig
secured cfg = if cfg.min_version == 0 then record cfg { min_version = tls12 } else cfg

unfoldable pub with_tls : Option TlsConfig → Options → Options
with_tls none o = o
with_tls (some cfg) o = record o {
  tls_config = some (secured cfg);
  credentials = some (tls_credentials (secured cfg));
}

unfoldable pub with_insecure : Options → Options
with_insecure o = record o { tls_config = none; credentials = some insecure_credentials }

-- `none` for a nil interface.
unfoldable pub with_credentials : Option Credentials → Options → Options
with_credentials c o = record o { credentials = c }

unfoldable pub with_keepalive : ℤ → ℤ → Options → Options
with_keepalive ping_every timeout o = record o {
  keepalive_time = ping_every;
  keepalive_timeout = timeout;
}

unfoldable pub with_reconnect_backoff : ℤ → ℤ → Options → Options
with_reconnect_backoff initial max o = record o { backoff_initial = initial; backoff_max = max }

unfoldable pub with_arbitration_timeout : ℤ → Options → Options
with_arbitration_timeout d o = record o { arbitration_timeout = d }

unfoldable pub with_max_message_size : ℤ → Options → Options
with_max_message_size bytes o = record o { max_recv_size = bytes; max_send_size = bytes }

unfoldable pub with_dial_options : List ℕ → Options → Options
with_dial_options opts o = record o { dial_options = o.dial_options ++ opts }

unfoldable pub with_unary_interceptor : ℕ → Options → Options
with_unary_interceptor ic o = record o { unary_interceptors = o.unary_interceptors ++ ic ∷ [] }

unfoldable pub with_stream_interceptor : ℕ → Options → Options
with_stream_interceptor ic o = record o { stream_interceptors = o.stream_interceptors ++ ic ∷ [] }

unfoldable pub with_logger : Option ℕ → Options → Options
with_logger none o = o
with_logger (some l) o = record o { logger = l }

-- The loop of Dial: a later option overrides an earlier one.
unfoldable pub apply_options : List (Options → Options) → Options → Options
apply_options [] o = o
apply_options (fn ∷ opts) o = apply_options opts (fn o)

-- grpc.DialOption
pub data DialOption : Type 0 where
  transport_credentials : Credentials → DialOption
  keepalive_params : ℤ → ℤ → DialOption
  call_sizes : ℤ → ℤ → DialOption
  unary_chain : List ℕ → DialOption
  stream_chain : List ℕ → DialOption
  raw_option : ℕ → DialOption

abbrev pub credentials_or_insecure : Option Credentials → Credentials
credentials_or_insecure none = insecure_credentials
credentials_or_insecure (some c) = c

abbrev pub chained : (List ℕ → DialOption) → List ℕ → List DialOption
chained chain [] = []
chained chain (ic ∷ ics) = chain (ic ∷ ics) ∷ []

unfoldable pub raw_options : List ℕ → List DialOption
raw_options [] = []
raw_options (o ∷ opts) = raw_option o ∷ raw_options opts

-- buildGRPCDialOptions
unfoldable pub grpc_dial_options : Options → List DialOption
grpc_dial_options o =
    transport_credentials (credentials_or_insecure o.credentials)
    ∷ keepalive_params o.keepalive_time o.keepalive_timeout
    ∷ call_sizes o.max_recv_size o.max_send_size
    ∷ (chained unary_chain o.unary_interceptors
        ++ (chained stream_chain o.stream_interceptors ++ raw_options o.dial_options))
