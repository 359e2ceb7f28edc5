-- ===== src/Server/SlowLog.antt =====
-- The slow log of lib/searpc-server.c (on Linux). A line is kept as the values that it prints.
-- The stream is a handle; `fopen` and `fclose` of the C library are parameters.
pub mod Laws
use libsearpc.Prelude.{
  ℕ, ◌+◌, ◌-◌, ◌*◌, ◌/◌, Bool, true, false, Option, none, some, List, [], ◌∷◌, Bytes, codes,
  str_equal, ℤ, pos, negsuc, ltb, if◌then◌else◌,
}
use libsearpc.Types.{Run, done, crash, null_pointer}

-- The static variables.
pub record SlowLog : Type 0 where
  pub slow_log_fp : Option ℕ
  pub slow_threshold : ℤ
  pub filtered_funcs : List Bytes
  pub log_to_stdout : Bool

abbrev pub no_slow_log : SlowLog
no_slow_log = record {
  slow_log_fp = none;
  slow_threshold = pos 0;
  filtered_funcs = [];
  log_to_stdout = false;
}

-- `struct timeval` of a clock that reads a time after 1970.
pub record Timeval : Type 0 where
  pub tv_sec : ℕ
  pub tv_usec : ℕ

-- timersub of <sys/time.h>, where `start` is not later than `end`
unfoldable pub timersub : Timeval → Timeval → Timeval
timersub end start =
    if ltb end.tv_usec start.tv_usec
    then record {
      tv_sec = end.tv_sec - start.tv_sec - 1;
      tv_usec = end.tv_usec + 1000000 - start.tv_usec;
    }
    else record { tv_sec = end.tv_sec - start.tv_sec; tv_usec = end.tv_usec - start.tv_usec }

-- A line: the time of the call, the service, the call and the time that it took; a line on the
-- standard output has a mark in front.
pub record LogLine : Type 0 where
  pub stream : ℕ
  pub marked : Bool
  pub at : ℕ
  pub svc_name : Bytes
  pub func : Bytes
  pub intv_in_usec : ℕ

unfoldable pub rpc_include_passwd : List Bytes → Bytes → Bool
rpc_include_passwd [] fname = false
rpc_include_passwd (rpc_name ∷ names) fname =
    if str_equal fname rpc_name then true else rpc_include_passwd names fname

-- intv_in_msec < slow_threshold
unfoldable pub below_threshold : ℕ → ℤ → Bool
below_threshold msec (pos n) = ltb msec n
below_threshold msec (negsuc n) = false

unfoldable pub print_slow_log_if_necessary :
    SlowLog → ℕ → Bytes → Bytes → Timeval → Timeval → List LogLine
unfolding below_threshold
print_slow_log_if_necessary log fp svc_name func start intv =
    let usec = intv.tv_sec * 1000000 + intv.tv_usec in
    if below_threshold (usec / 1000) log.slow_threshold
    then []
    else record {
      stream = fp;
      marked = log.log_to_stdout;
      at = start.tv_sec;
      svc_name = svc_name;
      func = func;
      intv_in_usec = usec;
    }
      ∷ []

-- `!filtered_funcs || !rpc_include_passwd (fname)`: an empty GList is NULL.
unfoldable pub log_call : SlowLog → Bytes → Bytes → Bytes → Timeval → Timeval → List LogLine
unfolding print_slow_log_if_necessary rpc_include_passwd timersub
log_call log svc_name func fname start end = elim log.slow_log_fp [
  | none ↦ []
  | some fp ↦
      if rpc_include_passwd log.filtered_funcs fname
      then []
      else print_slow_log_if_necessary log fp svc_name func start (timersub end start)
]

-- g_strcmp0 (log_to_stdout_env, "true") == 0, false on NULL
unfoldable pub is_true_text : Option Bytes → Bool
is_true_text none = false
is_true_text (some value) = str_equal value (codes "true")

module _ (fopen : Bytes → Option ℕ) where
  -- `env` is SEAFILE_LOG_TO_STDOUT, and `stdout` the handle of that stream. A status and the
  -- variables; the caller goes on to searpc_server_init if the status is 0.
  unfoldable pub searpc_server_init_with_slow_log :
      ℕ → Option Bytes → Option Bytes → ℤ → List Bytes → SlowLog → ℤ × SlowLog
  unfolding is_true_text
  searpc_server_init_with_slow_log stdout env path threshold filtered log =
      let set : SlowLog = record log { slow_threshold = threshold; filtered_funcs = filtered } in
      if is_true_text env
      then (pos 0, record set { slow_log_fp = some stdout; log_to_stdout = true })
      else elim path [
        | none ↦ (pos 0, set)
        | some file ↦ elim (fopen file) [
          | none ↦ (negsuc 0, record log { slow_log_fp = none })
          | some fp ↦ (pos 0, record set { slow_log_fp = some fp })
        ]
      ]

  -- `fclose` gives whether it failed; it may not be called on NULL.
  unfoldable pub searpc_server_reopen_slow_log : (ℕ → Bool) → Bytes → SlowLog → Run (ℤ × SlowLog)
  searpc_server_reopen_slow_log fclose_fails path log =
      if log.log_to_stdout then done (pos 0, log) else elim (fopen path) [
        | none ↦ done (negsuc 0, log)
        | some fp ↦ elim log.slow_log_fp [
          | none ↦ crash null_pointer
          | some oldfp ↦ done (
            (if fclose_fails oldfp then negsuc 0 else pos 0),
            record log { slow_log_fp = some fp },
          )
        ]
      ]
