-- ===== src/Server/SlowLog/Laws.antt =====
-- When a call is logged, and the time that its line gives.
use libsearpc.Prelude.{
  ℕ, ◌+◌, ◌-◌, ◌*◌, ◌/◌, ◌≤◌, ◌<◌, ◌≡◌, ◌↔◌, refl, true, false, some, ℤ, pos, negsuc, [], ◌∷◌,
  arith, Bytes, ltb, Bool-cases, inl, inr,
}
use libsearpc.Server.SlowLog.{
  SlowLog, Timeval, timersub, rpc_include_passwd, below_threshold, LogLine,
  print_slow_log_if_necessary, log_call,
}

-- A time in microseconds.
abbrev pub usec_of : Timeval → ℕ
usec_of t = t.tv_sec * 1000000 + t.tv_usec

timersub_lem :
    (end start : Timeval)
    → end.tv_usec < 1000000
    → start.tv_usec < 1000000
    → usec_of start ≤ usec_of end
    → usec_of (timersub end start) ≡ usec_of end - usec_of start
unfolding timersub
timersub_lem end start e s h = elim (Bool-cases (ltb end.tv_usec start.tv_usec)) [
  | inl b ↦ let less : end.tv_usec < start.tv_usec = ground arith in rw b (omega arith)
  | inr b ↦ let not_less : start.tv_usec ≤ end.tv_usec = ground arith in rw b (omega arith)
]

-- A time in milliseconds is before the threshold, which may be negative.
abbrev pub IsShorter : ℕ → ℤ → Type 0
IsShorter msec (pos n) = msec < n
IsShorter msec (negsuc n) = ⊥

below_threshold-IsShorter :
    (msec : ℕ) (threshold : ℤ) → (below_threshold msec threshold ≡ true) ↔ IsShorter msec threshold
unfolding below_threshold
below_threshold-IsShorter msec (pos n) = (λ h. ground arith, λ h. ground arith)
below_threshold-IsShorter msec (negsuc n) = (λ h. cc h, λ h. absurd h)

-- With a slow log, a function that is not filtered, clock readings with less than 1000000
-- microseconds and an end that is not before the start: a call writes no line exactly where its
-- time, in whole milliseconds, is smaller than the threshold, and exactly where it is not, one
-- line to the log's stream, marked where that is the standard output, with the second of the
-- start, the service, the text of the call and its time in microseconds.
pub log_call_lem :
    (log : SlowLog) (fp : ℕ) (svc_name func fname : Bytes) (start end : Timeval)
    → log.slow_log_fp ≡ some fp
    → rpc_include_passwd log.filtered_funcs fname ≡ false
    → end.tv_usec < 1000000
    → start.tv_usec < 1000000
    → usec_of start ≤ usec_of end
    → let lines = log_call log svc_name func fname start end in
      let line : LogLine = record {
        stream = fp;
        marked = log.log_to_stdout;
        at = start.tv_sec;
        svc_name = svc_name;
        func = func;
        intv_in_usec = usec_of end - usec_of start;
      } in
      let shorter = IsShorter ((usec_of end - usec_of start) / 1000) log.slow_threshold in
      ((lines ≡ []) ↔ shorter) × ((lines ≡ line ∷ []) ↔ (¬ shorter))
unfolding log_call print_slow_log_if_necessary
log_call_lem log fp svc_name func fname start end f p e s h =
    let iff = below_threshold-IsShorter ((usec_of end - usec_of start) / 1000) log.slow_threshold in
    let t = timersub_lem end start e s h in
    elim (Bool-cases (below_threshold ((usec_of end - usec_of start) / 1000) log.slow_threshold)) [
      | inl b ↦
          let none_written : log_call log svc_name func fname start end ≡ [] =
            rw (f, p) (rw t (rw b refl)) in
          rw none_written ((λ x. iff.0 b, λ x. refl), (λ x. cc x, λ x. absurd (x (iff.0 b))))
      | inr b ↦
          let written : log_call log svc_name func fname start end
              ≡ record {
                stream = fp;
                marked = log.log_to_stdout;
                at = start.tv_sec;
                svc_name = svc_name;
                func = func;
                intv_in_usec = usec_of end - usec_of start;
              }
                ∷ [] =
            rw (f, p) (rw t (rw b refl)) in
          rw written
            ((λ x. cc x, λ x. absurd (cc (iff.1 x, b))), (λ x. λ y. cc (iff.1 y, b), λ x. refl))
    ]
