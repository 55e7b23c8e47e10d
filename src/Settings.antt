-- ===== src/Settings.antt =====
-- The validity of settings: WorkerSettings of jobs/settings.py, in whole seconds, and ExportLimits of
-- application/export_limits.py.
use chess_crawl.Prelude.{ℕ, ◌+◌, ◌*◌, ◌^◌, Bool, ◌&&◌, ltb, leb}

pub record WorkerSettings : Type 0 where
  pub poll_interval : ℕ
  pub heartbeat_interval : ℕ
  pub heartbeat_max_age : ℕ
  pub job_max_retries : ℕ
  pub job_retry_base_s : ℕ
  pub job_retry_max_s : ℕ

-- __post_init__ of WorkerSettings
unfoldable pub valid_worker_settings : WorkerSettings → Bool
valid_worker_settings s =
    ltb 0 s.poll_interval
    && ltb 0 s.heartbeat_interval
    && ltb 0 s.heartbeat_max_age
    && ltb 0 s.job_retry_base_s
    && ltb 0 s.job_retry_max_s
    && leb s.job_retry_base_s s.job_retry_max_s
    && leb (2 * s.heartbeat_interval) s.heartbeat_max_age

pub record ExportLimits : Type 0 where
  pub max_rows : ℕ
  pub max_bytes : ℕ
  pub prepare_seconds : ℕ
  pub download_seconds : ℕ
  pub workspace_slots : ℕ
  pub outstanding_spools : ℕ
  pub outstanding_bytes : ℕ
  pub workspace_outstanding_spools : ℕ
  pub workspace_outstanding_bytes : ℕ

abbrev pub within_maximum : ℕ → ℕ → Bool
within_maximum maximum n = leb 1 n && leb n maximum

-- _LIMIT_MAXIMUMS, and __post_init__ of ExportLimits
unfoldable pub valid_export_limits : ExportLimits → Bool
valid_export_limits l =
    within_maximum 10000000 l.max_rows
    && within_maximum (4 * 1024 ^ 3) l.max_bytes
    && within_maximum 600 l.prepare_seconds
    && within_maximum 3600 l.download_seconds
    && within_maximum 16 l.workspace_slots
    && within_maximum 128 l.outstanding_spools
    && within_maximum (16 * 1024 ^ 3) l.outstanding_bytes
    && within_maximum 128 l.workspace_outstanding_spools
    && within_maximum (16 * 1024 ^ 3) l.workspace_outstanding_bytes
    && ltb l.workspace_outstanding_spools l.outstanding_spools
    && leb l.max_bytes l.workspace_outstanding_bytes
    && leb (l.workspace_outstanding_bytes + l.max_bytes) l.outstanding_bytes
