-- ===== src/Api/Health.antt =====
-- backend/app/main.py: the probes of the running process.
use nordmarkt.Common.{
  Bool, true, false, ◌&&◌, Option, none, some, List, [], ◌∷◌, String, if◌then◌else◌,
}

-- `liveness`
unfoldable pub liveness : List (String × String)
liveness = ("status", "ok") ∷ []

-- What a check reports: "ok", or "error: " with the name of the class of an exception, which is no
-- "ok".
pub data Report : Type 0 where
  working : Report
  failing : String → Report

abbrev pub is_working : Report → Bool
is_working working = true
is_working (failing _) = false

abbrev pub report : Option String → Report
report none = working
report (some raised) = failing raised

pub record Readiness : Type 0 where
  pub database : Report
  pub redis : Report
  pub status : String

abbrev pub all_working : List Report → Bool
all_working [] = true
all_working (r ∷ rs) = is_working r && all_working rs

-- `readiness`, of what SELECT 1 and PING raised.
unfoldable pub readiness : Option String → Option String → Readiness
readiness database redis = record {
  database = report database;
  redis = report redis;
  status = if all_working (report database ∷ report redis ∷ []) then "ok" else "degraded";
}
