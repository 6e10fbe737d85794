-- ===== src/Evidence/Tick.antt =====
-- One tick of the evidence worker (`tick` of processing.worker.ts): the next job, done by its type.
-- An exception is caught and logged, and what was committed before it stays.
pub mod Verified
pub mod Retired
use team_nivaran.Common.{ℕ, Option, none, some}
use team_nivaran.Common.Results.{Result, ok, err}
use team_nivaran.Evidence.Model.{
  JobType, malware_scan, integrity_check, reconcile, ProcessingJob, Db, Client, Services, Settings,
}
use team_nivaran.Evidence.Jobs.{claim, complete}
use team_nivaran.Evidence.Worker.{scan}
use team_nivaran.Evidence.Integrity.{integrity}

module _ {Stream : Type 0} (prisma : Client) (services : Services Stream)
    (settings : Settings) where
  unfoldable pub run_job : ProcessingJob → ℕ → Db → Db
  run_job job now db = elim job.job_type [
    | malware_scan ↦ (scan prisma services settings job now db).0
    | integrity_check ↦ (integrity prisma services settings job now db).0
    | reconcile ↦ complete prisma settings job.id now db
  ]

  unfoldable pub tick : ℕ → Db → Db
  tick now db =
      let (claimed, outcome) = claim prisma settings now db in
      elim outcome [ err e ↦ claimed | ok none ↦ claimed | ok (some job) ↦ run_job job now claimed ]
