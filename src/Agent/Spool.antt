-- ===== src/Agent/Spool.antt =====
-- internal/agent/results.go: the results that wait on disk, by the id of their job, and their delivery;
-- `pollAndRun` of internal/agent/agent.go behind the run of a job. A pass that is cut short by the
-- end of the program has no more replies.
use hostseal.Base.{String, Bool, true, false, not, ◌&&◌, List, [], ◌∷◌, if◌then◌else◌}
use hostseal.Base.Assoc.{put, delete}
use hostseal.Agent.Run.{ResultRequest}
use hostseal.Store.State.{by_id}
use hostseal.Server.Jobs.{valid_job_id}

-- What a file of the spool holds: a record, something that does not parse, or what cannot be read now.
pub data File : Type 0 where
  holds : ResultRequest → File
  unreadable unavailable : File

abbrev pub Spool : Type 0
Spool = List (String × File)

-- `SpoolResult`, and whether it succeeded. The disk may fail.
unfoldable pub spool_result : Bool → ResultRequest → Spool → Spool × Bool
spool_result written r s =
    if not (valid_job_id r.job_id)
    then (s, false)
    else if written
    then (put by_id r.job_id (holds r) s, true)
    else (s, false)

-- `PendingResults`: the records in the order of the directory. What does not parse is removed.
unfoldable pub pending_results : Spool → List ResultRequest × Spool
pending_results [] = ([], [])
pending_results ((k, holds r) ∷ s) =
    let (rs, rest) = pending_results s in (r ∷ rs, (k, holds r) ∷ rest)
pending_results ((k, unreadable) ∷ s) = pending_results s
pending_results ((k, unavailable) ∷ s) =
    let (rs, rest) = pending_results s in (rs, (k, unavailable) ∷ rest)

-- The answer to a report: 2xx, a permanent refusal, or anything else.
pub data Answer : Type 0 where
  accepted refused undelivered : Answer

-- The answer, and whether the file can be removed.
abbrev pub Reply : Type 0
Reply = Answer × Bool

abbrev pub remove_file : Bool → String → Spool → Spool
remove_file removable id s = if valid_job_id id && removable then delete by_id id s else s

-- After a report: a result that could not be delivered stays.
unfoldable pub settle_file : Reply → ResultRequest → Spool → Spool
settle_file (undelivered, removable) r s = s
settle_file (accepted, removable) r s = remove_file removable r.job_id s
settle_file (refused, removable) r s = remove_file removable r.job_id s
