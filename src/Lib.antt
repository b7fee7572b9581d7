-- ===== src/Lib.antt =====
-- REANA-Job-Controller: a model of the service that submits the jobs of one workflow to a compute
-- backend, watches them there, and stops them at the end.
--
-- The program. One process keeps the jobs in a dictionary, JOB_DB (reana_job_controller/job_db.py).
-- Handlers of a REST interface (reana_job_controller/rest.py) create, list, delete and stop jobs;
-- one monitor thread for each backend in use (reana_job_controller/job_monitor.py) asks the backend
-- how its jobs are and writes statuses and logs to JOB_DB; the job managers
-- (reana_job_controller/kubernetes_job_manager.py, htcondorcern_job_manager.py,
-- slurmcern_job_manager.py, compute4punch_job_manager.py) submit and stop jobs and fetch their
-- logs. A condition variable (JobCreationCondition of rest.py) keeps the creation of jobs and the
-- shutdown apart.
--
-- The files. A function of the source has a definition of the same name, in snake_case; a part of a
-- long function that is a definition of its own is named for what it does.
--   Prelude, Dict, Text, Python: the library names in use; Python's dict, as a list of entries in
--     the order of insertion; texts; exceptions as values, and actions that change a state and may
--     raise (what was written before a raise stays written).
--   JobDb: job_db.py. JobDb/Laws: the accessors on a job that is there. JobDb/Frame: preorders on
--     JOB_DB, and the actions that respect them, for the proofs about the monitors.
--   Creation: JobCreationCondition and the threads of create_job and shutdown, each `with` block
--     one step, an interleaving a list of events; the proofs are in Creation/Exclusion
--     and Creation/Coverage.
--   Kubernetes: pods and the API client. Kubernetes/Status: get_job_status. Kubernetes/Logs:
--     get_logs and _get_containers_logs of kubernetes_job_manager.py. Kubernetes/Monitor:
--     JobMonitorKubernetes; its children hold the proofs (Remaining: which jobs remain; Confined,
--     Processing and Once: one event; Final: all streams).
--   Htcondor, Slurm, Punch: JobMonitorHTCondorCERN, JobMonitorSlurmCERN, JobMonitorCompute4PUNCH,
--     each with its proofs in Results (and Htcondor/Frame, Punch/Rounds); Htcondor/Visit: the
--     specification of a visit of the HTCondor monitor, with its proof in Visit/Ends;
--     Htcondor/Query: format_condor_job_que_query.
--   Managers: stop and get_logs of the four managers; Managers/Backends: config.COMPUTE_BACKENDS.
--   JobManager: the hook around execute and the environment of a job, of
--     reana_job_controller/job_manager.py. Kubernetes/Limits: set_user_id and set_memory_limit.
--   Kubernetes/JobSpec: the job that KubernetesJobManager.execute builds, its parts as records;
--     JobSpec/Credentials: the init containers for VOMS and Rucio; JobSpec/Build: execute and
--     _submit; JobSpec/Mounts and JobSpec/Confinement: proofs on the pod.
--   Ssh: singleton, SSHClient and initialize_krb5_token of reana_job_controller/utils.py; Ssh/Token:
--     MotleyCueTokenAuth, with its proofs in Token/Trust; Ssh/Laws: proofs on SSHClient; Ssh/Effects
--     and Ssh/Answers: lemmas on what an action sends.
--   Transfer: the recursive downloads of the Slurm and Compute4PUNCH managers; Transfer/Flat: what
--     they get.
--   Slurm/Submission: execute and get_outputs of SlurmJobManagerCERN, with os.walk in
--     Submission/Walk and the proofs in Submission/Sent. Punch/Submission: __init__, execute and
--     get_outputs of Compute4PUNCHJobManager; Submission/Description: the job description, with its
--     lines in Submission/Lines; Submission/Response: the job id in the answer; Submission/Sent:
--     the proofs. Htcondor/Submission: execute of HTCondorJobManagerCERN up to the transaction with
--     the schedd; Submission/Arguments: _format_arguments; Submission/Commands: proofs on it.
--     Text/Parts: the methods of str that they use.
--   Rest/Cache: check_if_cached, job_is_cached and the cache of the user secrets. Formatter:
--     MultilineFormatter and csv_parser of reana_job_controller/utils.py.
--   Slurm/Progress: proofs on a round of the Slurm monitor that meets no error.
--   Schemas: the hook set_kubernetes_job_timeout of reana_job_controller/schemas.py, with its laws
--     in Schemas/Timeout.
--   Rest: the handlers that read, delete and stop jobs. Rest/Create: create_job. Rest/Shutdown: the
--     specification of the shutdown, job by job; Rest/Shutdown/Round, Rest/Shutdown/Whole and
--     Rest/Shutdown/Closing: its proofs. Rest/Create/Laws: proofs on create_job. Rest/Create/Reads: proofs on the handlers
--     that read. Rest/Delete: proofs on delete_job.
--   Files called Tests, and Rest/Samples: the program on small inputs.
--
-- State. The database session, the stop requests and the sleeps leave no trace in the process but
-- their order, so they are recorded as a list of calls beside JOB_DB. What an outside system
-- answers is a function among the fields of a record (Api, Outside, Schedd, Submitter, LoginNode,
-- Environment, Backing, Memory, Settings, Deployment, Network, Service, Site). The SSH connection has
-- a state of its own, with the class attributes of the managers and the events on the connection,
-- and an answer of the network may depend on all events before it.
--
-- Loops. A `for` is recursion on the list. A `while True` is recursion on the list of what the
-- outside system answers in each round, of any length, and no bound or fuel is
-- needed. Integers are Python's, without a bound: ℕ where no negative number
-- occurs, else ℤ.
--
-- Not modelled: the threads other than those of Creation run one after the other, so a change of
-- JOB_DB by another thread in the middle of a handler or of a round is not seen. The submission
-- itself (`execute` of the managers) is a parameter of create_job and of its hook; the models of
-- execute stand by themselves. Left out are get_openapi_spec and the document that it returns, the
-- request for the user name of a token, the retries of the package retrying, and the set-up of the
-- application. Methods of str are those of ASCII texts.
pub mod Creation
pub mod Dict
pub mod Formatter
pub mod Htcondor
pub mod JobDb
pub mod JobManager
pub mod Kubernetes
pub mod Managers
pub mod Prelude
pub mod Punch
pub mod Python
pub mod Rest
pub mod Schemas
pub mod Slurm
pub mod Ssh
pub mod Text
pub mod Transfer
