-- ===== src/Lib.antt =====
-- Verification of the forkspacer operator, a Kubernetes operator that gives teams workspaces
-- (clusters, real or virtual) and installs modules in them, which can be put to sleep and resumed.
--
-- The parts of the program, and the files that model them:
--   Api models api/v1. Api/Workspace and Api/Module hold the records and enumerations of the two
--     resources (workspace_types.go, module_types.go) with GetNamespace and GetReleaseName;
--     Api/Meta what is used of the object metadata and of controllerutil's finalizer functions.
--     Api/Config holds the `Validate` methods of the five kinds of config items and
--     GetValidatedConfig; Api/Any the dynamic values on which they work. Api/Render holds
--     renderInterface, RenderHelmSpec and RenderCustomSpec.
--   Webhook models internal/webhook/v1: defaults and validation of workspaces
--     (workspace_webhook.go) and of modules (module_webhook.go). A result is the list of field
--     errors, with an empty list for a request that is admitted.
--   Controller/Module models the reconciler of modules: Controller/Module itself the parameters
--     and the setPhase of module_controller.go, Controller/Module/Operations the functions of
--     module_operations.go with newManager, Controller/Module/Reconcile the function Reconcile,
--     handleEmptyPhase, handleHibernation and, from module_deletion.go, handleDeletion.
--     Controller/Retry describes client-go's RetryOnConflict.
--   Controller/Workspace models the reconciler of workspaces: Controller/Workspace itself, from
--     workspace_controller.go, the setPhase functions, handleHibernation with sleepModules and
--     resumeModules, and hibernateModuleAndWait; Controller/Workspace/EmptyPhase the function
--     handleEmptyPhase, Controller/Workspace/Reconcile the functions Reconcile and handleDeletion,
--     with the parameters that they share in Controller/Workspace/Setup. Controller/Workspace/Fork
--     and Controller/Workspace/Migrate model workspace_fork.go: forkWorkspace, the goroutine that
--     copies a module, and the migration of the module's data.
--   Controller/Cron models the two cron managers with their locks and handleAutoHibernation; a
--     goroutine that waits for a lock which it holds itself is the outcome `blocked`.
--     Controller/Workspace/Job models the jobs that fire. Controller/Cron/Table is the abstract view
--     of a manager, a table of schedules, and Controller/Cron/Refinement relates the two.
--   Controller/Managed models virtual clusters (workspace_managed.go): their names and settings,
--     installVCluster and uninstallVCluster. Controller/Connection models the connection to the
--     cluster of a workspace (helper.go).
--   Helm models pkg/services/helm.go and pkg/manager/helm.go. Helm itself holds the scaling
--     functions (ScaleDeployments and the like, and their Back counterparts) with Sleep and Resume
--     and the replica history in the metadata of a module; Helm/Service the merge of values,
--     UninstallRelease, GetSecretValue and ListPVCs; Helm/Charts the installation from a repository
--     or from a directory; Helm/Manager the Install and Uninstall of the manager.
--   Custom models pkg/manager/custom.go: Custom itself the state and the parameters, Custom/Runner
--     NewModuleCustomManager with the pod, the secret and the service of a runner and the waits for
--     them, Custom/Calls callRunnerEndpoint and the four operations of the manager.
--   Migration models pkg/services/secret_migration.go and configmap_migration.go, Migration/Volumes
--     pvc_migration.go, which Controller/Workspace/Migrate takes as a parameter.
--   Go and Exec hold errors, results and code with state; Base the shared names and lemmas.
--   Tests holds concrete runs.
-- The webhook of modules and the reconciler meet in the config: what the webhook admits is what
-- GetValidatedConfig accepts, and rendering calls it again. The two reconcilers and the webhooks
-- communicate through the API server alone, which is a parameter. The reconciler of workspaces
-- calls the Helm service for its virtual clusters, the Helm manager calls it for modules.
--
-- How the state is modelled: code acts on a world (the API server, the clusters and the clock
-- behind the client, of any type) and keeps a trace of its effects, with the newest first: a
-- status or finalizers written, a deletion or a patch sent, a wait, an event, a call of a manager
-- or of the Helm SDK. A goroutine that is started is an effect, and what it runs is a function of
-- its own. The client is a record of functions that may answer anything at any time; records named
-- ...Laws say what is relied on: the retry calls its function again only after a conflict, and a
-- status update answers with the status that was sent. Tests has instances. Results carry the
-- delay of the requeue in seconds. A `defer` is `finally` of Exec. A panic on a nil pointer is an
-- error with the text of the panic.
-- Times are nanoseconds in the natural numbers, waits of the reconciler of workspaces milliseconds.
-- An integer of a config item is an unbounded integer, since the code only compares it; there is
-- no arithmetic on machine integers.
--
-- Loops: every function is structurally recursive. The code bounds two of its polling loops
-- itself, with 180 rounds of five seconds: hibernateModuleAndWait, and the wait for a new module
-- to be ready. The wait for a deleted module ends when a minute has passed, and polls every two
-- seconds: it runs on 31 rounds, as many as a minute has waits of two seconds, and one more.
-- RetryOnConflict, whose attempts are bounded by client-go, is a parameter. The waits for the pod
-- and the service of a runner (waitForPodRunning, waitForServiceReady) and for the pod of a
-- migration (waitForPodReady) have no number of rounds in the code: they take one as an argument,
-- and after it their answer is that they are still waiting, with nothing done that follows them.
--
-- Parameters: the API server, the clock, the cron library, client-go's loaders, the Helm SDK,
-- HTTP, git and the file system, regular expressions, JSON decoding and encoding, the template
-- engine, the conversion of floats, and the commands that stream a volume. The reconciler of
-- modules takes the managers of modules as parameters too. Error texts leave out numbers and lists
-- printed into them; the class of an error is kept. A list does not tell Go's nil slice from an
-- empty one, which the webhook's comparison of the outputs of a module does. Log lines, the events
-- that handleAutoHibernation records, and the registration of watches and webhooks, are left out.
--
-- Not modelled: the reading of a release (pkg/services/helm.go), and the printing and parsing of
-- a module's metadata (pkg/manager/base), which are parameters. Deep copies are generated code;
-- cmd/main.go only registers.
mod Base
pub mod Go
pub mod Exec
pub mod Api
pub mod Webhook
pub mod Controller
pub mod Helm
pub mod Migration
pub mod Custom
mod Tests
