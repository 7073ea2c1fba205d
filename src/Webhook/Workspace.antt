-- ===== src/Webhook/Workspace.antt =====
-- internal/webhook/v1/workspace_webhook.go: defaults and validation of a Workspace.
-- The dynamic type check of the decoded object is left out: the functions take a Workspace.
pub mod Laws
pub mod Defaults
use forkspacer.Base.{
  ℕ, String, Bool, true, false, not, Option, none, some, List, [], ◌∷◌, ◌++◌, Assoc, lookup, equal,
  String-discrete, ◌==◌, if◌then◌else◌,
}
use forkspacer.Go.{Error, Result, ok, err, is_not_found, concat}
use forkspacer.Api.Meta.{ObjectMeta, ObjectKey}
use forkspacer.Api.Workspace.{
  Workspace, WorkspaceSpec, WorkspaceType, managed, WorkspaceConnection, WorkspaceConnectionType,
  kubeconfig, WorkspaceConnectionSecretReference, WorkspaceFromReference, WorkspaceAutoHibernation,
}
use forkspacer.Webhook.Field.{FieldError, ErrorList, required, invalid, internal, none_found, when}

-- What the webhook asks of others: the API server for a workspace and for the data of a secret, the
-- cron parser and the kubeconfig loader for an error, if they have one.
pub record Reader : Type 0 where
  pub get_workspace : ObjectKey → Result Workspace
  pub get_secret : ObjectKey → Result (Assoc String)
  pub parse_cron : String → Option Error
  pub load_kubeconfig : String → Option Error

pub WorkspaceType-discrete : Discrete WorkspaceType
WorkspaceType-discrete = hlevel String-discrete

pub WorkspaceConnection-discrete : Discrete WorkspaceConnection
WorkspaceConnection-discrete = hlevel String-discrete

pub FromReference-discrete : Discrete (Option WorkspaceFromReference)
FromReference-discrete = hlevel String-discrete

abbrev pub is_managed : WorkspaceType → Bool
is_managed managed = true
is_managed _ = false

abbrev pub is_kubeconfig : WorkspaceConnectionType → Bool
is_kubeconfig kubeconfig = true
is_kubeconfig _ = false

-- the connection that `Default` gives a managed workspace of this name
unfoldable pub managed_connection : String → WorkspaceConnection
managed_connection name = record {
  type = kubeconfig;
  secret_reference = some (record {
    name = concat ("vc-kubeconfig" ∷ "-" ∷ name ∷ []);
    namespace = concat ("forkspacer-" ∷ name ∷ []);
    key = "config";
  });
}

abbrev or_now : ℕ → Option ℕ → Option ℕ
or_now now none = some now
or_now now (some t) = some t

abbrev inherit :
    Result Workspace → Option WorkspaceAutoHibernation → Option WorkspaceAutoHibernation
inherit _ (some a) = some a
inherit (ok from) none = from.spec.auto_hibernation
inherit (err _) none = none

abbrev from_key : WorkspaceFromReference → ObjectKey
from_key r = record { key_namespace = r.namespace; key_name = r.name }

abbrev inherited :
    Reader
    → Option WorkspaceFromReference
    → Option WorkspaceAutoHibernation
    → Option WorkspaceAutoHibernation
inherited r none a = a
inherited r (some from) a = inherit (r.get_workspace (from_key from)) a

-- WorkspaceCustomDefaulter.Default, at the time `now`
unfoldable pub default_workspace : Reader → ℕ → Workspace → Workspace
unfolding managed_connection
default_workspace r now w = record w {
  status = record w.status { last_activity = or_now now w.status.last_activity };
  spec = record w.spec {
    connection =
        if is_managed w.spec.type then managed_connection w.metadata.name else w.spec.connection;
    auto_hibernation = inherited r w.spec.from w.spec.auto_hibernation;
  };
}

-- validateWorkspaceScheduleFormat
abbrev schedule_format : Reader → String → List String → ErrorList
schedule_format r schedule path = elim (r.parse_cron schedule) [
  | none ↦ []
  | some e ↦ record { kind = invalid; path = path; detail = e.text } ∷ []
]

abbrev same_schedule : String → String → ErrorList
same_schedule schedule wake = when (schedule == wake) (record {
  kind = invalid;
  path = "spec" ∷ "wakeSchedule" ∷ [];
  detail = "wakeSchedule cannot be the same as schedule";
})

-- `else if`: the comparison is made only if the wake schedule parses
abbrev or_else : ErrorList → ErrorList → ErrorList
or_else [] others = others
or_else (e ∷ es) others = e ∷ es

abbrev wake_errors : Reader → String → Option String → ErrorList
wake_errors r schedule none = []
wake_errors r schedule (some wake) =
    or_else (schedule_format r wake ("spec" ∷ "wakeSchedule" ∷ [])) (same_schedule schedule wake)

unfoldable pub auto_hibernation_errors : Reader → Option WorkspaceAutoHibernation → ErrorList
auto_hibernation_errors r none = []
auto_hibernation_errors r (some a) =
    schedule_format r a.schedule ("spec" ∷ "schedule" ∷ [])
    ++ wake_errors r a.schedule a.wake_schedule

abbrev secret_path : List String
secret_path = "spec" ∷ "connection" ∷ "secretReference" ∷ []

abbrev load_errors : WorkspaceConnectionSecretReference → Option Error → ErrorList
load_errors s none = []
load_errors s (some e) =
    record {
      kind = invalid;
      path = secret_path;
      detail = concat (
          s.key ∷ " field in secret " ∷ s.namespace ∷ "/" ∷ s.name ∷ " is not a valid kubeconfig: "
          ∷ e.text ∷ []);
    }
    ∷ []

-- validateWorkspaceKubeconfigInSecret, on the value under the key
unfoldable pub kubeconfig_errors :
    Reader → WorkspaceConnectionSecretReference → Option String → ErrorList
kubeconfig_errors r s none =
    record {
      kind = required;
      path = secret_path;
      detail =
          concat
            ("secret " ∷ s.namespace ∷ "/" ∷ s.name ∷ " must contain a " ∷ s.key ∷ " field" ∷ []);
    }
    ∷ []
kubeconfig_errors r s (some content) =
    if content == ""
    then record {
      kind = invalid;
      path = secret_path;
      detail =
          concat
            (s.key ∷ " field in secret " ∷ s.namespace ∷ "/" ∷ s.name ∷ " cannot be empty" ∷ []);
    }
      ∷ []
    else load_errors s (r.load_kubeconfig content)

abbrev secret_key : WorkspaceConnectionSecretReference → ObjectKey
secret_key s = record { key_namespace = s.namespace; key_name = s.name }

abbrev read_errors : Reader → WorkspaceConnectionSecretReference → Result (Assoc String) → ErrorList
read_errors r s (ok content) = kubeconfig_errors r s (lookup s.key content)
read_errors r s (err e) =
    if is_not_found e
    then record {
      kind = invalid;
      path = secret_path;
      detail = concat ("secret " ∷ s.namespace ∷ "/" ∷ s.name ∷ " not found" ∷ []);
    }
      ∷ []
    else record {
      kind = internal;
      path = secret_path;
      detail = concat ("failed to validate secret reference: " ∷ e.text ∷ []);
    }
      ∷ []

abbrev reference_errors : Reader → Option WorkspaceConnectionSecretReference → ErrorList
reference_errors r none =
    record {
      kind = required;
      path = secret_path;
      detail = "secretReference is required when connection type is kubeconfig";
    }
    ∷ []
reference_errors r (some s) = read_errors r s (r.get_secret (secret_key s))

-- validateWorkspaceSecretReference
unfoldable pub secret_reference_errors : Reader → WorkspaceConnection → ErrorList
unfolding kubeconfig_errors
secret_reference_errors r c =
    if not (is_kubeconfig c.type) then [] else reference_errors r c.secret_reference

-- validateWorkspaceSpec, which is all that validateWorkspace calls
unfoldable pub spec_errors : Reader → WorkspaceSpec → ErrorList
unfolding auto_hibernation_errors secret_reference_errors
spec_errors r spec =
    auto_hibernation_errors r spec.auto_hibernation
    ++ (if is_managed spec.type then [] else secret_reference_errors r spec.connection)

abbrev lookup_errors : WorkspaceFromReference → Result Workspace → ErrorList
lookup_errors from (ok _) = []
lookup_errors from (err e) =
    if is_not_found e
    then record {
      kind = invalid;
      path = "spec" ∷ "from" ∷ [];
      detail = concat ("workspace " ∷ from.namespace ∷ "/" ∷ from.name ∷ " not found" ∷ []);
    }
      ∷ []
    else record {
      kind = internal;
      path = "spec" ∷ "from" ∷ [];
      detail = concat ("failed to validate from reference: " ∷ e.text ∷ []);
    }
      ∷ []

-- validateWorkspaceFromReference
unfoldable pub from_errors : Reader → Option WorkspaceFromReference → ErrorList
from_errors r none = []
from_errors r (some from) = lookup_errors from (r.get_workspace (from_key from))

abbrev immutable : List String → FieldError
immutable path = record { kind = invalid; path = path; detail = "field is immutable" }

-- validateWorkspaceImmutableUpdateFields
unfoldable pub immutable_errors : WorkspaceSpec → WorkspaceSpec → ErrorList
immutable_errors old new =
    when (not (equal WorkspaceType-discrete old.type new.type)) (immutable ("spec" ∷ "type" ∷ []))
    ++ when (not (equal FromReference-discrete old.from new.from))
        (immutable ("spec" ∷ "from" ∷ []))
    ++ when (not (equal WorkspaceConnection-discrete old.connection new.connection))
        (immutable ("spec" ∷ "connection" ∷ []))

-- ValidateCreate, ValidateUpdate and ValidateDelete: the errors of the rejection, none if admitted
pub validate_create : Reader → Workspace → ErrorList
unfolding spec_errors from_errors
validate_create r w = spec_errors r w.spec ++ from_errors r w.spec.from

abbrev if_none : ErrorList → ErrorList → ErrorList
if_none [] others = others
if_none (e ∷ es) others = e ∷ es

pub validate_update : Reader → Workspace → Workspace → ErrorList
unfolding immutable_errors spec_errors
validate_update r old new = if_none (immutable_errors old.spec new.spec) (spec_errors r new.spec)

pub validate_delete : Workspace → ErrorList
validate_delete w = []
