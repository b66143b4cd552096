-- ===== src/Reconcile.antt =====
-- internal/controller/mimirrules/mimirrules_controller.go: the reconciliation of a MimirRules and
-- the watch on PrometheusRules.
pub mod Credentials
pub mod Calls
pub mod Stored
pub mod Finalizer
pub mod Errors
pub mod Reported
pub mod Status
pub mod Tenant
pub mod Live
pub mod Release
pub mod Reach
use mimir_operator.Base.{
  String, ◌<>◌, Bool, true, false, not, ◌||◌, List, [], ◌∷◌, Option, none, some, if◌then◌else◌,
}
use mimir_operator.Exec.{
  Exec, Error, message, is_not_found, Outcome, ok, err, pure, throw, lift, wrap, ◌>>=◌, ◌>>◌,
}
use mimir_operator.Prometheus.{PrometheusRule}
use mimir_operator.Names.{namespace_key}
use mimir_operator.Selection.{find_prometheus_rules, contains, mem}
use mimir_operator.Auth.{Auth, Authentication, extract_auth}
use mimir_operator.Domain.{MimirRules, ObjectMeta}
use mimir_operator.Client.{Config, MimirClient, new}
use mimir_operator.Cluster.{Cluster}
use mimir_operator.Sync.{sync_rules_to_ruler, delete_rules_for_tenant}

abbrev pub mimir_finalizer : String
mimir_finalizer = "mimir.randgen.xyz/finalizer"

pub record NamespacedName : Type 0 where
  pub namespace : String
  pub name : String

-- `IsZero` of the deletion timestamp
abbrev pub is_deleted : ObjectMeta → Bool
is_deleted meta = elim meta.deletion_timestamp [ none ↦ false | some _ ↦ true ]

-- The configuration of the client of an object, from its authentication.
abbrev pub config_of : String → String → Authentication → Config
config_of url id a = record {
  user = a.username;
  key = a.key;
  auth_token = a.token;
  address = url;
  id = id;
}

module _ (C : Cluster) where
  open C use {World, net, get_secret}

  -- `createMimirClient` of both controllers, which differ in the type of the object.
  unfoldable pub create_mimir_client :
      Option Auth → String → String → String → Exec World MimirClient
  create_mimir_client auth url id namespace = do
    a ← wrap "failed to extract authentication settings" (extract_auth get_secret auth namespace)
    wrap "failed to create mimir client" (lift (new net (config_of url id a)))

  -- The status that `setStatus` writes: none is a nil error.
  unfoldable pub with_status : MimirRules → Option Error → MimirRules
  with_status mr none = record mr { status = record (mr.status) { status = "Synced"; error = "" } }
  with_status mr (some e) = record mr {
    status = record (mr.status) { status = "Failed"; error = message e };
  }

  unfoldable pub set_status : MimirRules → Option Error → Exec World (Unit {0})
  unfolding with_status
  set_status mr e = do C.update_mimir_rules_status (with_status mr e); pure tt

  -- An error, or nil, goes on to `setStatus`; a panic does not.
  abbrev pub then_status : Outcome (Unit {0}) × (MimirRules × World) → Outcome (Unit {0}) × World
  then_status (ok _, (mr, w)) = set_status mr none w
  then_status (err e, (mr, w)) = set_status mr (some e) w
  then_status (Outcome.panic, (mr, w)) = (Outcome.panic, w)

  unfoldable pub handle_creation_and_changes : MimirRules → MimirClient → Exec World (Unit {0})
  unfolding set_status
  handle_creation_and_changes mr mc w = then_status (sync_rules_to_ruler C mc mr.spec (mr, w))

  abbrev pub with_finalizers : MimirRules → List String → MimirRules
  with_finalizers mr fs = record mr { meta = record (mr.meta) { finalizers = fs } }

  -- After the deletion in Mimir: the finalizer goes, or the failure is put in the status.
  abbrev pub after_deletion : MimirRules → Outcome (Unit {0}) × World → Outcome (Unit {0}) × World
  after_deletion mr (ok _, w) =
      (do
        C.update_mimir_rules
            (with_finalizers mr (C.remove_finalizer mr.meta.finalizers mimir_finalizer))
        pure tt)
        w
  after_deletion mr (err e, w) = set_status mr (some e) w
  after_deletion mr (Outcome.panic, w) = (Outcome.panic, w)

  -- The object is not being deleted: it gets the finalizer if it lacks it.
  unfoldable pub ensure_finalizer : MimirRules → Exec World MimirRules
  ensure_finalizer mr =
      if C.contains_finalizer mr.meta.finalizers mimir_finalizer
      then pure mr
      else C.update_mimir_rules
          (with_finalizers mr (C.add_finalizer mr.meta.finalizers mimir_finalizer))

  -- The rest of `Reconcile`, once there is a client.
  unfoldable pub reconcile_with : MimirRules → MimirClient → Exec World (Unit {0})
  unfolding ensure_finalizer set_status handle_creation_and_changes
  reconcile_with mr mc w =
      if not (is_deleted mr.meta)
      then (do mr' ← ensure_finalizer mr; handle_creation_and_changes mr' mc) w
      else if C.contains_finalizer mr.meta.finalizers mimir_finalizer
      then after_deletion mr (delete_rules_for_tenant C mr mc w)
      else handle_creation_and_changes mr mc w

  -- What follows the creation of the client.
  abbrev pub with_client : MimirRules → Outcome MimirClient × World → Outcome (Unit {0}) × World
  with_client mr (ok mc, w) = reconcile_with mr mc w
  with_client mr (err e, w) = set_status mr (some e) w
  with_client mr (Outcome.panic, w) = (Outcome.panic, w)

  -- What follows the `Get`: an object that is gone needs nothing (`client.IgnoreNotFound`).
  abbrev pub with_object : Outcome MimirRules × World → Outcome (Unit {0}) × World
  with_object (ok mr, w) =
      with_client mr (create_mimir_client mr.spec.auth mr.spec.url mr.spec.id mr.meta.namespace w)
  with_object (err e, w) = (if is_not_found e then ok tt else err e, w)
  with_object (Outcome.panic, w) = (Outcome.panic, w)

  unfoldable pub reconcile : NamespacedName → Exec World (Unit {0})
  unfolding reconcile_with create_mimir_client set_status
  reconcile req w = with_object (C.get_mimir_rules req.namespace req.name w)
