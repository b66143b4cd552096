-- ===== src/Controller.antt =====
-- What the two controllers have in common: `Reconcile` of mimirrules_controller.go and of
-- mimiralertmanagerconfig_controller.go, over the parts in which they differ.
pub mod Instances
pub mod Guard
pub mod Keeps
pub mod Errors
use mimir_operator.Base.{String, not, List, Option, none, some, if◌then◌else◌, true, ◌≡◌}
use mimir_operator.Exec.{Exec, Error, is_not_found, Outcome, ok, err, pure, ◌>>=◌, ◌>>◌}
use mimir_operator.Domain.{ObjectMeta}
use mimir_operator.Client.{MimirClient}
use mimir_operator.Cluster.{Cluster}
use mimir_operator.Reconcile.{NamespacedName, is_deleted}

pub record Controller (C : Cluster) : Type 1 where
  pub Object : Type 0
  pub meta : Object → ObjectMeta
  pub with_finalizers : Object → List String → Object
  pub finalizer : String
  pub get : String → String → Exec C.World Object
  pub update : Object → Exec C.World Object
  pub set_status : Object → Option Error → Exec C.World (Unit {0})
  pub make_client : Object → Exec C.World MimirClient
  -- `handleCreationAndChanges` and `handleDeletion`
  pub change : Object → MimirClient → Exec C.World (Unit {0})
  pub delete : Object → MimirClient → Exec C.World (Unit {0})

module _ {C : Cluster} (K : Controller C) where
  open C use {World}
  open K use {Object, meta, with_finalizers, finalizer, set_status, change}

  abbrev pub HasFinalizer : Object → Type 0
  HasFinalizer o = C.contains_finalizer (meta o).finalizers finalizer ≡ true

  abbrev pub added : Object → Object
  added o = with_finalizers o (C.add_finalizer (meta o).finalizers finalizer)

  abbrev pub removed : Object → Object
  removed o = with_finalizers o (C.remove_finalizer (meta o).finalizers finalizer)

  abbrev pub after_deletion : Object → Outcome (Unit {0}) × World → Outcome (Unit {0}) × World
  after_deletion o (ok _, w) = (do K.update (removed o); pure tt) w
  after_deletion o (err e, w) = set_status o (some e) w
  after_deletion o (Outcome.panic, w) = (Outcome.panic, w)

  unfoldable pub ensure_finalizer : Object → Exec World Object
  ensure_finalizer o =
      if C.contains_finalizer (meta o).finalizers finalizer then pure o else K.update (added o)

  unfoldable pub reconcile_with : Object → MimirClient → Exec World (Unit {0})
  unfolding ensure_finalizer
  reconcile_with o mc w =
      if not (is_deleted (meta o))
      then (do o' ← ensure_finalizer o; change o' mc) w
      else if C.contains_finalizer (meta o).finalizers finalizer
      then after_deletion o (K.delete o mc w)
      else change o mc w

  abbrev pub with_client : Object → Outcome MimirClient × World → Outcome (Unit {0}) × World
  with_client o (ok mc, w) = reconcile_with o mc w
  with_client o (err e, w) = set_status o (some e) w
  with_client o (Outcome.panic, w) = (Outcome.panic, w)

  abbrev pub with_object : Outcome Object × World → Outcome (Unit {0}) × World
  with_object (ok o, w) = with_client o (K.make_client o w)
  with_object (err e, w) = (if is_not_found e then ok tt else err e, w)
  with_object (Outcome.panic, w) = (Outcome.panic, w)

  unfoldable pub reconcile : NamespacedName → Exec World (Unit {0})
  unfolding reconcile_with
  reconcile req w = with_object (K.get req.namespace req.name w)
