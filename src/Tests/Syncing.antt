-- ===== src/Tests/Syncing.antt =====
-- The theorems on the synchronisation, at a ruler with two namespaces.
use mimir_operator.Base.{some, ◌≡◌, ◌↔◌, refl, String, string_eq, true, false, [], ◌∷◌}
use mimir_operator.Base.Dict.{Dict, lookup, keys}
use mimir_operator.Exec.{ok, for_each}
use mimir_operator.Domain.{MimirRules}
use mimir_operator.Client.{build_request, credentials, check_response, do_request}
use mimir_operator.Ruler.{
  RuleGroup, sort_strings, create_rule_group_str, list_rules_element, delete_namespace,
}
use mimir_operator.Sync.{
  encode, wanted_rules, unpack_rules, sync_rules_to_ruler, delete_rules_for_tenant,
}
use mimir_operator.Sync.Visits.{VisitsAll}
use mimir_operator.Sync.Ruler.{Synced, sync_rules_to_ruler-Synced, delete_rules_for_tenant-empty}
use mimir_operator.Sync.Unpacked.{latest, unpack_rules-latest}
use mimir_operator.Tests.Examples.{loki, tempo, select, tenant}
use mimir_operator.Selection.{find_prometheus_rules, remove_duplicate}
use mimir_operator.Overrides.{apply_overrides}
use mimir_operator.ExternalLabels.{apply_external_labels}
use mimir_operator.Tests.TwoNamespaces.{
  Flags, up, cluster, client, listing, print, read, print_group, send,
}
use mimir_operator.Tests.RulerLaws.{server}

abbrev visits : VisitsAll cluster
visits = record { once = λ w m d. d; same = λ w m key d. refl }

abbrev before : MimirRules
before = tenant (select "tempo" ∷ []) ("old" ∷ [])

abbrev after : MimirRules
after = tenant (select "tempo" ∷ []) ("tempo_alerts" ∷ [])

-- The new namespace is created and the old one deleted.
synchronised :
    sync_rules_to_ruler cluster client before.spec (before, (true, false))
    ≡ (ok tt, (after, (false, true)))
unfolding sync_rules_to_ruler send print print_group read listing find_prometheus_rules
    apply_overrides unpack_rules apply_external_labels create_rule_group_str for_each do_request
    build_request credentials check_response list_rules_element remove_duplicate delete_namespace
synchronised = refl

sync_rules_to_ruler-Synced_example :
    (unpacked : Dict String) × (w : Flags) × (wanted_rules cluster before.spec (true, false)
      ≡ (ok unpacked, w))
    × ((other : String) (x : RuleGroup)
        → server.Holds (false, true) other x
          ↔ Synced cluster (lookup other unpacked) (server.Holds w other) x)
    × (after.status.ref_rules ≡ sort_strings (keys unpacked))
sync_rules_to_ruler-Synced_example =
    sync_rules_to_ruler-Synced cluster client server before.spec before after (true, false)
      (false, true) visits synchronised

deleted_all : delete_rules_for_tenant cluster before client (true, true) ≡ (ok tt, (false, false))
unfolding delete_rules_for_tenant send print print_group read listing list_rules_element do_request
    build_request credentials check_response for_each delete_namespace
deleted_all = refl

delete_rules_for_tenant-empty_example : ¬ server.Holds (false, false) "old" up
delete_rules_for_tenant-empty_example =
    delete_rules_for_tenant-empty cluster client server before (true, true) (false, false)
      deleted_all "old" up

unpack_rules-latest_example :
    (results : Dict String) × (unpack_rules (encode cluster) (some (loki ∷ tempo ∷ []))
      ≡ ok results)
    × ((key : String) → lookup key results ≡ latest (encode cluster) key (loki ∷ tempo ∷ []))
unpack_rules-latest_example =
    unpack_rules-latest (encode cluster) (loki ∷ tempo ∷ [])
      (("alerts", refl), (("alerts", refl), tt))
