-- ===== src/Tests/Clients.antt =====
-- The clients on clusters that are kept in a list.
use kyuubi_operator.Base.{
  ◌+◌, ◌*◌, ◌≤◌, ◌<◌, String, ◌≡◌, refl, ◌↔◌, Bool, true, false, not, Option, none, some, List, [],
  ◌∷◌, map, arith, ◌==◌, if◌then◌else◌,
}
use mathlib.Core.Option
use kyuubi_operator.Base.Dict.{Dict, has_key}
use kyuubi_operator.K8s.Client.{Error, not_found, other}
use kyuubi_operator.Api.{KyuubiCluster}
use kyuubi_operator.Clientset.Machinery.{Machinery, ListOptions, zero_list, returns}
use kyuubi_operator.Clientset.Rest.{Rest}
use kyuubi_operator.Clientset.Tracking.{
  Object, cluster, cluster_list, Action, Fake, get_action, list_action, watch_action, create_action,
  update_action, update_subresource_action, delete_action_with_options, delete_collection_action,
}
use kyuubi_operator.Clientset.Typed.{timeout_of, time_second, word_size}
use kyuubi_operator.Clientset.Typed.Timeouts.{timeout_of_iff, half, most_seconds}
use kyuubi_operator.Clientset.Fake
use kyuubi_operator.Clientset.Fake.{
  FakeKyuubiClusters, kyuubiclusters_resource, kyuubiclusters_kind, label_of, list_loop, or_else,
}
use kyuubi_operator.Clientset.Fake.Listed.{admitted, selects, list-eq-admitted}
use kyuubi_operator.Tests.{cluster_with, all_refs}

abbrev pub machinery : Machinery
machinery = record {
  Context = Unit {0};
  GetOptions = Unit {0};
  CreateOptions = Unit {0};
  UpdateOptions = Unit {0};
  DeleteOptions = Unit {0};
  PatchOptions = Unit {0};
  PatchType = String;
  Selection = Option String;
  Watch = String;
  ListMeta = String;
  no_list_meta = "";
}

abbrev pub Kept : Type 0
Kept = List KyuubiCluster

abbrev has_name : String → KyuubiCluster → Bool
has_name n c = c.meta.name == n

abbrev found_in : String → Kept → Option KyuubiCluster
found_in n [] = none
found_in n (c ∷ cs) = if has_name n c then some c else found_in n cs

abbrev absent : Option KyuubiCluster → Option Error
absent none = some not_found
absent (some c) = none

abbrev replaced : KyuubiCluster → Kept → Kept
replaced k cs = map (λ c. if has_name k.meta.name c then k else c) cs

-- The answer to an action on one object.
abbrev single : Action machinery → Kept → (Option KyuubiCluster × Option Error) × Kept
single (get_action r ns n) w = ((found_in n w, absent (found_in n w)), w)
single (create_action r ns c) w = ((some c, none), c ∷ w)
single (update_action r ns c) w = ((some c, none), replaced c w)
single (update_subresource_action r s ns c) w = ((some c, none), replaced c w)
single _ w = ((none, some (other "patch")), w)

abbrev kept_in : Option Error → Kept → (Option (Object machinery) × Option Error) × Kept
kept_in e w = ((none, e), w)

abbrev invoked : Action machinery → Kept → (Option (Object machinery) × Option Error) × Kept
invoked (list_action r k ns o) w =
    ((some (cluster_list (record { list_meta = "1"; items = w })), none), w)
invoked (watch_action r ns o) w = kept_in none w
invoked (delete_action_with_options r ns n o) w =
    kept_in none (admitted (λ c. not (has_name n c)) w)
invoked (delete_collection_action r ns o) w = kept_in none []
invoked a w = ((Option.map cluster (single a w).0.0, (single a w).0.1), (single a w).1)

abbrev matched : Option String → Dict → Bool
matched none d = true
matched (some k) d = has_key k d

abbrev tracker : Fake machinery Kept
tracker = record {
  Selector = Option String;
  invokes = λ a o w. invoked a w;
  invokes_watch = λ a w. ((some "watch", none), w);
  extract_label = λ o. some o.selection;
  everything = none;
  matches = matched;
}

-- A server that answers without an error.
abbrev pub server : Rest machinery Kept
server = record {
  into_cluster = λ ctx r z w. ((z, none), w);
  into_list = λ ctx r z w. ((zero_list machinery, none), w);
  do_error = λ ctx r w. (none, w);
  watch = λ ctx r w. ((some "watch", none), w);
}

abbrev every : ListOptions machinery
every = record { timeout_seconds = some 60; watch = false; selection = none }

timeout_of_iff_example :
    (((timeout_of (some 60) < half) × (timeout_of (some 60) ≡ 60 * time_second))
      ↔ (60 ≤ most_seconds))
    × (((half ≤ timeout_of (some 18446744073709551556))
          × (timeout_of (some 18446744073709551556) + 60 * time_second ≡ word_size))
        ↔ (60 ≤ most_seconds))
timeout_of_iff_example =
    timeout_of_iff 60 18446744073709551556 (omega arith) (omega arith) (omega arith)

abbrev fake_clusters : FakeKyuubiClusters machinery Kept
fake_clusters = record { fake = tracker; ns = "default" }

abbrev labelled : ListOptions machinery
labelled = record every { selection = some "app" }

list-eq-admitted_example : Fake.list fake_clusters tt labelled (cluster_with all_refs ∷ []) ≡ (
  returns (
    some (record {
      list_meta = "1";
      items = admitted (selects tracker labelled) (cluster_with all_refs ∷ []);
    }),
    none,
  ),
  cluster_with all_refs ∷ [],
)
list-eq-admitted_example =
    list-eq-admitted fake_clusters tt labelled (cluster_with all_refs ∷ [])
      (cluster_with all_refs ∷ []) (record { list_meta = "1"; items = cluster_with all_refs ∷ [] })
      none refl
