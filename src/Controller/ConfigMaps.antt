-- ===== src/Controller/ConfigMaps.antt =====
-- The two config maps (createOrUpdateClusterRefsConfigmap to createOrUpdateKyuubiConfigmap).
pub mod Served
pub mod Await
pub mod Texts
use kyuubi_operator.Base.{ℕ, zero, suc, true, false, Option, some, [], ◌∷◌, inl, inr}
use kyuubi_operator.Base.Dict.{Order, entries}
use kyuubi_operator.K8s.Objects.{NamespacedName, ConfigMap}
use kyuubi_operator.K8s.Client.{
  Kind, object_key, Client, Library, Error, not_found, other, found, failed,
}
use kyuubi_operator.K8s.Exec.{Exec, pure, raise, stall, get, create, update, sleep, ◌>>=◌, ◌>>◌}
use kyuubi_operator.Api.{KyuubiCluster}
use kyuubi_operator.Controller.Names.{default_kyuubi_conf_file}
use kyuubi_operator.Controller.Utils.{compare_conf, map2_string}
use kyuubi_operator.Controller.Rbac.{owned, cluster_meta}
use kyuubi_operator.Controller.ClusterRefs.{desired_cluster_refs_config_map}

-- The orders of the loops over maps that one call of `createOrUpdateClusters` runs.
pub record Orders : Type 0 where
  pub kyuubi_conf : Order
  pub kyuubi_compare : Order
  pub refs : ℕ → Order
  pub refs_compare : Order

module _ (C : Client) where
  -- The loop that polls for the new config map, for at most the given number of rounds.
  unfoldable pub await_config_map : ℕ → NamespacedName → Exec C.World (Unit {0})
  await_config_map zero key = stall
  await_config_map (suc rounds) key = do
    reply ← get C Kind.config_map key
    elim reply [
      | found existing ↦ pure tt
      | failed not_found ↦ (do sleep C 100; await_config_map rounds key)
      | failed (other e) ↦ raise (other e)
    ]

  -- What both methods do with the config map that they want.
  unfoldable pub apply_config_map : Order → ℕ → ConfigMap → Exec C.World (Unit {0})
  apply_config_map range rounds desired = do
    reply ← get C Kind.config_map (object_key Kind.config_map desired)
    elim reply [
      | found existing ↦
          elim (compare_conf range (entries desired.contents) (entries existing.contents)) [
            | true ↦ pure tt
            | false ↦ update C Kind.config_map (record existing { contents = desired.contents })
          ]
      | failed not_found ↦ (do
        create C Kind.config_map desired
        await_config_map rounds (object_key Kind.config_map desired))
      | failed (other e) ↦ raise (other e)
    ]

module _ (L : Library) where
  unfoldable pub construct_kyuubi_config_map : Order → KyuubiCluster → ConfigMap × Option Error
  construct_kyuubi_config_map range kyuubi =
      let (meta, e) = owned L kyuubi (cluster_meta L kyuubi) in
      (
        record {
          meta = meta;
          contents = some (
              (default_kyuubi_conf_file, map2_string range (entries kyuubi.spec.kyuubi_conf)) ∷ []);
        },
        e,
      )

module _ (L : Library) (C : Client) (orders : Orders) (rounds : ℕ) where
  unfoldable pub create_or_update_cluster_refs_configmap : KyuubiCluster → Exec C.World (Unit {0})
  create_or_update_cluster_refs_configmap kyuubi =
      elim (desired_cluster_refs_config_map L orders.refs kyuubi) [
        | inl e ↦ raise e
        | inr desired ↦ apply_config_map C orders.refs_compare rounds desired
      ]

  unfoldable pub create_or_update_kyuubi_configmap : KyuubiCluster → Exec C.World (Unit {0})
  create_or_update_kyuubi_configmap kyuubi =
      apply_config_map C orders.kyuubi_compare rounds
        (construct_kyuubi_config_map L orders.kyuubi_conf kyuubi).0
