-- ===== src/Controller/Status.antt =====
-- The published status (updateKyuubiClusterStatus).
pub mod Published
pub mod Sent
use kyuubi_operator.Base.{
  ℕ, suc, ◌<>◌, Bool, true, false, not, ◌&&◌, ◌==◌, Option, none, some, List, [], ◌∷◌,
}
use kyuubi_operator.Base.Text.{itoa}
use kyuubi_operator.K8s.Objects.{Service, ServicePort}
use kyuubi_operator.K8s.Equality.{port_equal}
use kyuubi_operator.K8s.Client.{Client}
use kyuubi_operator.K8s.Exec.{Exec, pure, now, update_status, ◌>>=◌}
use kyuubi_operator.Api.{ExposedInfo, KyuubiClusterStatus, KyuubiCluster}

-- The loop over the ports of the service, from port `k` on.
unfoldable pub info_loop : KyuubiCluster → Service → ℕ → List ServicePort → List ExposedInfo
info_loop kyuubi service k [] = []
info_loop kyuubi service k (v ∷ ports) =
    record {
      name = kyuubi.meta.name <> ("-" <> itoa k);
      exposed_type = v.name;
      service_name = service.meta.name;
      service_port = v;
    }
    ∷ info_loop kyuubi service (suc k) ports

abbrev pub exposed_infos : KyuubiCluster → Service → List ExposedInfo
exposed_infos kyuubi service = info_loop kyuubi service 0 service.spec.ports

-- `reflect.DeepEqual` on exposed infos.
unfoldable pub infos_equal : List ExposedInfo → List ExposedInfo → Bool
unfolding port_equal
infos_equal [] [] = true
infos_equal [] (b ∷ bs) = false
infos_equal (a ∷ as') [] = false
infos_equal (a ∷ as') (b ∷ bs) =
    (a.name == b.name)
    && (a.exposed_type == b.exposed_type)
    && (a.service_name == b.service_name)
    && port_equal a.service_port b.service_port
    && infos_equal as' bs

-- The guard of the update.
unfoldable pub is_outdated : List ExposedInfo → Option (List ExposedInfo) → Bool
unfolding infos_equal
is_outdated infos none = true
is_outdated infos (some published) = not (infos_equal infos published)

module _ (C : Client) where
  -- The creation time to publish.
  abbrev creation_time : KyuubiClusterStatus → Exec C.World ℕ
  creation_time status = elim status.exposed_infos [
    | none ↦ now C
    | some _ ↦ pure status.creation_time
  ]

  unfoldable pub update_kyuubi_cluster_status : KyuubiCluster → Service → Exec C.World (Unit {0})
  update_kyuubi_cluster_status kyuubi service =
      elim (is_outdated (exposed_infos kyuubi service) kyuubi.status.exposed_infos) [
        | false ↦ pure tt
        | true ↦ (do
          created ← creation_time kyuubi.status
          updated ← now C
          update_status C (record kyuubi {
            status = record {
              exposed_infos = some (exposed_infos kyuubi service);
              creation_time = created;
              update_time = updated;
            };
          }))
      ]
