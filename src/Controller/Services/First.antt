-- ===== src/Controller/Services/First.antt =====
-- What is published of the service that is there, or of the one that has just been created.
use kyuubi_operator.Base.{◌≡◌, refl, ap, ◌∙◌, ◌⊎◌, inl, inr, List, [], length}
use kyuubi_operator.Base.Dict.{Dict}
use kyuubi_operator.K8s.Objects.{Service}
use kyuubi_operator.K8s.Client.{Kind, object_key, Client, Library, failed, not_found}
use kyuubi_operator.K8s.Exec.{Exec, ok, ◌>>=◌, continue}
use kyuubi_operator.K8s.Store.{IsStore, Shows, SameUid, restated}
use kyuubi_operator.Api.{KyuubiCluster, KyuubiClusterStatus, ExposedInfo}
use kyuubi_operator.Controller.Services.{
  construct_desired_service, create_or_update_service, empty_service,
}
use kyuubi_operator.Controller.Status.{update_kyuubi_cluster_status, exposed_infos, info_loop}
use kyuubi_operator.Controller.Status.Published.{Exposes}
use kyuubi_operator.Controller.Status.Sent.{update_kyuubi_cluster_status-StatusKeeps}
use kyuubi_operator.Controller.Reconcile.Steps.{service_missing, service_found}

module _ (C : Client) (kyuubi : KyuubiCluster) where
  -- The cluster is as it was but for its status, which has the given infos, and what the API server keeps
  -- in its meta data; and there is the given service.
  pub record IsPublished (infos : List ExposedInfo) (service : Service) (w : C.World) : Type 0 where
    pub others : Dict
    pub uid : SameUid others kyuubi
    pub status : KyuubiClusterStatus
    pub shown :
        Shows C Kind.kyuubi_cluster
          (object_key Kind.kyuubi_cluster kyuubi)
          w
          (restated kyuubi others status)
    pub exposes : Exposes status.exposed_infos infos
    pub service_shown : Shows C Kind.service (object_key Kind.service service) w service

  -- Some steps return no error, and leave a world in which the infos are published.
  abbrev pub Publishes : Exec C.World (Unit {0}) → List ExposedInfo → Service → C.World → Type 0
  Publishes m infos service w = ((m w).0 ≡ ok tt) × IsPublished infos service (m w).1

-- The two last steps of a pass.
abbrev pub service_and_status : Library → (C : Client) → KyuubiCluster → Exec C.World (Unit {0})
service_and_status L C kyuubi =
    create_or_update_service L C kyuubi >>= update_kyuubi_cluster_status C kyuubi

module _ (L : Library) (C : Client) (S : IsStore C) (kyuubi : KyuubiCluster) where
  pub status-Publishes :
      (returned there : Service) (w w1 : C.World)
      → create_or_update_service L C kyuubi w ≡ (ok returned, w1)
      → Shows C Kind.kyuubi_cluster (object_key Kind.kyuubi_cluster kyuubi) w1 kyuubi
      → Shows C Kind.service (object_key Kind.service there) w1 there
      → Publishes C kyuubi (service_and_status L C kyuubi) (exposed_infos kyuubi returned) there w
  status-Publishes returned there w w1 e s t =
      let k = update_kyuubi_cluster_status-StatusKeeps C S kyuubi kyuubi returned w1 s in
      let same : service_and_status L C kyuubi w ≡ (ok tt, k.after) =
        ap (λ r. continue r.0 (update_kyuubi_cluster_status C kyuubi) r.1) e ∙ k.returns in
      (
        ap (λ r. r.0) same,
        record {
          others = k.others;
          uid = k.uid;
          status = k.status;
          shown = rw same k.shown;
          exposes = elim k.published [ inl x ↦ x | inr (q, x) ↦ rw q x ];
          service_shown =
              rw same (k.apart Kind.service (object_key Kind.service there) (inl (λ e. cc)) ∙ t);
        },
      )

  -- On an API server with no other clients and no failures, where the cluster is there: after
  -- createOrUpdateService and the status step, which return no error, the status of the cluster exposes
  -- the ports of the service that was there before; or, where there was none, the service has been
  -- created with its two ports, but the status exposes an empty list.
  pub create_or_update_service-Publishes :
      (w : C.World)
      → Shows C Kind.kyuubi_cluster (object_key Kind.kyuubi_cluster kyuubi) w kyuubi
      → let desired = (construct_desired_service L kyuubi).0 in
        let key = object_key Kind.service desired in
        (((C.get Kind.service key w).0 ≡ failed not_found)
          × Publishes C kyuubi (service_and_status L C kyuubi) [] desired w
          × (length desired.spec.ports ≡ 2))
        ⊎ ((service : Service) × Shows C Kind.service key w service
            × Publishes C kyuubi
                (service_and_status L C kyuubi)
                (exposed_infos kyuubi service)
                service
                w)
  unfolding create_or_update_service info_loop construct_desired_service
  create_or_update_service-Publishes w s =
      let desired = (construct_desired_service L kyuubi).0 in
      let key = object_key Kind.service desired in
      elim (S.answers Kind.service key w) [
        | inl e ↦ inl (
          e,
          status-Publishes empty_service desired w (C.create Kind.service desired w).1
              (service_missing C S desired w e)
              (S.create_apart Kind.service desired w Kind.kyuubi_cluster
                  (object_key Kind.kyuubi_cluster kyuubi) (inl (λ e. cc))
                ∙ s)
              (S.create_missing Kind.service desired w e).1,
          refl,
        )
        | inr (service, t) ↦ inr (
          service,
          t,
          status-Publishes service service w w (service_found C S desired service w t) s
              (rw (S.keyed Kind.service key w service t) t),
        )
      ]
