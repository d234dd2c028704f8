-- ===== src/Controller/Status/Sent.antt =====
-- The status step, on an API server with no other clients.
use kyuubi_operator.K8s.Store.{Apart, Keeps, IsStore, Shows, SameUid, restated}
use kyuubi_operator.Base.Dict.{Dict}
use kyuubi_operator.Base.{
  ◌⊎◌, ℕ, ◌≡◌, refl, ◌∙◌, inl, inr, true, none, some, List, arith, Bool-cases, Option-cases,
}
use kyuubi_operator.Api.{KyuubiCluster, KyuubiClusterStatus, ExposedInfo}
use kyuubi_operator.Controller.Status.Published.{
  status_current, Exposes, sent-Exposes, current-Exposes,
}
use kyuubi_operator.Controller.Status.{update_kyuubi_cluster_status, exposed_infos, is_outdated}
use kyuubi_operator.K8s.Objects.{Service, NamespacedName}
use kyuubi_operator.K8s.Client.{Kind, object_key, Client}
use kyuubi_operator.K8s.Exec.{ok}
use kyuubi_operator.K8s.Steady.{KeepsTime}

-- The infos that the method sends, with the times that it reads.
abbrev pub sent_status : KyuubiCluster → Service → ℕ → ℕ → KyuubiCluster
sent_status kyuubi service created updated = record kyuubi {
  status = record {
    exposed_infos = some (exposed_infos kyuubi service);
    creation_time = created;
    update_time = updated;
  };
}

module _ (C : Client) (S : IsStore C) where
  -- The status step returns and touches no place but that of the cluster, of which it changes the
  -- status alone: afterwards the status exposes the ports of the service, or it is the one that was
  -- there, if the caller's copy of the cluster was not outdated. If that copy has infos, what is written
  -- has its creation time.
  pub record StatusKeeps (kyuubi old : KyuubiCluster) (service : Service) (w : C.World)
      : Type 0 where
    pub after : C.World
    pub returns : update_kyuubi_cluster_status C kyuubi service w ≡ (ok tt, after)
    pub others : Dict
    pub uid : SameUid others old
    pub status : KyuubiClusterStatus
    pub shown :
        Shows C Kind.kyuubi_cluster
          (object_key Kind.kyuubi_cluster kyuubi)
          after
          (restated old others status)
    pub published :
        Exposes status.exposed_infos (exposed_infos kyuubi service)
        ⊎ ((status ≡ old.status)
            × Exposes kyuubi.status.exposed_infos (exposed_infos kyuubi service))
    pub timed : KeepsTime kyuubi.status status ⊎ (status ≡ old.status)
    pub apart :
        (j : Kind) (key : NamespacedName)
        → Apart Kind.kyuubi_cluster (object_key Kind.kyuubi_cluster kyuubi) j key
        → Keeps C j key w after

  module _ (kyuubi : KyuubiCluster) (service : Service) where
    status_first :
        (w w1 w2 : C.World) (created updated : ℕ)
        → is_outdated (exposed_infos kyuubi service) kyuubi.status.exposed_infos ≡ true
        → kyuubi.status.exposed_infos ≡ none
        → C.now w ≡ (created, w1)
        → C.now w1 ≡ (updated, w2)
        → (C.update_status (sent_status kyuubi service created updated) w2).0 ≡ none
        → update_kyuubi_cluster_status C kyuubi service w
          ≡ (ok tt, (C.update_status (sent_status kyuubi service created updated) w2).1)
    unfolding update_kyuubi_cluster_status
    status_first w w1 w2 created updated e n p q u = ground arith

    status_again :
        (w w1 : C.World) (updated : ℕ) (old : List ExposedInfo)
        → is_outdated (exposed_infos kyuubi service) kyuubi.status.exposed_infos ≡ true
        → kyuubi.status.exposed_infos ≡ some old
        → C.now w ≡ (updated, w1)
        → (C.update_status (sent_status kyuubi service kyuubi.status.creation_time updated) w1).0
          ≡ none
        → update_kyuubi_cluster_status C kyuubi service w ≡ (
          ok tt,
          (C.update_status (sent_status kyuubi service kyuubi.status.creation_time updated) w1).1,
        )
    unfolding update_kyuubi_cluster_status
    status_again w w1 updated old e n p u = ground arith

  status_first_keeps :
      (kyuubi : KyuubiCluster) (service : Service) (w : C.World)
      → is_outdated (exposed_infos kyuubi service) kyuubi.status.exposed_infos ≡ true
      → kyuubi.status.exposed_infos ≡ none
      → (old : KyuubiCluster)
      → Shows C Kind.kyuubi_cluster (object_key Kind.kyuubi_cluster kyuubi) w old
      → StatusKeeps kyuubi old service w
  status_first_keeps kyuubi service w e n old s =
      let w1 = (C.now w).1 in
      let w2 = (C.now w1).1 in
      let key = object_key Kind.kyuubi_cluster kyuubi in
      let sent = sent_status kyuubi service (C.now w).0 (C.now w1).0 in
      let known : Shows C Kind.kyuubi_cluster key w2 old =
        S.now_keeps w1 Kind.kyuubi_cluster key ∙ S.now_keeps w Kind.kyuubi_cluster key ∙ s in
      record {
        after = (C.update_status sent w2).1;
        returns =
            status_first kyuubi service w w1 w2 (C.now w).0 (C.now w1).0 e n refl refl
              (S.status_found sent old w2 known).0;
        others = (S.status_found sent old w2 known).1.0;
        uid = (S.status_found sent old w2 known).1.1;
        status = sent.status;
        shown = (S.status_found sent old w2 known).1.2;
        published = inl (sent-Exposes _ (exposed_infos kyuubi service) refl);
        timed = inl (inl n);
        apart = λ j key' d.
            S.status_apart sent w2 j key' d ∙ S.now_keeps w1 j key' ∙ S.now_keeps w j key';
      }

  status_again_keeps :
      (kyuubi : KyuubiCluster) (service : Service) (w : C.World) (published : List ExposedInfo)
      → is_outdated (exposed_infos kyuubi service) kyuubi.status.exposed_infos ≡ true
      → kyuubi.status.exposed_infos ≡ some published
      → (old : KyuubiCluster)
      → Shows C Kind.kyuubi_cluster (object_key Kind.kyuubi_cluster kyuubi) w old
      → StatusKeeps kyuubi old service w
  status_again_keeps kyuubi service w published e n old s =
      let w1 = (C.now w).1 in
      let key = object_key Kind.kyuubi_cluster kyuubi in
      let sent = sent_status kyuubi service kyuubi.status.creation_time (C.now w).0 in
      let known : Shows C Kind.kyuubi_cluster key w1 old =
        S.now_keeps w Kind.kyuubi_cluster key ∙ s in
      record {
        after = (C.update_status sent w1).1;
        returns =
            status_again kyuubi service w w1 (C.now w).0 published e n refl
              (S.status_found sent old w1 known).0;
        others = (S.status_found sent old w1 known).1.0;
        uid = (S.status_found sent old w1 known).1.1;
        status = sent.status;
        shown = (S.status_found sent old w1 known).1.2;
        published = inl (sent-Exposes _ (exposed_infos kyuubi service) refl);
        timed = inl (inr ((exposed_infos kyuubi service, refl), refl));
        apart = λ j key' d. S.status_apart sent w1 j key' d ∙ S.now_keeps w j key';
      }

  -- If the cluster is there, then the step for the status returns without an error and touches no
  -- object but the cluster, of which it changes the status alone (and what the API server keeps in the
  -- meta data). Afterwards the status exposes the ports of the service, or it is the one that was
  -- there, if the cluster that the method was given has a status that exposes them. If the cluster that
  -- the method was given has infos, a status that it writes has the creation time of that cluster.
  pub update_kyuubi_cluster_status-StatusKeeps :
      (kyuubi old : KyuubiCluster) (service : Service) (w : C.World)
      → Shows C Kind.kyuubi_cluster (object_key Kind.kyuubi_cluster kyuubi) w old
      → StatusKeeps kyuubi old service w
  update_kyuubi_cluster_status-StatusKeeps kyuubi old service w s =
      elim (Bool-cases (is_outdated (exposed_infos kyuubi service) kyuubi.status.exposed_infos)) [
        | inl e ↦ elim (Option-cases kyuubi.status.exposed_infos) [
          | inl n ↦ status_first_keeps kyuubi service w e n old s
          | inr (published, n) ↦ status_again_keeps kyuubi service w published e n old s
        ]
        | inr e ↦ record {
          after = w;
          returns = status_current C kyuubi service w e;
          others = old.meta.others;
          uid = refl;
          status = old.status;
          shown = s;
          published = inr (refl, current-Exposes (exposed_infos kyuubi service) _ e);
          timed = inr refl;
          apart = λ j key d. refl;
        }
      ]
