-- ===== src/Controller/Reconcile/Blamed.antt =====
-- Where the error of a pass comes from, whatever other clients do meanwhile.
use kyuubi_operator.Base.{
  ap₂, ℕ, zero, suc, String, ◌≡◌, refl, ap, ◌∙◌, inl, inr, Option, none, some, arith, Bool-cases,
  Option-cases,
}
use kyuubi_operator.K8s.Objects.{NamespacedName, ConfigMap, StatefulSet, Service}
use kyuubi_operator.K8s.Client.{
  Kind, Obj, object_key, Client, Error, failed, other, is_found, is_missing, is_other, Reply-cases,
}
use kyuubi_operator.K8s.Exec.{Exec, Outcome, ok, err, waiting, panicked, returned, ◌>>=◌}
use kyuubi_operator.Api.{KyuubiCluster}
use kyuubi_operator.Controller.Status.{update_kyuubi_cluster_status, is_outdated, exposed_infos}
use kyuubi_operator.Controller.Status.Sent.{sent_status}
use kyuubi_operator.K8s.Equality.{spec_equal}
use kyuubi_operator.Controller.Utils.{compare_conf}
use kyuubi_operator.Base.Dict.{entries, Order}
use kyuubi_operator.Controller.Workload.{apply_workload}
use kyuubi_operator.Controller.ConfigMaps.{await_config_map, apply_config_map}
use kyuubi_operator.Controller.Services.{apply_service}
use kyuubi_operator.Controller.Rbac.{ensure}
use kyuubi_operator.Controller.Reconcile.Runs.{IsClosed, Stays}

module _ (C : Client) (IsReached : C.World → Type 0) where
  -- A call in a reached world, which it leaves for the world `w'`, fails with an error: a Get with
  -- another one than that the object is not there, or a write.
  pub data IsFault (e : Error) (w' : C.World) : Type 0 where
    by_get :
        (k : Kind) (key : NamespacedName) (w : C.World) (x : String)
        → IsReached w
        → e ≡ other x
        → C.get k key w ≡ (failed (other x), w')
        → IsFault e w'
    by_create :
        (k : Kind) (o : Obj k) (w : C.World)
        → IsReached w
        → C.create k o w ≡ (some e, w')
        → IsFault e w'
    by_update :
        (k : Kind) (o : Obj k) (w : C.World)
        → IsReached w
        → C.update k o w ≡ (some e, w')
        → IsFault e w'
    by_status :
        (o : KyuubiCluster) (w : C.World)
        → IsReached w
        → C.update_status o w ≡ (some e, w')
        → IsFault e w'

  -- All errors of a method that starts in a reached world have a property, with the world in which it
  -- ends.
  abbrev pub Blames : {A : Type 0} → (Error → C.World → Type 0) → Exec C.World A → Type 0
  Blames P m = (w : C.World) (e : Error) → IsReached w → (m w).0 ≡ err e → P e (m w).1

  pub >>=-Blames :
      {A B : Type 0} (P : Error → C.World → Type 0) (m : Exec C.World A) (f : A → Exec C.World B)
      → Stays C IsReached m
      → Blames P m
      → ((a : A) → Blames P (f a))
      → Blames P (m >>= f)
  >>=-Blames {A} P m f stays p q w e r0 h = ends (m w).0 refl h
    where
      ends : (r : Outcome A) → (m w).0 ≡ r → ((m >>= f) w).0 ≡ err e → P e ((m >>= f) w).1
      ends (ok a) s t =
          let r : ((m >>= f) w).1 ≡ (f a (m w).1).1 = ground (arith, s) in
          rw r (q a (m w).1 e (stays w r0) (ground (arith, s, t)))
      ends (err x) s t =
          let r : ((m >>= f) w).1 ≡ (m w).1 = ground (arith, s) in
          rw r (p w e r0 (ground (arith, s, t)))
      ends waiting s t = absurd (ground (arith, s, t))
      ends panicked s t = absurd (ground (arith, s, t))

  returned_err : (x : Option Error) (e : Error) → returned x ≡ err e → x ≡ some e
  returned_err none e h = absurd (ground arith)
  returned_err (some y) e h = ground arith

  module _ (K : IsClosed C IsReached) where
    pub ensure-Blames : (k : Kind) (desired : Obj k) → Blames IsFault (ensure C k desired)
    unfolding ensure
    ensure-Blames k desired w e r0 h =
        let key = object_key k desired in
        let w1 = (C.get k key w).1 in
        elim (Reply-cases (C.get k key w).0) [
          | is_found a q ↦ absurd (ground (arith, q, h))
          | is_missing q ↦
              let r : returned (C.create k desired w1).0 ≡ err e = ground (arith, q, h) in
              by_create k desired w1 (K.by_gets k key w r0)
                (ap₂ (λ a b. (a, b)) (returned_err _ e r) (ground (arith, q)))
          | is_other x q ↦
              by_get k key w x r0 (ground (arith, q, h)) (ap₂ (λ a b. (a, b)) q (ground (arith, q)))
        ]

    pub await-Blames :
        (rounds : ℕ) (key : NamespacedName) → Blames IsFault (await_config_map C rounds key)
    unfolding await_config_map
    await-Blames zero key w e r0 h = absurd (ground (arith, h))
    await-Blames (suc rounds) key w e r0 h = elim (Reply-cases (C.get Kind.config_map key w).0) [
      | is_found a q ↦ absurd (ground (arith, q, h))
      | is_missing q ↦
          let w1 = C.sleep 100 (C.get Kind.config_map key w).1 in
          let r : (await_config_map C (suc rounds) key w).1 ≡ (await_config_map C rounds key w1).1 =
            ground (arith, q) in
          rw r (
            await-Blames rounds key w1 e (K.by_sleep 100 _ (K.by_gets Kind.config_map key w r0))
              (ground (arith, q, h)))
      | is_other x q ↦
          by_get Kind.config_map key w x r0 (ground (arith, q, h))
            (ap₂ (λ a b. (a, b)) q (ground (arith, q)))
    ]

    pub apply_config_map-Blames :
        (range : Order) (rounds : ℕ) (desired : ConfigMap)
        → Blames IsFault (apply_config_map C range rounds desired)
    unfolding apply_config_map
    apply_config_map-Blames range rounds desired w e r0 h =
        let key = object_key Kind.config_map desired in
        let w1 = (C.get Kind.config_map key w).1 in
        let w2 = (C.create Kind.config_map desired w1).1 in
        elim (Reply-cases (C.get Kind.config_map key w).0) [
          | is_found old q ↦
              elim (Bool-cases
                (compare_conf range (entries desired.contents) (entries old.contents))) [
                  | inl s ↦ absurd (ground (arith, q, s, h))
                  | inr s ↦
                      let new = record old { contents = desired.contents } in
                      let r : returned (C.update Kind.config_map new w1).0 ≡ err e =
                        ground (arith, q, s, h) in
                      by_update Kind.config_map new w1 (K.by_gets Kind.config_map key w r0)
                        (ap₂ (λ a b. (a, b)) (returned_err _ e r) (ground (arith, q, s)))
                ]
          | is_missing q ↦ elim (Option-cases (C.create Kind.config_map desired w1).0) [
            | inl s ↦
                let r : (apply_config_map C range rounds desired w).1
                    ≡ (await_config_map C rounds key w2).1 =
                  ground (arith, q, s) in
                rw r (
                  await-Blames rounds key w2 e
                    (K.by_creates Kind.config_map desired w1 (K.by_gets Kind.config_map key w r0))
                    (ground (arith, q, s, h)))
            | inr (x, s) ↦
                let r : x ≡ e = ground (arith, q, s, h) in
                by_create Kind.config_map desired w1 (K.by_gets Kind.config_map key w r0)
                  (ap₂ (λ a b. (a, b)) (s ∙ ap some r) (ground (arith, q, s)))
          ]
          | is_other x q ↦
              by_get Kind.config_map key w x r0 (ground (arith, q, h))
                (ap₂ (λ a b. (a, b)) q (ground (arith, q)))
        ]

    pub apply_workload-Blames : (desired : StatefulSet) → Blames IsFault (apply_workload C desired)
    unfolding apply_workload
    apply_workload-Blames desired w e r0 h =
        let key = object_key Kind.stateful_set desired in
        let w1 = (C.get Kind.stateful_set key w).1 in
        elim (Reply-cases (C.get Kind.stateful_set key w).0) [
          | is_found old q ↦ elim (Bool-cases (spec_equal old.spec desired.spec)) [
            | inl s ↦ absurd (ground (arith, q, s, h))
            | inr s ↦
                let r : returned (C.update Kind.stateful_set desired w1).0 ≡ err e =
                  ground (arith, q, s, h) in
                by_update Kind.stateful_set desired w1 (K.by_gets Kind.stateful_set key w r0)
                  (ap₂ (λ a b. (a, b)) (returned_err _ e r) (ground (arith, q, s)))
          ]
          | is_missing q ↦
              let r : returned (C.create Kind.stateful_set desired w1).0 ≡ err e =
                ground (arith, q, h) in
              by_create Kind.stateful_set desired w1 (K.by_gets Kind.stateful_set key w r0)
                (ap₂ (λ a b. (a, b)) (returned_err _ e r) (ground (arith, q)))
          | is_other x q ↦
              by_get Kind.stateful_set key w x r0 (ground (arith, q, h))
                (ap₂ (λ a b. (a, b)) q (ground (arith, q)))
        ]

    pub apply_service-Blames : (desired : Service) → Blames IsFault (apply_service C desired)
    unfolding apply_service
    apply_service-Blames desired w e r0 h =
        let key = object_key Kind.service desired in
        let w1 = (C.get Kind.service key w).1 in
        elim (Reply-cases (C.get Kind.service key w).0) [
          | is_found old q ↦ absurd (ground (arith, q, h))
          | is_missing q ↦ elim (Option-cases (C.create Kind.service desired w1).0) [
            | inl s ↦ absurd (ground (arith, q, s, h))
            | inr (x, s) ↦
                let r : x ≡ e = ground (arith, q, s, h) in
                by_create Kind.service desired w1 (K.by_gets Kind.service key w r0)
                  (ap₂ (λ a b. (a, b)) (s ∙ ap some r) (ground (arith, q, s)))
          ]
          | is_other x q ↦
              by_get Kind.service key w x r0 (ground (arith, q, h))
                (ap₂ (λ a b. (a, b)) q (ground (arith, q)))
        ]

    pub update_kyuubi_cluster_status-Blames :
        (kyuubi : KyuubiCluster) (service : Service)
        → Blames IsFault (update_kyuubi_cluster_status C kyuubi service)
    unfolding update_kyuubi_cluster_status
    update_kyuubi_cluster_status-Blames kyuubi service w e r0 h =
        elim (Bool-cases (is_outdated (exposed_infos kyuubi service) kyuubi.status.exposed_infos)) [
          | inl o ↦ elim (Option-cases kyuubi.status.exposed_infos) [
            | inl n ↦
                let w1 = (C.now w).1 in
                let w2 = (C.now w1).1 in
                let sent = sent_status kyuubi service (C.now w).0 (C.now w1).0 in
                let r : returned (C.update_status sent w2).0 ≡ err e = ground (arith, o, n, h) in
                by_status sent w2 (K.by_clock w1 (K.by_clock w r0))
                  (ap₂ (λ a b. (a, b)) (returned_err _ e r) (ground (arith, o, n)))
            | inr (old, n) ↦
                let w1 = (C.now w).1 in
                let sent = sent_status kyuubi service kyuubi.status.creation_time (C.now w).0 in
                let r : returned (C.update_status sent w1).0 ≡ err e = ground (arith, o, n, h) in
                by_status sent w1 (K.by_clock w r0)
                  (ap₂ (λ a b. (a, b)) (returned_err _ e r) (ground (arith, o, n)))
          ]
          | inr o ↦ absurd (ground (arith, o, h))
        ]
