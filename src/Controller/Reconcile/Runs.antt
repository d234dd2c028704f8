-- ===== src/Controller/Reconcile/Runs.antt =====
-- The worlds that a method runs through.
use kyuubi_operator.Base.{ℕ, zero, suc, ◌≡◌, refl, inl, inr, arith, Bool-cases, Option-cases}
use kyuubi_operator.K8s.Objects.{NamespacedName, ConfigMap, StatefulSet, Service}
use kyuubi_operator.K8s.Client.{
  Kind, Obj, object_key, Client, is_found, is_missing, is_other, Reply-cases,
}
use kyuubi_operator.K8s.Exec.{Exec, Outcome, ok, err, waiting, panicked, ◌>>=◌}
use kyuubi_operator.Api.{KyuubiCluster}
use kyuubi_operator.K8s.Equality.{spec_equal}
use kyuubi_operator.Controller.Utils.{compare_conf}
use kyuubi_operator.Base.Dict.{entries, Order}
use kyuubi_operator.Controller.Workload.{apply_workload}
use kyuubi_operator.Controller.ConfigMaps.{await_config_map, apply_config_map}
use kyuubi_operator.Controller.Services.{apply_service}
use kyuubi_operator.Controller.Rbac.{ensure}

module _ (C : Client) (IsReached : C.World → Type 0) where
  -- Every call leads from reached worlds to reached ones.
  pub record IsClosed : Type 0 where
    pub by_gets :
        (k : Kind) (key : NamespacedName) (w : C.World) → IsReached w → IsReached (C.get k key w).1
    pub by_creates :
        (k : Kind) (o : Obj k) (w : C.World) → IsReached w → IsReached (C.create k o w).1
    pub by_updates :
        (k : Kind) (o : Obj k) (w : C.World) → IsReached w → IsReached (C.update k o w).1
    pub by_statuses :
        (o : KyuubiCluster) (w : C.World) → IsReached w → IsReached (C.update_status o w).1
    pub by_clock : (w : C.World) → IsReached w → IsReached (C.now w).1
    pub by_sleep : (ms : ℕ) (w : C.World) → IsReached w → IsReached (C.sleep ms w)

  -- A method leads from reached worlds to reached ones.
  abbrev pub Stays : {A : Type 0} → Exec C.World A → Type 0
  Stays m = (w : C.World) → IsReached w → IsReached (m w).1

  pub >>=-Stays :
      {A B : Type 0} (m : Exec C.World A) (f : A → Exec C.World B)
      → Stays m
      → ((a : A) → Stays (f a))
      → Stays (m >>= f)
  >>=-Stays {A} m f p q w r = ends (m w).0 refl
    where
      ends : (o : Outcome A) → (m w).0 ≡ o → IsReached ((m >>= f) w).1
      ends (ok a) s =
          let e : ((m >>= f) w).1 ≡ (f a (m w).1).1 = ground (arith, s) in
          rw e (q a (m w).1 (p w r))
      ends (err x) s = let e : ((m >>= f) w).1 ≡ (m w).1 = ground (arith, s) in rw e (p w r)
      ends waiting s = let e : ((m >>= f) w).1 ≡ (m w).1 = ground (arith, s) in rw e (p w r)
      ends panicked s = let e : ((m >>= f) w).1 ≡ (m w).1 = ground (arith, s) in rw e (p w r)

  module _ (K : IsClosed) where
    pub ensure-Stays : (k : Kind) (desired : Obj k) → Stays (ensure C k desired)
    unfolding ensure
    ensure-Stays k desired w r =
        let key = object_key k desired in
        let w1 = (C.get k key w).1 in
        let r1 = K.by_gets k key w r in
        elim (Reply-cases (C.get k key w).0) [
          | is_found a q ↦ let e : (ensure C k desired w).1 ≡ w1 = ground (arith, q) in rw e r1
          | is_missing q ↦
              let e : (ensure C k desired w).1 ≡ (C.create k desired w1).1 = ground (arith, q) in
              rw e (K.by_creates k desired w1 r1)
          | is_other x q ↦ let e : (ensure C k desired w).1 ≡ w1 = ground (arith, q) in rw e r1
        ]

    await-Stays : (rounds : ℕ) (key : NamespacedName) → Stays (await_config_map C rounds key)
    unfolding await_config_map
    await-Stays zero key w r = r
    await-Stays (suc rounds) key w r =
        let w1 = (C.get Kind.config_map key w).1 in
        let r1 = K.by_gets Kind.config_map key w r in
        elim (Reply-cases (C.get Kind.config_map key w).0) [
          | is_found a q ↦
              let e : (await_config_map C (suc rounds) key w).1 ≡ w1 = ground (arith, q) in rw e r1
          | is_missing q ↦
              let e : (await_config_map C (suc rounds) key w).1
                  ≡ (await_config_map C rounds key (C.sleep 100 w1)).1 =
                ground (arith, q) in
              rw e (await-Stays rounds key (C.sleep 100 w1) (K.by_sleep 100 w1 r1))
          | is_other x q ↦
              let e : (await_config_map C (suc rounds) key w).1 ≡ w1 = ground (arith, q) in rw e r1
        ]

    pub apply_config_map-Stays :
        (range : Order) (rounds : ℕ) (desired : ConfigMap)
        → Stays (apply_config_map C range rounds desired)
    unfolding apply_config_map
    apply_config_map-Stays range rounds desired w r =
        let key = object_key Kind.config_map desired in
        let m = apply_config_map C range rounds desired in
        let w1 = (C.get Kind.config_map key w).1 in
        let w2 = (C.create Kind.config_map desired w1).1 in
        let r1 = K.by_gets Kind.config_map key w r in
        let r2 = K.by_creates Kind.config_map desired w1 r1 in
        elim (Reply-cases (C.get Kind.config_map key w).0) [
          | is_found old q ↦
              elim (Bool-cases
                (compare_conf range (entries desired.contents) (entries old.contents))) [
                  | inl s ↦ let e : (m w).1 ≡ w1 = ground (arith, q, s) in rw e r1
                  | inr s ↦
                      let new = record old { contents = desired.contents } in
                      let e : (m w).1 ≡ (C.update Kind.config_map new w1).1 =
                        ground (arith, q, s) in
                      rw e (K.by_updates Kind.config_map new w1 r1)
                ]
          | is_missing q ↦ elim (Option-cases (C.create Kind.config_map desired w1).0) [
            | inl s ↦
                let e : (m w).1 ≡ (await_config_map C rounds key w2).1 = ground (arith, q, s) in
                rw e (await-Stays rounds key w2 r2)
            | inr (x, s) ↦ let e : (m w).1 ≡ w2 = ground (arith, q, s) in rw e r2
          ]
          | is_other x q ↦ let e : (m w).1 ≡ w1 = ground (arith, q) in rw e r1
        ]

    pub apply_workload-Stays : (desired : StatefulSet) → Stays (apply_workload C desired)
    unfolding apply_workload
    apply_workload-Stays desired w r =
        let key = object_key Kind.stateful_set desired in
        let m = apply_workload C desired in
        let w1 = (C.get Kind.stateful_set key w).1 in
        let r1 = K.by_gets Kind.stateful_set key w r in
        elim (Reply-cases (C.get Kind.stateful_set key w).0) [
          | is_found old q ↦ elim (Bool-cases (spec_equal old.spec desired.spec)) [
            | inl s ↦ let e : (m w).1 ≡ w1 = ground (arith, q, s) in rw e r1
            | inr s ↦
                let e : (m w).1 ≡ (C.update Kind.stateful_set desired w1).1 =
                  ground (arith, q, s) in
                rw e (K.by_updates Kind.stateful_set desired w1 r1)
          ]
          | is_missing q ↦
              let e : (m w).1 ≡ (C.create Kind.stateful_set desired w1).1 = ground (arith, q) in
              rw e (K.by_creates Kind.stateful_set desired w1 r1)
          | is_other x q ↦ let e : (m w).1 ≡ w1 = ground (arith, q) in rw e r1
        ]

    pub apply_service-Stays : (desired : Service) → Stays (apply_service C desired)
    unfolding apply_service
    apply_service-Stays desired w r =
        let key = object_key Kind.service desired in
        let m = apply_service C desired in
        let w1 = (C.get Kind.service key w).1 in
        let w2 = (C.create Kind.service desired w1).1 in
        let r1 = K.by_gets Kind.service key w r in
        let r2 = K.by_creates Kind.service desired w1 r1 in
        elim (Reply-cases (C.get Kind.service key w).0) [
          | is_found old q ↦ let e : (m w).1 ≡ w1 = ground (arith, q) in rw e r1
          | is_missing q ↦ elim (Option-cases (C.create Kind.service desired w1).0) [
            | inl s ↦ let e : (m w).1 ≡ w2 = ground (arith, q, s) in rw e r2
            | inr (x, s) ↦ let e : (m w).1 ≡ w2 = ground (arith, q, s) in rw e r2
          ]
          | is_other x q ↦ let e : (m w).1 ≡ w1 = ground (arith, q) in rw e r1
        ]
