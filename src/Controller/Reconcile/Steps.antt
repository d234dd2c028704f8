-- ===== src/Controller/Reconcile/Steps.antt =====
-- Each step of `createOrUpdateClusters`, on an API server with no other clients.
use kyuubi_operator.Base.{Bool-cases, false, true, ◌≡◌, refl, ◌⊎◌, inl, inr, arith}
use kyuubi_operator.K8s.Client.{Kind, Obj, object_key, Client, failed, not_found}
use kyuubi_operator.K8s.Exec.{ok}
use kyuubi_operator.K8s.Store.{fill_place, IsStore, Places, Shows}
use kyuubi_operator.Controller.Workload.{apply_workload}
use kyuubi_operator.Controller.Services.{apply_service, empty_service}
use kyuubi_operator.K8s.Equality.{spec_equal}
use kyuubi_operator.K8s.Objects.{NamespacedName, StatefulSet, Service}
use kyuubi_operator.Controller.Rbac.{ensure}

-- What becomes of a StatefulSet: one with the desired specification stays as it is; where there is none,
-- or one with another specification, there is the desired one.
pub record IsApplied (C : Client) (desired : StatefulSet) (w : C.World) (o : StatefulSet)
    : Type 0 where
  pub same : spec_equal o.spec desired.spec ≡ true
  pub origin :
      Shows C Kind.stateful_set (object_key Kind.stateful_set desired) w o
      ⊎ ((o ≡ desired)
          × (((C.get Kind.stateful_set (object_key Kind.stateful_set desired) w).0
                ≡ failed not_found)
              ⊎ ((old : StatefulSet) × Shows C Kind.stateful_set
                    (object_key Kind.stateful_set desired)
                    w
                    old
                  × (spec_equal old.spec desired.spec ≡ false))))

module _ (C : Client) where
  -- The object that was there or, if there was none, the desired one.
  abbrev pub IsKept : (k : Kind) → Obj k → C.World → Obj k → Type 0
  IsKept k desired w o =
      ((o ≡ desired) × ((C.get k (object_key k desired) w).0 ≡ failed not_found))
      ⊎ Shows C k (object_key k desired) w o

module _ (C : Client) (S : IsStore C) where
  pub ensure_found :
      (k : Kind) (desired old : Obj k) (w : C.World)
      → Shows C k (object_key k desired) w old
      → ensure C k desired w ≡ (ok tt, w)
  unfolding ensure
  ensure_found k desired old w e = ground (arith, S.quiet k (object_key k desired) w)

  pub ensure_missing :
      (k : Kind) (desired : Obj k) (w : C.World)
      → (C.get k (object_key k desired) w).0 ≡ failed not_found
      → ensure C k desired w ≡ (ok tt, (C.create k desired w).1)
  unfolding ensure
  ensure_missing k desired w e =
      ground (arith, S.quiet k (object_key k desired) w, S.create_missing k desired w e)

  -- Afterwards the object is there, and an object that was there before is not replaced.
  pub ensure-Places :
      (k : Kind) (desired : Obj k) (w : C.World)
      → Places C (ensure C k desired) k (object_key k desired) (IsKept C k desired w) w
  ensure-Places k desired w = elim (S.answers k (object_key k desired) w) [
    | inl e ↦
        fill_place C (ensure C k desired) k (object_key k desired) (IsKept C k desired w) w
          (C.create k desired w).1 tt desired (ensure_missing k desired w e)
          (S.create_missing k desired w e).1 (inl (refl, e))
          (λ j key' d. S.create_apart k desired w j key' d)
    | inr (old, e) ↦
        fill_place C (ensure C k desired) k (object_key k desired) (IsKept C k desired w) w w tt old
          (ensure_found k desired old w e) e (inr e) (λ j key' d. refl)
  ]

  abbrev pub sts_key : StatefulSet → NamespacedName
  sts_key desired = object_key Kind.stateful_set desired

  pub workload_missing :
      (desired : StatefulSet) (w : C.World)
      → (C.get Kind.stateful_set (sts_key desired) w).0 ≡ failed not_found
      → apply_workload C desired w ≡ (ok tt, (C.create Kind.stateful_set desired w).1)
  unfolding apply_workload
  workload_missing desired w e = ground (
    arith,
    S.quiet Kind.stateful_set (sts_key desired) w,
    S.create_missing Kind.stateful_set desired w e,
  )

  pub workload_same :
      (desired old : StatefulSet) (w : C.World)
      → Shows C Kind.stateful_set (sts_key desired) w old
      → spec_equal old.spec desired.spec ≡ true
      → apply_workload C desired w ≡ (ok tt, w)
  unfolding apply_workload
  workload_same desired old w e s = ground (arith, S.quiet Kind.stateful_set (sts_key desired) w)

  pub workload_differs :
      (desired old : StatefulSet) (w : C.World)
      → Shows C Kind.stateful_set (sts_key desired) w old
      → spec_equal old.spec desired.spec ≡ false
      → apply_workload C desired w ≡ (ok tt, (C.update Kind.stateful_set desired w).1)
  unfolding apply_workload
  workload_differs desired old w e s = ground (
    arith,
    S.quiet Kind.stateful_set (sts_key desired) w,
    S.update_found Kind.stateful_set desired old w e,
  )

  -- Afterwards the workload is there, applied to what was there.
  pub apply_workload-Places :
      (desired : StatefulSet) (w : C.World)
      → spec_equal desired.spec desired.spec ≡ true
      → Places C
          (apply_workload C desired)
          Kind.stateful_set
          (sts_key desired)
          (IsApplied C desired w)
          w
  apply_workload-Places desired w r = elim (S.answers Kind.stateful_set (sts_key desired) w) [
    | inl e ↦
        fill_place C (apply_workload C desired) Kind.stateful_set (sts_key desired) _ w
          (C.create Kind.stateful_set desired w).1 tt desired (workload_missing desired w e)
          (S.create_missing Kind.stateful_set desired w e).1
          (record { same = r; origin = inr (refl, inl e) })
          (λ j key' d. S.create_apart Kind.stateful_set desired w j key' d)
    | inr (old, e) ↦ elim (Bool-cases (spec_equal old.spec desired.spec)) [
      | inl s ↦
          fill_place C (apply_workload C desired) Kind.stateful_set (sts_key desired) _ w w tt old
            (workload_same desired old w e s) e (record { same = s; origin = inl e })
            (λ j key' d. refl)
      | inr s ↦
          fill_place C (apply_workload C desired) Kind.stateful_set (sts_key desired) _ w
            (C.update Kind.stateful_set desired w).1 tt desired (workload_differs desired old w e s)
            (S.update_found Kind.stateful_set desired old w e).1
            (record { same = r; origin = inr (refl, inr (old, e, s)) })
            (λ j key' d. S.update_apart Kind.stateful_set desired w j key' d)
    ]
  ]

  abbrev pub svc_key : Service → NamespacedName
  svc_key desired = object_key Kind.service desired

  pub service_missing :
      (desired : Service) (w : C.World)
      → (C.get Kind.service (svc_key desired) w).0 ≡ failed not_found
      → apply_service C desired w ≡ (ok empty_service, (C.create Kind.service desired w).1)
  unfolding apply_service
  service_missing desired w e =
      ground
        (arith, S.quiet Kind.service (svc_key desired) w, S.create_missing Kind.service desired w e)

  pub service_found :
      (desired old : Service) (w : C.World)
      → Shows C Kind.service (svc_key desired) w old
      → apply_service C desired w ≡ (ok old, w)
  unfolding apply_service
  service_found desired old w e = ground (arith, S.quiet Kind.service (svc_key desired) w)

  -- Afterwards the service is there, and one that was there before is not replaced.
  pub apply_service-Places :
      (desired : Service) (w : C.World)
      → Places C
          (apply_service C desired)
          Kind.service
          (svc_key desired)
          (IsKept C Kind.service desired w)
          w
  apply_service-Places desired w = elim (S.answers Kind.service (svc_key desired) w) [
    | inl e ↦
        fill_place C (apply_service C desired) Kind.service (svc_key desired) _ w
          (C.create Kind.service desired w).1 empty_service desired (service_missing desired w e)
          (S.create_missing Kind.service desired w e).1 (inl (refl, e))
          (λ j key' d. S.create_apart Kind.service desired w j key' d)
    | inr (old, e) ↦
        fill_place C (apply_service C desired) Kind.service (svc_key desired) _ w w old old
          (service_found desired old w e) e (inr e) (λ j key' d. refl)
  ]
