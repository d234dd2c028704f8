-- ===== src/Controller/Reconcile/Moves.antt =====
-- What a pass may change, however it ends.
use kyuubi_operator.Base.{ℕ, ◌≡◌, refl, subst, inl, inr, false, arith, Bool-cases}
use kyuubi_operator.Base.Dict.{entries, Order}
use kyuubi_operator.K8s.Objects.{NamespacedName, ConfigMap, StatefulSet, Service}
use kyuubi_operator.K8s.Equality.{spec_equal}
use kyuubi_operator.K8s.Client.{Kind, Obj, object_key, Client, failed, not_found}
use kyuubi_operator.K8s.Store.{shown_once, IsStore, Shows}
use kyuubi_operator.K8s.Steady.{Moves, Moves-refl, write-Moves, Similar}
use kyuubi_operator.Controller.Utils.{compare_conf}
use kyuubi_operator.Controller.Rbac.{ensure}
use kyuubi_operator.Controller.Workload.{apply_workload}
use kyuubi_operator.Controller.Services.{apply_service}
use kyuubi_operator.Controller.ConfigMaps.{apply_config_map}
use kyuubi_operator.Controller.Reconcile.Steps.{
  ensure_found, ensure_missing, workload_missing, workload_same, workload_differs, sts_key, svc_key,
  service_missing, service_found,
}
use kyuubi_operator.Controller.Reconcile.Applied.{
  map_key, map_created, map_same, map_differs, renewed,
}

module _ (C : Client) (S : IsStore C) {IsMine : Kind → NamespacedName → Type 0} where
  -- A Create at a place where nothing is.
  created :
      (k : Kind) (o : Obj k) (w : C.World)
      → IsMine k (object_key k o)
      → (C.get k (object_key k o) w).0 ≡ failed not_found
      → Moves C IsMine w (C.create k o w).1
  created k o w mine e =
      write-Moves C k (object_key k o) o w (C.create k o w).1 mine
        (λ old s. absurd (ground (arith, e, s))) (S.create_missing k o w e).1
        (λ j key' d. S.create_apart k o w j key' d)

  -- An update of an object by a similar one.
  updated :
      (k : Kind) (o old : Obj k) (w : C.World)
      → IsMine k (object_key k o)
      → Shows C k (object_key k o) w old
      → Similar k old o
      → Moves C IsMine w (C.update k o w).1
  updated k o old w mine s similar =
      write-Moves C k (object_key k o) o w (C.update k o w).1 mine
        (λ x t. subst (λ y. Similar k y o) (shown_once C k (object_key k o) w old x s t) similar)
        (S.update_found k o old w s).1 (λ j key' d. S.update_apart k o w j key' d)

  pub ensure-Moves :
      (k : Kind) (desired : Obj k) (w : C.World)
      → IsMine k (object_key k desired)
      → Moves C IsMine w (ensure C k desired w).1
  ensure-Moves k desired w mine = elim (S.answers k (object_key k desired) w) [
    | inl e ↦ rw (ensure_missing C S k desired w e) (created k desired w mine e)
    | inr (old, s) ↦ rw (ensure_found C S k desired old w s) (Moves-refl C w)
  ]

  pub apply_workload-Moves :
      (desired : StatefulSet) (w : C.World)
      → IsMine Kind.stateful_set (sts_key C S desired)
      → Moves C IsMine w (apply_workload C desired w).1
  apply_workload-Moves desired w mine = elim (S.answers Kind.stateful_set (sts_key C S desired) w) [
    | inl e ↦ rw (workload_missing C S desired w e) (created Kind.stateful_set desired w mine e)
    | inr (old, s) ↦ elim (Bool-cases (spec_equal old.spec desired.spec)) [
      | inl q ↦ rw (workload_same C S desired old w s q) (Moves-refl C w)
      | inr q ↦
          rw (workload_differs C S desired old w s q)
            (updated Kind.stateful_set desired old w mine s tt)
    ]
  ]

  pub apply_service-Moves :
      (desired : Service) (w : C.World)
      → IsMine Kind.service (svc_key C S desired)
      → Moves C IsMine w (apply_service C desired w).1
  apply_service-Moves desired w mine = elim (S.answers Kind.service (svc_key C S desired) w) [
    | inl e ↦ rw (service_missing C S desired w e) (created Kind.service desired w mine e)
    | inr (old, s) ↦ rw (service_found C S desired old w s) (Moves-refl C w)
  ]

  pub apply_config_map-Moves :
      (range : Order) (rounds : ℕ) (desired : ConfigMap) (w : C.World)
      → IsMine Kind.config_map (map_key desired)
      → Moves C IsMine w (apply_config_map C range rounds desired w).1
  apply_config_map-Moves range rounds desired w mine =
      elim (S.answers Kind.config_map (map_key desired) w) [
        | inl e ↦
            rw (map_created C S range rounds desired w e) (created Kind.config_map desired w mine e)
        | inr (old, s) ↦
            elim (Bool-cases
              (compare_conf range (entries desired.contents) (entries old.contents))) [
                | inl q ↦ rw (map_same C S range rounds desired w old s q) (Moves-refl C w)
                | inr q ↦ differing old s (S.keyed Kind.config_map (map_key desired) w old s) q
              ]
      ]
    where
      differing :
          (old : ConfigMap)
          → Shows C Kind.config_map (map_key desired) w old
          → map_key old ≡ map_key desired
          → compare_conf range (entries desired.contents) (entries old.contents) ≡ false
          → Moves C IsMine w (apply_config_map C range rounds desired w).1
      differing old s k q =
          let there : Shows C Kind.config_map (map_key old) w old = rw k s in
          rw
            (map_differs C S range rounds desired w old s
              (S.update_found Kind.config_map (renewed desired old) old w there).0 q)
            (updated Kind.config_map (renewed desired old) old w (rw k mine) there refl)
