-- ===== src/Controller/Reconcile/Applied.antt =====
-- The steps for config maps, on an API server with no other clients.
use kyuubi_operator.Base.{
  length, ap, zero, ℕ, suc, ◌≡◌, refl, inl, inr, true, false, none, arith, Bool-cases,
}
use kyuubi_operator.Base.Dict.Laws.{Covers}
use kyuubi_operator.Base.Dict.{Order, entries, IsMap, IsRange}
use kyuubi_operator.K8s.Objects.{NamespacedName, ConfigMap}
use kyuubi_operator.K8s.Client.{Kind, object_key, Client, failed, not_found}
use kyuubi_operator.K8s.Exec.{Exec, ok}
use kyuubi_operator.K8s.Store.{IsStore, Places, fill_place, Shows}
use kyuubi_operator.Controller.Utils.{compare_conf}
use kyuubi_operator.Controller.Utils.CompareConf.{compare_conf-Covers}
use kyuubi_operator.Controller.ConfigMaps.{apply_config_map, await_config_map}

abbrev pub map_key : ConfigMap → NamespacedName
map_key cm = object_key Kind.config_map cm

-- A config map with the desired contents: as many entries, and all desired ones. For maps, in which
-- no key occurs twice, that is the same map.
abbrev pub HasContents : ConfigMap → ConfigMap → Type 0
HasContents desired cm =
    (length (entries desired.contents) ≡ length (entries cm.contents))
    × Covers (entries desired.contents) (entries cm.contents)

-- What the method sends where it updates.
abbrev pub renewed : ConfigMap → ConfigMap → ConfigMap
renewed desired old = record old { contents = desired.contents }

module _ (C : Client) (S : IsStore C) where
  await_shown :
      (rounds : ℕ) (key : NamespacedName) (w : C.World) (cm : ConfigMap)
      → Shows C Kind.config_map key w cm
      → await_config_map C (suc rounds) key w ≡ (ok tt, w)
  unfolding await_config_map
  await_shown rounds key w cm e = ground (arith, S.quiet Kind.config_map key w)

  module _ (range : Order) (rounds : ℕ) (desired : ConfigMap) (w : C.World) where
    map_missing :
        (C.get Kind.config_map (map_key desired) w).0 ≡ failed not_found
        → apply_config_map C range (suc rounds) desired w
          ≡ (ok tt, (C.create Kind.config_map desired w).1)
    unfolding apply_config_map
    map_missing e =
        let (made, there) = S.create_missing Kind.config_map desired w e in
        ground (
          arith,
          S.quiet Kind.config_map (map_key desired) w,
          made,
          await_shown rounds (map_key desired) (C.create Kind.config_map desired w).1 desired there,
        )

    pub map_same :
        (old : ConfigMap)
        → Shows C Kind.config_map (map_key desired) w old
        → compare_conf range (entries desired.contents) (entries old.contents) ≡ true
        → apply_config_map C range rounds desired w ≡ (ok tt, w)
    unfolding apply_config_map
    map_same old e s = ground (arith, S.quiet Kind.config_map (map_key desired) w)

    pub map_differs :
        (old : ConfigMap)
        → Shows C Kind.config_map (map_key desired) w old
        → (C.update Kind.config_map (renewed desired old) w).0 ≡ none
        → compare_conf range (entries desired.contents) (entries old.contents) ≡ false
        → apply_config_map C range rounds desired w
          ≡ (ok tt, (C.update Kind.config_map (renewed desired old) w).1)
    unfolding apply_config_map
    map_differs old e u s = ground (arith, S.quiet Kind.config_map (map_key desired) w)

  await_world :
      (rounds : ℕ) (key : NamespacedName) (w : C.World) (cm : ConfigMap)
      → Shows C Kind.config_map key w cm
      → (await_config_map C rounds key w).1 ≡ w
  unfolding await_config_map
  await_world zero key w cm e = refl
  await_world (suc rounds) key w cm e = ap (λ r. r.1) (await_shown rounds key w cm e)

  -- The world after a config map has been created, also without a round for the poll.
  pub map_created :
      (range : Order) (rounds : ℕ) (desired : ConfigMap) (w : C.World)
      → (C.get Kind.config_map (map_key desired) w).0 ≡ failed not_found
      → (apply_config_map C range rounds desired w).1 ≡ (C.create Kind.config_map desired w).1
  unfolding apply_config_map
  map_created range rounds desired w e =
      let (made, there) = S.create_missing Kind.config_map desired w e in
      ground (
        arith,
        S.quiet Kind.config_map (map_key desired) w,
        made,
        await_world rounds (map_key desired) (C.create Kind.config_map desired w).1 desired there,
      )

  -- With at least one round for the poll, the config map is there afterwards with the desired
  -- contents.
  pub apply_config_map-Places :
      (range : Order) (rounds : ℕ) (desired : ConfigMap) (w : C.World)
      → IsRange range
      → IsMap (entries desired.contents)
      → Places C
          (apply_config_map C range (suc rounds) desired)
          Kind.config_map
          (map_key desired)
          (HasContents desired)
          w
  apply_config_map-Places range rounds desired w r u =
      elim (S.answers Kind.config_map (map_key desired) w) [
        | inl e ↦
            fill_place C step Kind.config_map (map_key desired) (HasContents desired) w
              (C.create Kind.config_map desired w).1 tt desired
              (map_missing range rounds desired w e)
              (S.create_missing Kind.config_map desired w e).1 (refl, λ k v h. h)
              (λ j key' d. S.create_apart Kind.config_map desired w j key' d)
        | inr (old, e) ↦
            elim (Bool-cases
              (compare_conf range (entries desired.contents) (entries old.contents))) [
                | inl s ↦
                    fill_place C step Kind.config_map (map_key desired) (HasContents desired) w w tt
                      old (map_same range (suc rounds) desired w old e s) e
                      (compare_conf-Covers range (entries desired.contents) (entries old.contents) r
                        u s)
                      (λ j key' d. refl)
                | inr s ↦ differing old e (S.keyed Kind.config_map (map_key desired) w old e) s
              ]
      ]
    where
      step : Exec C.World (Unit {0})
      step = apply_config_map C range (suc rounds) desired

      differing :
          (old : ConfigMap)
          → Shows C Kind.config_map (map_key desired) w old
          → map_key old ≡ map_key desired
          → compare_conf range (entries desired.contents) (entries old.contents) ≡ false
          → Places C step Kind.config_map (map_key desired) (HasContents desired) w
      differing old e k s =
          let (sent, there) = S.update_found Kind.config_map (renewed desired old) old w (rw k e) in
          fill_place C step Kind.config_map (map_key desired) (HasContents desired) w
            (C.update Kind.config_map (renewed desired old) w).1 tt (renewed desired old)
            (map_differs range (suc rounds) desired w old e sent s) (rw (← k) there)
            (refl, λ k v h. h)
            (λ j key' d. S.update_apart Kind.config_map (renewed desired old) w j key' (rw k d))
