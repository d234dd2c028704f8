-- ===== src/Controller/ConfigMaps/Await.antt =====
-- The loop that polls for a new config map.
use kyuubi_operator.Base.{ℕ, zero, suc, ◌+◌, ◌<◌, String, ◌≡◌, refl, sym, ap, ◌∙◌, ◌≢◌, arith}
use kyuubi_operator.K8s.Objects.{NamespacedName, ConfigMap}
use kyuubi_operator.K8s.Client.{
  Reply-cases, is_missing, is_other, is_found, Seen, Kind, Client, not_found, other, found, failed,
}
use kyuubi_operator.K8s.Exec.{ok, err, waiting}
use kyuubi_operator.Controller.ConfigMaps.{await_config_map}

module _ (C : Client) (key : NamespacedName) where
  -- The world of the next poll.
  abbrev next_poll : C.World → C.World
  next_poll w = C.sleep 100 (C.get Kind.config_map key w).1

  -- The world after `n` polls that find nothing, each of which is followed by a sleep.
  abbrev pub polled : ℕ → C.World → C.World
  polled zero w = w
  polled (suc n) w = polled n (next_poll w)

  -- The first `n` polls find nothing, and the one after them finds the config map.
  abbrev pub Appears : ℕ → C.World → Type 0
  Appears zero w = (cm : ConfigMap) × ((C.get Kind.config_map key w).0 ≡ found cm)
  Appears (suc n) w = ((C.get Kind.config_map key w).0 ≡ failed not_found) × Appears n (next_poll w)

  await_zero : (w : C.World) → (await_config_map C 0 key w).0 ≡ waiting
  unfolding await_config_map
  await_zero w = refl

  await_found :
      (rounds : ℕ) (w : C.World) (cm : ConfigMap)
      → (C.get Kind.config_map key w).0 ≡ found cm
      → await_config_map C (suc rounds) key w ≡ (ok tt, (C.get Kind.config_map key w).1)
  unfolding await_config_map
  await_found rounds w cm e = ground arith

  await_missing :
      (rounds : ℕ) (w : C.World)
      → (C.get Kind.config_map key w).0 ≡ failed not_found
      → await_config_map C (suc rounds) key w ≡ await_config_map C rounds key (next_poll w)
  unfolding await_config_map
  await_missing rounds w e = ground arith

  await_failed :
      (rounds : ℕ) (w : C.World) (x : String)
      → (C.get Kind.config_map key w).0 ≡ failed (other x)
      → await_config_map C (suc rounds) key w ≡ (err (other x), (C.get Kind.config_map key w).1)
  unfolding await_config_map
  await_failed rounds w x e = ground arith

  -- If the config map appears after `n` polls that find nothing, the loop, given more than `n` rounds,
  -- ends without an error, in the world that `n` polls, each with its sleep, and the Get after them
  -- leave: it waits until the config map is there, and no longer.
  pub await_config_map-ok :
      (n rounds : ℕ) (w : C.World)
      → n < rounds
      → Appears n w
      → await_config_map C rounds key w ≡ (ok tt, (C.get Kind.config_map key (polled n w)).1)
  await_config_map-ok n zero w h a = elim h [ ]
  await_config_map-ok zero (suc rounds) w h (cm, e) = await_found rounds w cm e
  await_config_map-ok (suc n) (suc rounds) w h (e, a) =
      rw (await_missing rounds w e) (await_config_map-ok n rounds (next_poll w) (omega arith) a)

  -- Rounds beyond those that the loop needs change nothing: once it ends by itself, with or without
  -- an error, it ends so for every larger number of rounds.
  await_config_map-stable :
      (rounds more : ℕ) (w : C.World)
      → (await_config_map C rounds key w).0 ≢ waiting
      → await_config_map C (rounds + more) key w ≡ await_config_map C rounds key w
  await_config_map-stable zero more w h = absurd (h (await_zero w))
  await_config_map-stable (suc rounds) more w h =
      let e : suc rounds + more ≡ suc (rounds + more) = omega arith in
      rw e (
        stable_step
          (λ p.
            await_config_map-stable rounds more (next_poll w)
              (λ q. h (ap (λ r. r.0) (await_missing rounds w p) ∙ q)))
          (Reply-cases (C.get Kind.config_map key w).0))
    where
      stable_step :
          ((C.get Kind.config_map key w).0 ≡ failed not_found
            → await_config_map C (rounds + more) key (next_poll w)
              ≡ await_config_map C rounds key (next_poll w))
          → Seen (C.get Kind.config_map key w).0
          → await_config_map C (suc (rounds + more)) key w ≡ await_config_map C (suc rounds) key w
      stable_step rest (is_found cm p) =
          await_found (rounds + more) w cm p ∙ sym (await_found rounds w cm p)
      stable_step rest (is_other x p) =
          await_failed (rounds + more) w x p ∙ sym (await_failed rounds w x p)
      stable_step rest (is_missing p) =
          await_missing (rounds + more) w p ∙ rest p ∙ sym (await_missing rounds w p)
