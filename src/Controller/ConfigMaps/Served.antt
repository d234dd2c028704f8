-- ===== src/Controller/ConfigMaps/Served.antt =====
-- The volumes of the pod against the config maps that the operator writes.
use kyuubi_operator.Base.{
  ℕ, String, ◌≡◌, refl, sym, ◌∙◌, ◌⊎◌, inl, inr, true, none, some, List, [], ◌∷◌, ◌++◌, arith, All,
  Sum-cases,
}
use kyuubi_operator.Base.Dict.{lookup, Dict, Order, has_key, entries}
use kyuubi_operator.K8s.Objects.{ConfigMap, Volume, KeyToPath}
use kyuubi_operator.K8s.Client.{Library}
use kyuubi_operator.Api.{ClusterType, ClusterRef, KyuubiCluster}
use kyuubi_operator.Controller.Names.{cluster_resource_name, nine_resource_name}
use kyuubi_operator.Controller.Volumes.{volumes_of, volume_loop, construct_volumes}
use kyuubi_operator.Controller.ClusterRefs.{refs_data, desired_cluster_refs_config_map, hdfs_sites}
use kyuubi_operator.Controller.ClusterRefs.Errors.{refs_object, desired_of_data, desired_of_error}
use kyuubi_operator.Controller.ClusterRefs.Keys.{HasKeys, keys_of, ref_loop-HasKeys}
use kyuubi_operator.Controller.ConfigMaps.{map2_string, construct_kyuubi_config_map}

-- The config map has the volume's name for it, and all keys that the volume shows.
abbrev pub Serves : ConfigMap → Volume → Type 0
Serves cm v =
    (cm.meta.name ≡ v.config_map)
    × All (λ (item : KeyToPath). has_key item.key (entries cm.contents) ≡ true) v.items

All-append {ℓ κ} :
    {A : Type ℓ} (P : A → Type κ) (xs ys : List A) → All P xs → All P ys → All P (xs ++ ys)
All-append P [] ys hx hy = hy
All-append P (x ∷ xs) ys hx hy = (hx.0, All-append P xs ys hx.1 hy)

All-volume_loop :
    (P : Volume → Type 0) (kyuubi : KyuubiCluster) (vs : List Volume) (refs : List ClusterRef)
    → All P vs
    → All (λ (cluster : ClusterRef). All P (volumes_of kyuubi cluster.type)) refs
    → All P (volume_loop kyuubi vs refs)
unfolding volume_loop
All-volume_loop P kyuubi vs [] h hs = h
All-volume_loop P kyuubi vs (cluster ∷ rest) h (g, hs) =
    All-volume_loop P kyuubi (vs ++ volumes_of kyuubi cluster.type) rest (All-append P vs _ h g) hs

All-imp {ℓ κ μ} :
    {A : Type ℓ} {P : A → Type κ} {Q : A → Type μ} (xs : List A)
    → ((x : A) → P x → Q x)
    → All P xs
    → All Q xs
All-imp [] f h = tt
All-imp (x ∷ xs) f h = (f x h.0, All-imp xs f h.1)

has_key-cons : (k v : String) → has_key k ((k, v) ∷ []) ≡ true
unfolding lookup
has_key-cons k v = ground arith

module _ (kyuubi : KyuubiCluster) (own refs : ConfigMap) where
  abbrev pub IsServed : Volume → Type 0
  IsServed v = Serves own v ⊎ Serves refs v

  volumes_of-IsServed :
      (t : ClusterType)
      → refs.meta.name ≡ nine_resource_name kyuubi ("-clusterrefs" ∷ [])
      → HasKeys (keys_of t) (entries refs.contents)
      → All IsServed (volumes_of kyuubi t)
  unfolding volumes_of
  volumes_of-IsServed ClusterType.spark e h = (inr (e, h), tt)
  volumes_of-IsServed ClusterType.hdfs e (h, (g, _)) = (inr (e, (h, tt)), (inr (e, (g, tt)), tt))
  volumes_of-IsServed ClusterType.metastore e h = (inr (e, h), tt)
  volumes_of-IsServed ClusterType.flink e h = tt

  construct_volumes-IsServed :
      own.meta.name ≡ cluster_resource_name kyuubi []
      → has_key "kyuubi-defaults.conf" (entries own.contents) ≡ true
      → refs.meta.name ≡ nine_resource_name kyuubi ("-clusterrefs" ∷ [])
      → All
          (λ (c : ClusterRef). HasKeys (keys_of c.type) (entries refs.contents))
          kyuubi.spec.cluster_refs
      → All IsServed (construct_volumes kyuubi)
  unfolding construct_volumes
  construct_volumes-IsServed n h e hs =
      All-volume_loop IsServed kyuubi _ kyuubi.spec.cluster_refs (inl (n, (h, tt)), tt)
        (All-imp kyuubi.spec.cluster_refs (λ c g. volumes_of-IsServed c.type e g) hs)

module _ (L : Library) (orders : ℕ → Order) (range : Order) (kyuubi : KyuubiCluster) where
  refs_object-parts :
      (d : Dict) (refs : ConfigMap)
      → refs_object L orders kyuubi d ≡ inr refs
      → (refs.meta.name ≡ nine_resource_name kyuubi ("-clusterrefs" ∷ []))
        × (refs.contents ≡ some d)
  refs_object-parts d refs e = (ground arith, ground arith)

  refs_object-keys :
      (refs : ConfigMap)
      → desired_cluster_refs_config_map L orders kyuubi ≡ inr refs
      → (refs.meta.name ≡ nine_resource_name kyuubi ("-clusterrefs" ∷ []))
        × All
            (λ (c : ClusterRef). HasKeys (keys_of c.type) (entries refs.contents))
            kyuubi.spec.cluster_refs
  refs_object-keys refs e = elim (Sum-cases (refs_data L orders kyuubi)) [
    | inl (x, p) ↦ absurd (ground (arith, desired_of_error L orders kyuubi x p))
    | inr (d, p) ↦
        let (n, c) = refs_object-parts d refs (sym (desired_of_data L orders kyuubi d p) ∙ e) in
        (
          n,
          rw c (
              ref_loop-HasKeys L orders kyuubi (hdfs_sites (none, none) kyuubi.spec.cluster_refs) 0
                kyuubi.spec.cluster_refs [] d p),
        )
  ]

  -- Every volume of the pod shows keys that exist: its config map is the one that the operator makes
  -- from `kyuubiConf` or the one that it makes from the cluster references, by name, and that config
  -- map has each key that the volume shows. This is under the condition that the second config map
  -- is made without an error.
  pub volumes-IsServed :
      (refs : ConfigMap)
      → desired_cluster_refs_config_map L orders kyuubi ≡ inr refs
      → All
          (IsServed kyuubi (construct_kyuubi_config_map L range kyuubi).0 refs)
          (construct_volumes kyuubi)
  unfolding construct_kyuubi_config_map
  volumes-IsServed refs e =
      let (n, hs) = refs_object-keys refs e in
      construct_volumes-IsServed kyuubi (construct_kyuubi_config_map L range kyuubi).0 refs refl
        (has_key-cons "kyuubi-defaults.conf" (map2_string range (entries kyuubi.spec.kyuubi_conf)))
        n hs
