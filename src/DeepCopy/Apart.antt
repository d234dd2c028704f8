-- ===== src/DeepCopy/Apart.antt =====
-- What `DeepCopyObject` promises of KyuubiCluster and of KyuubiClusterList.
use kyuubi_operator.Base.{none, ℕ, ◌≡◌, refl, ◌∙◌, some}
use kyuubi_operator.Base.Dict.{Order, IsRange}
use kyuubi_operator.DeepCopy.Heap.{Foreign, Heap, StoredKyuubiCluster, StoredKyuubiClusterList}
use kyuubi_operator.DeepCopy.Shape.{Agrees, Copied}
use kyuubi_operator.DeepCopy.Structs.{
  ForeignShapes, cluster_shape, cluster_list_shape, cluster-IsCopier, cluster_list-IsCopier,
}
use kyuubi_operator.DeepCopy.{
  ForeignCopies, Object, deep_copy, copy_kyuubi_cluster, copy_kyuubi_cluster_list,
  deep_copy_cluster_object, deep_copy_list_object, deep_copy_kyuubi_cluster,
  deep_copy_kyuubi_cluster_list,
}

module _ (F : Foreign) (G : ForeignCopies F) (ranges : ℕ → Order) (q : (a : ℕ) → IsRange (ranges a))
    (K : ForeignShapes F G) where
  -- `DeepCopyObject` of a cluster returns a cluster that means the same as the receiver: all texts
  -- and numbers, nil where the receiver has nil, the same value at each key of each map, and the
  -- same elements of each slice. All memory that the copy refers to was free before, and all memory
  -- that was in use is as it was. A nil receiver gives nil. The receiver refers to allocated memory,
  -- loops over maps visit each entry once, and the copies of the Kubernetes types do as much.
  pub deep_copy_cluster_object-Copied :
      (x : StoredKyuubiCluster F) (h : Heap F)
      → (cluster_shape F G ranges q K).Within 0 h.next h x
      → ((x' : StoredKyuubiCluster F) × (h' : Heap F) × (deep_copy_cluster_object G ranges
              (some x)
              h
            ≡ (some (Object.cluster x'), h'))
          × Copied F (cluster_shape F G ranges q K) x h x' h')
        × (deep_copy_cluster_object G ranges none h ≡ (none, h))
  unfolding deep_copy_cluster_object deep_copy_kyuubi_cluster deep_copy
  deep_copy_cluster_object-Copied x h w = (
    (
      (copy_kyuubi_cluster G ranges x h).0,
      (copy_kyuubi_cluster G ranges x h).1,
      refl,
      (cluster-IsCopier F G ranges q K).copies.copied x h w,
    ),
    refl,
  )

  -- `DeepCopyObject` of a list returns a list that means the same as the receiver, with all its
  -- clusters: nil maps and slices stay nil, maps have the same value at each key, and slices the same
  -- elements. All memory that the copy refers to was free before, and all memory that was in use is as
  -- it was. The receiver refers to allocated memory, loops over maps visit each entry once, and the
  -- copies of the Kubernetes types do as much.
  pub deep_copy_list_object-Copied :
      (x : StoredKyuubiClusterList F) (h : Heap F)
      → (cluster_list_shape F G ranges q K).Within 0 h.next h x
      → (x' : StoredKyuubiClusterList F) × (h' : Heap F) × (deep_copy_list_object G ranges
            (some x)
            h
          ≡ (some (Object.cluster_list x'), h'))
        × Copied F (cluster_list_shape F G ranges q K) x h x' h'
  unfolding deep_copy_list_object deep_copy_kyuubi_cluster_list deep_copy
  deep_copy_list_object-Copied x h w = (
    (copy_kyuubi_cluster_list G ranges x h).0,
    (copy_kyuubi_cluster_list G ranges x h).1,
    refl,
    (cluster_list-IsCopier F G ranges q K).copies.copied x h w,
  )

  -- After a list has been copied: in a heap `first` that differs only where the copy lies and beyond,
  -- the receiver means what it meant; and in a heap `second` that differs only outside of the memory
  -- that the copy has allocated, the copy means what the receiver meant. So no write through one of
  -- the two is seen through the other. The receiver refers to allocated memory, loops over maps visit
  -- each entry once, and the copies of the Kubernetes types are copies in the same sense.
  pub copy_kyuubi_cluster_list_apart :
      (x : StoredKyuubiClusterList F) (h first second : Heap F)
      → (cluster_list_shape F G ranges q K).Within 0 h.next h x
      → Agrees F 0 h.next (copy_kyuubi_cluster_list G ranges x h).1 first
      → Agrees F h.next
          (copy_kyuubi_cluster_list G ranges x h).1.next
          (copy_kyuubi_cluster_list G ranges x h).1
          second
      → let S = cluster_list_shape F G ranges q K in
        (S.value first x ≡ S.value h x)
        × (S.value second (copy_kyuubi_cluster_list G ranges x h).0 ≡ S.value h x)
  copy_kyuubi_cluster_list_apart x h first second w below above =
      let s = cluster_list-IsCopier F G ranges q K in
      let c = s.copies.copied x h w in
      let h' = (copy_kyuubi_cluster_list G ranges x h).1 in
      (
        s.local.value_local 0 h.next h first x w (λ b l u. below b l u ∙ c.frame b l u),
        s.local.value_local h.next h'.next h' second _ c.fresh above ∙ c.same,
      )
