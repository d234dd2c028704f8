-- ===== src/Clientset/Fake/Listed.antt =====
-- What List of the fake client returns.
use kyuubi_operator.Base.{
  arith, Option-cases, ◌≡◌, refl, sym, ap, ◌∙◌, inl, inr, Bool, true, Option, none, some, List, [],
  ◌∷◌, ◌++◌, Bool-cases,
}
use mathlib.Core.Bool.{Bool-discrete}
use mathlib.Core.List.{filter, append_assoc, append-nil}
use kyuubi_operator.Base.Dict.{Dict}
use kyuubi_operator.K8s.Client.{Error}
use kyuubi_operator.Api.{KyuubiCluster}
use kyuubi_operator.Clientset.Machinery.{
  Machinery, ListOptions, KyuubiClusterList, zero_list, returns,
}
use kyuubi_operator.Clientset.Tracking.{cluster_list, Fake, list_action}
use kyuubi_operator.Clientset.Fake.{
  answered, FakeKyuubiClusters, kyuubiclusters_resource, kyuubiclusters_kind, list_loop, label_of,
  filtered, list,
}

-- The items that a test admits, in their order.
abbrev pub admitted : (KyuubiCluster → Bool) → List KyuubiCluster → List KyuubiCluster
admitted test items = filter (λ item. Bool-discrete (test item) true) items

list_loop-eq-append :
    (test : KyuubiCluster → Bool) (items found : List KyuubiCluster)
    → list_loop test items found ≡ found ++ admitted test items
unfolding list_loop
list_loop-eq-append test [] found = sym (append-nil found)
list_loop-eq-append test (item ∷ rest) found =
    let more = list_loop-eq-append test rest (found ++ item ∷ []) in
    elim (Bool-cases (test item)) [
      | inl e ↦ rw e (more ∙ append_assoc found (item ∷ []) (admitted test rest))
      | inr e ↦ rw e (list_loop-eq-append test rest found)
    ]

list_loop-agrees :
    (test test' : KyuubiCluster → Bool) (items found : List KyuubiCluster)
    → ((item : KyuubiCluster) → test item ≡ test' item)
    → list_loop test items found ≡ list_loop test' items found
unfolding list_loop
list_loop-agrees test test' [] found h = refl
list_loop-agrees test test' (item ∷ rest) found h = elim (Bool-cases (test' item)) [
  | inl e ↦ ground (arith, h item, e, list_loop-agrees test test' rest (found ++ item ∷ []) h)
  | inr e ↦ ground (arith, h item, e, list_loop-agrees test test' rest found h)
]

pub admitted_all :
    (test : KyuubiCluster → Bool) (items : List KyuubiCluster)
    → ((item : KyuubiCluster) → test item ≡ true)
    → admitted test items ≡ items
admitted_all test [] h = refl
admitted_all test (item ∷ rest) h = rw (h item) (ap (λ xs. item ∷ xs) (admitted_all test rest h))

module _ {M : Machinery} {W : Type 0} where
  -- What the options select: the items whose labels match the label selector that
  -- ExtractFromListOptions finds in the options, or the selector of everything where it finds none.
  abbrev pub selects : Fake M W → ListOptions M → KyuubiCluster → Bool
  selects F opts item = elim (F.extract_label opts) [
    | none ↦ F.matches F.everything item.meta.labels
    | some label ↦ F.matches label item.meta.labels
  ]

  selects_lem :
      (F : Fake M W) (opts : ListOptions M) (item : KyuubiCluster)
      → F.matches (label_of F opts) item.meta.labels ≡ selects F opts item
  unfolding label_of
  selects_lem F opts item = elim (Option-cases (F.extract_label opts)) [
    | inl e ↦ ground (arith, e)
    | inr (label, e) ↦ ground (arith, e)
  ]

  pub filtered-admitted :
      (F : Fake M W) (opts : ListOptions M) (l : KyuubiClusterList M) (err : Option Error)
      → filtered F opts (some (cluster_list l), err)
        ≡ returns (some (record l { items = admitted (selects F opts) l.items }), err)
  unfolding filtered
  filtered-admitted F opts l err =
      ap (λ xs. returns (some (record l { items = xs }), err))
        (list_loop-agrees _ (selects F opts) l.items [] (selects_lem F opts)
          ∙ list_loop-eq-append (selects F opts) l.items [])

  selects_everything :
      (F : Fake M W) (opts : ListOptions M)
      → F.extract_label opts ≡ none
      → ((labels : Dict) → F.matches F.everything labels ≡ true)
      → (item : KyuubiCluster) → selects F opts item ≡ true
  selects_everything F opts n m item = ground (arith, n, m item.meta.labels)

  -- Where the tracker answers List with a list, List returns that with its meta data and error, and
  -- with the items whose labels match the label selector that ExtractFromListOptions finds in the
  -- options, or that of everything where it finds none, in their order.
  pub list-eq-admitted :
      (c : FakeKyuubiClusters M W) (ctx : M.Context) (opts : ListOptions M) (w w' : W)
      (l : KyuubiClusterList M) (err : Option Error)
      → c.fake.invokes
          (list_action kyuubiclusters_resource kyuubiclusters_kind c.ns opts)
          (cluster_list (zero_list M))
          w
        ≡ ((some (cluster_list l), err), w')
      → list c ctx opts w
        ≡ (returns (some (record l { items = admitted (selects c.fake opts) l.items }), err), w')
  unfolding list
  list-eq-admitted c ctx opts w w' l err e =
      ap (answered (filtered c.fake opts)) e
      ∙ ap (λ r. (r, w')) (filtered-admitted c.fake opts l err)

  -- Without a label selector, where the selector of everything matches all labels, it returns the
  -- list as it is.
  pub list_unselected :
      (c : FakeKyuubiClusters M W) (ctx : M.Context) (opts : ListOptions M) (w w' : W)
      (l : KyuubiClusterList M) (err : Option Error)
      → c.fake.invokes
          (list_action kyuubiclusters_resource kyuubiclusters_kind c.ns opts)
          (cluster_list (zero_list M))
          w
        ≡ ((some (cluster_list l), err), w')
      → c.fake.extract_label opts ≡ none
      → ((labels : Dict) → c.fake.matches c.fake.everything labels ≡ true)
      → list c ctx opts w ≡ (returns (some l, err), w')
  list_unselected c ctx opts w w' l err e n m =
      list-eq-admitted c ctx opts w w' l err e
      ∙ ap (λ xs. (returns (some (record l { items = xs }), err), w'))
          (admitted_all (selects c.fake opts) l.items (selects_everything c.fake opts n m))
