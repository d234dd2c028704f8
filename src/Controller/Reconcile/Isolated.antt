-- ===== src/Controller/Reconcile/Isolated.antt =====
-- Passes over different clusters.
use kyuubi_operator.Base.{ℕ, ◌≡◌, sym, ap, ◌∙◌, ◌≢◌, inl, inr}
use kyuubi_operator.K8s.Objects.{NamespacedName}
use kyuubi_operator.K8s.Client.{Kind, object_key, Client, Library}
use kyuubi_operator.K8s.Store.{IsStore, Shows, Keeps}
use kyuubi_operator.Api.{KyuubiCluster}
use kyuubi_operator.Controller.Names.Distinct.{resource_names_distinct}
use kyuubi_operator.Controller.ConfigMaps.{Orders}
use kyuubi_operator.Controller.Reconcile.{reconcile}
use kyuubi_operator.Controller.Reconcile.Wanted.{shared_key, refs_key}
use kyuubi_operator.Controller.Reconcile.Confined.{IsPlace, reconcile-Moves}

same_place : (a b : NamespacedName) → a.namespace ≡ b.namespace → a.name ≡ b.name → a ≡ b
same_place a b p q = λ i. record { namespace = p i; name = q i }

kinds_apart : Kind.kyuubi_cluster ≢ Kind.config_map
kinds_apart e = cc

-- A name of the first sort is never one of the second.
sorts_apart : (a b : KyuubiCluster) → shared_key a ≢ refs_key b
sorts_apart a b e = (resource_names_distinct a b).2 (ap (λ k. k.name) e)

-- Two clusters that have a place in common are one.
shared_place :
    (a b : KyuubiCluster) (k : Kind) (key : NamespacedName)
    → IsPlace a k key
    → IsPlace b k key
    → object_key Kind.kyuubi_cluster a ≡ object_key Kind.kyuubi_cluster b
shared_place a b k key (inl (p, q)) (inl (p', q')) = sym q ∙ q'
shared_place a b k key (inl (p, q)) (inr (inl (p', q'))) = absurd (p' p)
shared_place a b k key (inl (p, q)) (inr (inr (p', q'))) = absurd (kinds_apart (sym p ∙ p'))
shared_place a b k key (inr (inl (p, q))) (inl (p', q')) = absurd (p p')
shared_place a b k key (inr (inl (p, q))) (inr (inl (p', q'))) =
    same_place _ _ (ap (λ x. x.namespace) (sym q ∙ q'))
      ((resource_names_distinct a b).0.0 (ap (λ x. x.name) (sym q ∙ q')))
shared_place a b k key (inr (inl (p, q))) (inr (inr (p', q'))) =
    absurd (sorts_apart a b (sym q ∙ q'))
shared_place a b k key (inr (inr (p, q))) (inl (p', q')) = absurd (kinds_apart (sym p' ∙ p))
shared_place a b k key (inr (inr (p, q))) (inr (inl (p', q'))) =
    absurd (sorts_apart b a (sym q' ∙ q))
shared_place a b k key (inr (inr (p, q))) (inr (inr (p', q'))) =
    same_place _ _ (ap (λ x. x.namespace) (sym q ∙ q'))
      ((resource_names_distinct a b).1.0 (ap (λ x. x.name) (sym q ∙ q')))

-- On an API server with no other clients and no failures, a pass for one cluster leaves every place of
-- another cluster as it is, whatever its outcome: its objects, its config maps and the cluster itself.
-- The two requests differ in the namespace or in the name.
pub reconcile-isolated :
    (C : Client) (S : IsStore C) (L : Library) (orders : Orders) (rounds : ℕ)
    (req req' : NamespacedName) (kyuubi : KyuubiCluster) (w : C.World)
    → Shows C Kind.kyuubi_cluster req' w kyuubi
    → req ≢ req'
    → (k : Kind) (key : NamespacedName) → IsPlace kyuubi k key
    → Keeps C k key w (reconcile L C orders rounds req w).1
reconcile-isolated C S L orders rounds req req' kyuubi w s n k key p =
    (reconcile-Moves C S L orders rounds req w).confined k key (λ (served, t, q). n (
      sym (S.keyed Kind.kyuubi_cluster req w served t)
      ∙ shared_place served kyuubi k key q p
      ∙ S.keyed Kind.kyuubi_cluster req' w kyuubi s))
