-- ===== src/Clientset/Sets/Limits.antt =====
-- The rate limiter of a clientset.
use kyuubi_operator.Base.{
  ◌≡◌, ◌≢◌, ◌⊎◌, inl, inr, true, false, ◌&&◌, none, some, arith, Bool-cases, Option-cases, ℕ, zero,
  suc, refl,
}
use kyuubi_operator.Clientset.Machinery.{Machinery}
use kyuubi_operator.Clientset.Config.{
  ℤ, pos, negsuc, made, refused, ◌>>=◌, ConfigTypes, Config, Makers, with_user_agent,
}
use kyuubi_operator.Clientset.Sets.{with_rate_limiter, not_positive, is_none, burst_error}

at_most_zero : (z : ℤ) → (z ≡ pos 0) ⊎ ((n : ℕ) × (z ≡ negsuc n)) → not_positive z ≡ true
at_most_zero z (inl e) = rw e refl
at_most_zero z (inr (n, e)) = rw e refl

at_most_zero_back : (z : ℤ) → not_positive z ≡ true → (z ≡ pos 0) ⊎ ((n : ℕ) × (z ≡ negsuc n))
at_most_zero_back (pos zero) e = inl refl
at_most_zero_back (pos (suc n)) e = absurd (ground arith)
at_most_zero_back (negsuc n) e = inr (n, refl)

module _ {C : ConfigTypes} {M : Machinery} {W : Type 0} (L : Makers C M W) where
  -- A rate without a limiter and without a burst to make one of.
  pub record IsUnlimited (c : Config C) : Type 0 where
    pub no_limiter : c.rate_limiter ≡ none
    pub has_rate : C.above_zero c.qps ≡ true
    pub no_burst : (c.burst ≡ pos 0) ⊎ ((n : ℕ) × (c.burst ≡ negsuc n))

  pub with_rate_limiter-refused :
      (c : Config C) → IsUnlimited c → with_rate_limiter L c ≡ refused burst_error
  unfolding with_rate_limiter
  with_rate_limiter-refused c u =
      ground (arith, u.no_limiter, u.has_rate, at_most_zero c.burst u.no_burst)

  pub with_rate_limiter-cases :
      (c : Config C)
      → (IsUnlimited c × (with_rate_limiter L c ≡ refused burst_error))
        ⊎ (((c.rate_limiter ≡ none)
              × (with_rate_limiter L c
                  ≡ made (record c { rate_limiter = some (L.token_bucket c.qps c.burst) })))
            ⊎ (((c.rate_limiter ≢ none) ⊎ (C.above_zero c.qps ≡ false))
                × (with_rate_limiter L c ≡ made c)))
  unfolding with_rate_limiter
  with_rate_limiter-cases c = elim (Option-cases c.rate_limiter) [
    | inl o ↦ elim (Bool-cases (C.above_zero c.qps)) [
      | inl b ↦ elim (Bool-cases (not_positive c.burst)) [
        | inl n ↦ inl (
          record { no_limiter = o; has_rate = b; no_burst = at_most_zero_back c.burst n },
          ground (arith, o, b, n),
        )
        | inr n ↦ inr (inl (o, ground (arith, o, b, n)))
      ]
      | inr b ↦ inr (inr (inr b, ground (arith, o, b)))
    ]
    | inr (l, o) ↦ inr (inr (inl (λ p. cc (o, p)), ground (arith, o)))
  ]

  pub with_rate_limiter-with_user_agent :
      (c : Config C)
      → with_rate_limiter L (with_user_agent c)
        ≡ (with_rate_limiter L c >>= λ d. made (with_user_agent d))
  unfolding with_rate_limiter with_user_agent
  with_rate_limiter-with_user_agent c =
      elim (Bool-cases (is_none c.rate_limiter && C.above_zero c.qps)) [
        | inl b ↦ elim (Bool-cases (not_positive c.burst)) [
          | inl n ↦ ground (arith, b, n)
          | inr n ↦ ground (arith, b, n)
        ]
        | inr b ↦ ground (arith, b)
      ]
