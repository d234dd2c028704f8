-- ===== src/Clientset/Typed/Timeouts.antt =====
-- The timeouts of List, Watch and DeleteCollection.
use kyuubi_operator.Base.{ℕ, ◌+◌, ◌*◌, ◌≤◌, ◌<◌, ◌≡◌, ◌↔◌, some, arith}
use kyuubi_operator.Clientset.Typed.{timeout_of, word_size, time_second}

-- The largest `int64`, as half of the words.
abbrev pub half : ℕ
half = 9223372036854775808

-- The most seconds that a `time.Duration` holds.
abbrev pub most_seconds : ℕ
most_seconds = 9223372036

-- An `int64` with s seconds, s from 0 on, gives s times `time.Second`, a number from 0 on, exactly
-- where s is at most 9223372036; and one with -s seconds gives -s times `time.Second`, a number
-- below 0, exactly for the same s. Beyond that the product wraps around.
pub timeout_of_iff :
    (s w : ℕ)
    → s < half
    → w < word_size
    → w + s ≡ word_size
    → (((timeout_of (some s) < half) × (timeout_of (some s) ≡ s * time_second))
        ↔ (s ≤ most_seconds))
      × (((half ≤ timeout_of (some w)) × (timeout_of (some w) + s * time_second ≡ word_size))
          ↔ (s ≤ most_seconds))
unfolding timeout_of
timeout_of_iff s w l u e = (
  (λ (a, b). omega (arith, a, b), λ m. (omega (arith, m), omega (arith, m))),
  (λ (a, b). omega (arith, a, b), λ m. (omega (arith, m, e), omega (arith, m, e))),
)
