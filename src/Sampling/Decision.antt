-- ===== src/Sampling/Decision.antt =====
-- The decision of crates/archiv-sampling/src/lib.rs: buckets, bounds, untraced records.
use archiv_agent.Base.{
  ℕ, ◌%◌, ◌≤◌, ◌<◌, ◌≡◌, ◌∙◌, ap, arith, true, false, ltb, [], ◌∷◌, ◌++◌, append_assoc,
}
use archiv_agent.Wire.{Bytes}
use archiv_agent.Sampling.{XxHash, IsStreaming, seed, keep, bucket, fallback_key, keep_untraced}

module _ (x : XxHash) where
  -- A traced record is kept exactly when its bucket, a number below 100, is below the target; so a
  -- target of 0 drops everything and one of 100 or more keeps everything.
  pub keep-bucket :
      (id : Bytes) (target : ℕ)
      → (keep x id target ≡ ltb (bucket x id) target)
        × (bucket x id < 100)
        × (keep x id 0 ≡ false)
        × (100 ≤ target → keep x id target ≡ true)
  unfolding keep bucket
  keep-bucket id target =
      let e : x.xxh64 id seed % 100 % 256 ≡ x.xxh64 id seed % 100 = omega arith in
      (rw e, omega arith, ground arith, λ h. ground arith)

  -- Raising the target never drops a record that was kept, traced or not: the kept sets are nested.
  pub keep_monotone :
      (id service body : Bytes) (low high : ℕ)
      → low ≤ high
      → (keep x id low ≡ true → keep x id high ≡ true)
        × (keep_untraced x service body low ≡ true → keep_untraced x service body high ≡ true)
  unfolding keep keep_untraced
  keep_monotone id service body low high h = (λ k. ground arith, λ k. ground arith)

  -- With a hasher that hashes its pieces as one text, the key of an untraced record is the hash of
  -- the service name, a zero byte and the body; so the streamed decision is the decision of `keep`
  -- on that text.
  pub keep_untraced-keep :
      IsStreaming x
      → (service body : Bytes) (target : ℕ)
      → (fallback_key x service body ≡ x.xxh64 (service ++ 0 ∷ body) seed)
        × (keep_untraced x service body target ≡ keep x (service ++ 0 ∷ body) target)
  unfolding keep keep_untraced fallback_key
  keep_untraced-keep law service body target = (streamed, ap (λ h. ltb (h % 100) target) streamed)
    where
      streamed : fallback_key x service body ≡ x.xxh64 (service ++ 0 ∷ body) seed
      streamed =
          ap x.digest (
            ap (x.update body) (law.pieces service (0 ∷ []) (x.new seed))
            ∙ law.pieces (service ++ 0 ∷ []) body (x.new seed)
            ∙ ap (λ t. x.update t (x.new seed)) (append_assoc service (0 ∷ []) body))
          ∙ law.one_shot (service ++ 0 ∷ body) seed
