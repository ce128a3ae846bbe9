-- ===== src/Sampling.antt =====
-- The sampling decision of crates/archiv-sampling/src/lib.rs. The hash is xxHash64 of a third-party
-- crate: a parameter, with its one-shot and its streaming form.
pub mod Policy
pub mod Decision
use archiv_agent.Base.{ℕ, ◌+◌, ◌%◌, ◌≡◌, List, [], ◌∷◌, ◌++◌, Bool, ltb}
use archiv_agent.Wire.{Bytes}

-- `xxhash_rust::xxh64`: a one-shot hash, and a hasher that is fed in pieces.
pub record XxHash : Type 1 where
  pub Hasher : Type 0
  pub xxh64 : Bytes → ℕ → ℕ
  pub new : ℕ → Hasher
  pub update : Bytes → Hasher → Hasher
  pub digest : Hasher → ℕ

-- The documented contract of the streaming form: the pieces count as one text.
pub record IsStreaming (x : XxHash) : Type 1 where
  pub one_shot :
      (text : Bytes) (seed : ℕ) → x.digest (x.update text (x.new seed)) ≡ x.xxh64 text seed
  pub pieces : (a b : Bytes) (h : x.Hasher) → x.update b (x.update a h) ≡ x.update (a ++ b) h

abbrev pub seed : ℕ
seed = 0

module _ (x : XxHash) where
  unfoldable pub keep : Bytes → ℕ → Bool
  keep trace_id target_pct = ltb (x.xxh64 trace_id seed % 100) target_pct

  -- `(… % 100) as u8`
  unfoldable pub bucket : Bytes → ℕ
  bucket trace_id = x.xxh64 trace_id seed % 100 % 256

  unfoldable pub fallback_key : Bytes → Bytes → ℕ
  fallback_key service_name body =
      let h = x.new seed in
      let h1 = x.update service_name h in
      let h2 = x.update (0 ∷ []) h1 in let h3 = x.update body h2 in x.digest h3

  unfoldable pub keep_untraced : Bytes → Bytes → ℕ → Bool
  keep_untraced service_name body target_pct = ltb (fallback_key service_name body % 100) target_pct
