-- ===== src/NonceCache.antt =====
-- subduction_core/src/nonce_cache.rs. The mutex is held through `try_claim`, so a claim is one step.
pub mod Window
pub mod Replay
use Prim.Derive.{×_discrete}
use subduction.Codec.{Result, ok, err}
use subduction.Collections.Set.{contains, insert}
use subduction.Prelude.{ℕ}
use subduction.Prelude.{
  zero, suc, ◌+◌, ◌-◌, ◌/◌, ◌%◌, Bool, List, [], ◌∷◌, if◌then◌else◌, Eq, ◌==◌, nat_eq, any, Bytes,
  bytes_eq, Bytes-discrete, bytes_list_eq,
}

-- `(PeerId, Nonce)`
abbrev pub Key : Type 0
Key = Bytes × Bytes

instance abbrev pub key_eq : Eq Key
key_eq = record { dec = ×_discrete Bytes-discrete Bytes-discrete }

abbrev pub bucket_count : ℕ
bucket_count = 4

pub data NonceReused : Type 0 where
  nonce_reused : NonceReused

-- The array of sets is a function of the index.
pub record NonceCache : Type 0 where
  pub buckets : ℕ → List Key
  pub head : ℕ
  pub bucket_duration_secs : ℕ

unfoldable pub new : ℕ → NonceCache
new bucket_duration = record { buckets = λ i. []; head = 0; bucket_duration_secs = bucket_duration }

-- `buckets[idx] = keys`
unfoldable pub set_bucket : (ℕ → List Key) → ℕ → List Key → ℕ → List Key
set_bucket buckets idx keys i = if idx == i then keys else buckets i

-- A zero duration makes the division panic; `new` is called with three minutes.
unfoldable pub bucket_number : NonceCache → ℕ → ℕ
bucket_number self ts = ts / self.bucket_duration_secs

unfoldable pub bucket_index : ℕ → ℕ
bucket_index bucket_num = bucket_num % bucket_count

-- The loop of `advance_head`, which runs `oldest_valid - head` times.
unfoldable pub clear_from : ℕ → ℕ → (ℕ → List Key) → ℕ → List Key
clear_from zero head buckets = buckets
clear_from (suc n) head buckets =
    clear_from n (suc head) (set_bucket buckets (bucket_index head) [])

-- `saturating_sub` is the subtraction of ℕ.
unfoldable pub advance_head : NonceCache → ℕ → NonceCache
advance_head self current_bucket =
    let oldest_valid = current_bucket - (bucket_count - 1) in
    record {
      buckets = clear_from (oldest_valid - self.head) self.head self.buckets;
      head = self.head + (oldest_valid - self.head);
      bucket_duration_secs = self.bucket_duration_secs;
    }

-- `for bucket in &inner.buckets { if bucket.contains(&key) … }`
unfoldable pub any_bucket : (ℕ → List Key) → Key → Bool
any_bucket buckets key = any (λ i. contains (buckets i) key) (0 ∷ 1 ∷ 2 ∷ 3 ∷ [])

-- The state after the call, and its result.
unfoldable pub try_claim :
    NonceCache → Bytes → Bytes → ℕ → NonceCache × Result NonceReused (Unit {0})
try_claim self peer nonce timestamp =
    let key : Key = (peer, nonce) in
    let bucket_num = bucket_number self timestamp in
    let inner = advance_head self bucket_num in
    let idx = bucket_index bucket_num in
    if any_bucket inner.buckets key then (inner, err nonce_reused) else (
      record {
        buckets = set_bucket inner.buckets idx (insert (inner.buckets idx) key).0;
        head = inner.head;
        bucket_duration_secs = inner.bucket_duration_secs;
      },
      ok tt,
    )
