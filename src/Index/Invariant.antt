-- ===== src/Index/Invariant.antt =====
-- The invariant of the bucket array, and what a write to one bucket does to it.
use cpp_unordered_map.Prelude.{
  ℕ, ◌+◌, ◌*◌, ◌%◌, ◌^◌, ◌≤◌, ◌<◌, ◌≡◌, refl, ◌⊎◌, inl, inr, Option, some, max, arith, to_nat,
  ==-cases, update, List, length, count, true, ◌≢◌,
}
use mathlib.Core.Path.{subst, sym}
use cpp_unordered_map.Index.{Bucket, Index, home_from_hash, write_bucket}
use cpp_unordered_map.Index.Ring.{next, prev, offset, IsSized, bucket_count_bounds}
use cpp_unordered_map.Index.Order.{df, IsOrdered, update-IsOrdered}
use cpp_unordered_map.Index.Census.{
  is_occupied, is_node, occupied, copies, tally-update, tally_gap, tally_pos, tally_witness,
}

-- What a bucket must hold for an element with this hash to stand at `i`: the steps from its home,
-- counted from one, above the low byte of the hash.
unfoldable pub slot_df : Index → ℕ → ℕ → ℕ
slot_df t hash i = 256 * (offset t.bucket_count (home_from_hash t hash) i + 1) + hash % 256

-- A bucket at `i` is empty or holds what the hash of its node puts there.
abbrev pub Stands : Index → (ℕ → ℕ) → ℕ → Bucket → Type 0
Stands t hash_of i b =
    (b.dist_and_fingerprint ≡ 0) ⊎ (b.dist_and_fingerprint ≡ slot_df t (hash_of b.node_index) i)

-- `hash_of` gives the mixed hash of the key at a node.
pub record IsRobinHood (hash_of : ℕ → ℕ) (t : Index) : Type 0 where
  pub sized : IsSized t
  pub hashed : (m : ℕ) → hash_of m < 2 ^ 64
  pub ordered : IsOrdered t.bucket_count t.buckets
  pub placed : (i : ℕ) → i < t.bucket_count → Stands t hash_of i (t.buckets i)

pub slot_df-write :
    (t : Index) (j : ℕ) (v : Bucket) (hash i : ℕ)
    → slot_df (write_bucket t j v) hash i ≡ slot_df t hash i
unfolding slot_df home_from_hash
slot_df-write t j v hash i = refl

module _ (t : Index) (i : ℕ) (v : Bucket) where
  -- A write keeps the invariant if it fits its neighbours and stands where its hash puts it.
  pub write_bucket-IsRobinHood :
      {hash_of : ℕ → ℕ}
      → IsRobinHood hash_of t
      → i < t.bucket_count
      → v.dist_and_fingerprint ≤ max (df t.buckets (prev t.bucket_count i)) 255 + 256
      → df t.buckets (next t.bucket_count i) ≤ max v.dist_and_fingerprint 255 + 256
      → Stands t hash_of i v
      → IsRobinHood hash_of (write_bucket t i v)
  write_bucket-IsRobinHood {hash_of} inv hi fits follows stands = record {
    sized = record {
      bits = inv.sized.bits;
      least = inv.sized.least;
      most = inv.sized.most;
      count = inv.sized.count;
      shift = inv.sized.shift;
    };
    hashed = inv.hashed;
    ordered =
        let bounds = bucket_count_bounds t inv.sized in
        update-IsOrdered t.buckets i v inv.ordered hi (omega arith) fits follows;
    placed = λ q hq. elim (==-cases i q) [
      | inl e ↦ stand q v (ground arith) (rw e at stands)
      | inr apart ↦ stand q (t.buckets q) (ground arith) (inv.placed q hq)
    ];
  }
    where
      stand :
          (q : ℕ) (x : Bucket)
          → update t.buckets i v q ≡ x
          → Stands t hash_of q x
          → Stands (write_bucket t i v) hash_of q (update t.buckets i v q)
      stand q x same h =
          subst (Stands (write_bucket t i v) hash_of q) (sym same)
            (rw (slot_df-write t i v (hash_of x.node_index) q) h)

  -- The counts after a write.
  pub copies-write :
      (m : ℕ)
      → i < t.bucket_count
      → copies (write_bucket t i v) m + to_nat (is_node m (t.buckets i))
        ≡ copies t m + to_nat (is_node m v)
  unfolding copies
  copies-write m h = tally-update (is_node m) t.buckets i t.bucket_count v h

  pub occupied-write :
      i < t.bucket_count
      → occupied (write_bucket t i v) + to_nat (is_occupied (t.buckets i))
        ≡ occupied t + to_nat (is_occupied v)
  unfolding occupied
  occupied-write h = tally-update is_occupied t.buckets i t.bucket_count v h

-- An array that is not full has an empty bucket.
pub empty_witness :
    (t : Index)
    → occupied t < t.bucket_count
    → (e : ℕ) × (e < t.bucket_count) × (df t.buckets e ≡ 0)
unfolding occupied
empty_witness t h =
    let (e, l, p) = tally_gap is_occupied t.buckets t.bucket_count h in (e, l, ground arith)

-- A run of a loop that ends within its fuel, in a result with the property.
abbrev pub Returns {ℓ κ} : {A : Type ℓ} → Option A → (A → Type κ) → Type (ℓ ⊔ κ)
Returns {A} r P = (a : A) × (r ≡ some a) × P a

-- The array holds the nodes of a list, each as often as the list does, and nothing else.
pub record Holds (hash_of : ℕ → ℕ) (nodes : List ℕ) (t : Index) : Type 0 where
  pub valid : IsRobinHood hash_of t
  pub copied : (x : ℕ) → copies t x ≡ count x nodes
  pub filled : occupied t ≡ length nodes
  pub roomy : length nodes < t.bucket_count

module _ {hash_of : ℕ → ℕ} {nodes : List ℕ} {t : Index} (h : Holds hash_of nodes t) where
  -- An occupied bucket holds a node of the list.
  pub Holds-mem :
      (i : ℕ) → i < t.bucket_count → df t.buckets i ≢ 0 → 0 < count (t.buckets i).node_index nodes
  unfolding copies
  Holds-mem i hi nz =
      let m = (t.buckets i).node_index in
      let test : is_node m (t.buckets i) ≡ true = ground arith in
      omega (arith, h.copied m, tally_pos (is_node m) t.buckets i t.bucket_count hi test)

  -- A node of the list stands in some bucket, where its hash puts it.
  pub Holds-slot :
      (x : ℕ)
      → 0 < count x nodes
      → (i : ℕ) × (i < t.bucket_count)
        × ((t.buckets i).node_index ≡ x)
        × (df t.buckets i ≡ slot_df t (hash_of x) i)
  unfolding copies
  Holds-slot x p =
      let (i, hi, test) =
        tally_witness (is_node x) t.buckets t.bucket_count (omega (arith, h.copied x)) in
      let same : (t.buckets i).node_index ≡ x = ground arith in
      let nz : df t.buckets i ≢ 0 = ground arith in
      let stands : df t.buckets i ≡ slot_df t (hash_of (t.buckets i).node_index) i =
        ground (arith, h.valid.placed i hi) in
      (i, hi, same, rw same at stands)

  -- The array depends on the hashes of its nodes alone.
  pub Holds-congr :
      (hash_of' : ℕ → ℕ)
      → ((m : ℕ) → hash_of' m < 2 ^ 64)
      → ((x : ℕ) → 0 < count x nodes → hash_of x ≡ hash_of' x)
      → Holds hash_of' nodes t
  Holds-congr hash_of' hashed' same = record {
    valid = record {
      sized = h.valid.sized;
      hashed = hashed';
      ordered = h.valid.ordered;
      placed = λ i hi. elim (==-cases (df t.buckets i) 0) [
        | inl z ↦ inl z
        | inr nz ↦
            let e = same (t.buckets i).node_index (Holds-mem i hi (ground arith)) in
            rw e at (h.valid.placed i hi)
      ];
    };
    copied = h.copied;
    filled = h.filled;
    roomy = h.roomy;
  }
