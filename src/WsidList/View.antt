-- ===== src/WsidList/View.antt =====
-- What the table means: for each id the entries with it, the newest first.
use opae_libs.Prelude.{ℕ, zero, suc, ◌%◌, ◌≤◌, ◌<◌, Bool, true, false, Option, none, some, List}
use opae_libs.Prelude.{[], ◌∷◌, ◌≡◌, refl, arith, ◌==◌, if◌then◌else◌, get_or, set, length}
use opae_libs.Prelude.{replicate, length-set, length-replicate, get_or-set_self, get_or-set_ne, All}
use opae_libs.Prelude.{Bool-cases, ==_iff, inl, inr}
use native.Mathlib.Nat.{mod-lt}
use opae_libs.WsidList.{WsidMap, WsidTracker, wsid_tracker_init, wsid_hash, bucket}

-- The table has its buckets, and each entry is in the bucket of its id.
pub record IsValid (root : WsidTracker) : Type 0 where
  pub some_buckets : 0 < root.n_hash_buckets
  pub few_buckets : root.n_hash_buckets ≤ 16384
  pub all_there : length root.table ≡ root.n_hash_buckets
  pub hashed : (i : ℕ) → All (λ e. wsid_hash root e.wsid ≡ i) (bucket root i)

-- The entries of a bucket with an id.
abbrev pub with_wsid : ℕ → List WsidMap → List WsidMap
with_wsid wsid [] = []
with_wsid wsid (e ∷ es) = if e.wsid == wsid then e ∷ with_wsid wsid es else with_wsid wsid es

abbrev pub view : WsidTracker → ℕ → List WsidMap
view root wsid = with_wsid wsid (bucket root (wsid_hash root wsid))

abbrev pub first : List WsidMap → Option WsidMap
first [] = none
first (e ∷ es) = some e

abbrev pub rest : List WsidMap → List WsidMap
rest [] = []
rest (e ∷ es) = es

abbrev pub has_any : List WsidMap → Bool
has_any [] = false
has_any (e ∷ es) = true

-- Every access to the table is in range.
pub wsid_hash-lt :
    {root : WsidTracker} (wsid : ℕ) → IsValid root → wsid_hash root wsid < length root.table
wsid_hash-lt {root} wsid v =
    omega (arith, mod-lt (wsid % 17659) {m = root.n_hash_buckets} v.some_buckets, v.all_there)

get_or-replicate : (n i : ℕ) → get_or {A = List WsidMap} (replicate n []) i [] ≡ []
get_or-replicate zero i = refl
get_or-replicate (suc n) zero = refl
get_or-replicate (suc n) (suc i) = get_or-replicate n i

-- A tracker that the initialisation returns is valid, has the number of buckets asked for, and
-- holds nothing.
pub wsid_tracker_init-IsValid :
    (has_root has_table : Bool) (n : ℕ) {root : WsidTracker}
    → wsid_tracker_init has_root has_table n ≡ some root
    → IsValid root × (root.n_hash_buckets ≡ n) × ((wsid : ℕ) → view root wsid ≡ [])
unfolding wsid_tracker_init
wsid_tracker_init-IsValid false has_table n e = absurd (ground arith)
wsid_tracker_init-IsValid true false n e = absurd (ground arith)
wsid_tracker_init-IsValid true true n {root} e =
    let made : root ≡ record { n_hash_buckets = n; table = replicate n [] } = ground arith in
    rw made (
      record {
        some_buckets = ground arith;
        few_buckets = ground arith;
        all_there = length-replicate n [];
        hashed = λ i. rw (get_or-replicate n i) tt;
      },
      refl,
      λ wsid. rw (get_or-replicate n (wsid % 17659 % n)) refl,
    )

-- A bucket after a write to another or to the same.
pub bucket-set :
    (root : WsidTracker) (idx i : ℕ) (es : List WsidMap)
    → idx < length root.table
    → bucket (record root { table = set root.table idx es }) i
      ≡ (if idx == i then es else bucket root i)
bucket-set root idx i es h = elim (Bool-cases (idx == i)) [
  | inl e ↦
      let same : i ≡ idx = omega (arith, (==_iff idx i).0 e) in
      rw (e, same) (get_or-set_self root.table idx es [] h)
  | inr e ↦ rw e (get_or-set_ne root.table idx i es [] (ground arith))
]

-- A write of entries that hash to the bucket keeps the table valid.
pub set-IsValid :
    {root : WsidTracker} (idx : ℕ) (es : List WsidMap)
    → idx < length root.table
    → All (λ e. wsid_hash root e.wsid ≡ idx) es
    → IsValid root
    → IsValid (record root { table = set root.table idx es })
set-IsValid {root} idx es h hashes v = record {
  some_buckets = v.some_buckets;
  few_buckets = v.few_buckets;
  all_there = omega (arith, v.all_there, length-set root.table idx es);
  hashed = λ i. elim (Bool-cases (idx == i)) [
    | inl e ↦ rw (bucket-set root idx i es h, e) (rw (← (==_iff idx i).0 e) hashes)
    | inr e ↦ rw (bucket-set root idx i es h, e) (v.hashed i)
  ];
}
