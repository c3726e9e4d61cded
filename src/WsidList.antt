-- ===== src/WsidList.antt =====
-- plugins/xfpga/wsid_list.c: the hash table of workspace ids that the plugin keeps for its shared
-- buffers and its MMIO regions. A bucket is the list of its entries, in the order of `next`.
pub mod View
pub mod Ops
pub mod Index
pub mod Added
mod Tests
use opae_libs.Prelude.{
  ℕ, zero, suc, ◌%◌, Bool, true, false, ◌||◌, Option, none, some, List, [], ◌∷◌, ◌++◌,
}
use opae_libs.Prelude.{u32, ltb, ◌==◌, if◌then◌else◌, get_or, set, replicate}

pub record WsidMap : Type 0 where
  pub wsid : ℕ
  pub addr : ℕ
  pub phys : ℕ
  pub len : ℕ
  pub offset : ℕ
  pub index : ℕ
  pub flags : ℕ

pub record WsidTracker : Type 0 where
  pub n_hash_buckets : ℕ
  pub table : List (List WsidMap)

-- The Booleans are whether `malloc` and `calloc` succeed; `none` is NULL.
unfoldable pub wsid_tracker_init : Bool → Bool → ℕ → Option WsidTracker
wsid_tracker_init has_root has_table n =
    if n == 0 || ltb 16384 n
    then none
    else if has_root
    then if has_table then some (record { n_hash_buckets = n; table = replicate n [] }) else none
    else none

abbrev pub wsid_hash : WsidTracker → ℕ → ℕ
wsid_hash root wsid = wsid % 17659 % root.n_hash_buckets

-- `root->table[idx]`; an index out of range, which `View` rules out, reads as an empty bucket.
abbrev pub bucket : WsidTracker → ℕ → List WsidMap
bucket root idx = get_or root.table idx []

-- The node that is filled in from the arguments: the field `index` is a `uint32_t`, the argument a
-- `uint64_t`.
abbrev pub stored : WsidMap → WsidMap
stored args = record args { index = u32 args.index }

-- The record holds the arguments; the Boolean is whether `malloc` gives a node.
unfoldable pub wsid_add : Bool → WsidTracker → WsidMap → Bool × WsidTracker
wsid_add false root args = (false, root)
wsid_add true root args =
    let idx = wsid_hash root args.wsid in
    (true, record root { table = set root.table idx (stored args ∷ bucket root idx) })

-- The loop that looks for the entry behind `tmp`: what stands from `tmp` on without it.
del_next : ℕ → WsidMap → List WsidMap → Option (List WsidMap)
del_next wsid tmp [] = none
del_next wsid tmp (tmp2 ∷ rest) =
    if tmp2.wsid == wsid
    then some (tmp ∷ rest)
    else elim (del_next wsid tmp2 rest) [ none ↦ none | some kept ↦ some (tmp ∷ kept) ]

del_bucket : ℕ → List WsidMap → Option (List WsidMap)
unfolding del_next
del_bucket wsid [] = none
del_bucket wsid (tmp ∷ rest) = if tmp.wsid == wsid then some rest else del_next wsid tmp rest

unfoldable pub wsid_del : WsidTracker → ℕ → Bool × WsidTracker
unfolding del_bucket
wsid_del root wsid =
    let idx = wsid_hash root wsid in
    elim (del_bucket wsid (bucket root idx)) [
      | none ↦ (false, root)
      | some kept ↦ (true, record root { table = set root.table idx kept })
    ]

find_in : ℕ → List WsidMap → Option WsidMap
find_in wsid [] = none
find_in wsid (tmp ∷ rest) = if tmp.wsid == wsid then some tmp else find_in wsid rest

unfoldable pub wsid_find : WsidTracker → ℕ → Option WsidMap
unfolding find_in
wsid_find root wsid = find_in wsid (bucket root (wsid_hash root wsid))

index_in : ℕ → List WsidMap → Option WsidMap
index_in index [] = none
index_in index (tmp ∷ rest) = if tmp.index == index then some tmp else index_in index rest

-- `for (idx = 0; idx < root->n_hash_buckets; idx += 1)`, with the rounds left.
index_from : WsidTracker → ℕ → ℕ → ℕ → Option WsidMap
unfolding index_in
index_from root index zero idx = none
index_from root index (suc left) idx =
    let rest = index_from root index left (suc idx) in
    elim (index_in index (bucket root idx)) [ none ↦ rest | some tmp ↦ some tmp ]

unfoldable pub wsid_find_by_index : WsidTracker → ℕ → Option WsidMap
unfolding index_from
wsid_find_by_index root index = index_from root index root.n_hash_buckets 0

-- The entries that `wsid_tracker_cleanup` frees, in the order in which it passes them to `clean`.
cleanup_from : WsidTracker → ℕ → ℕ → List WsidMap
cleanup_from root zero idx = []
cleanup_from root (suc left) idx = bucket root idx ++ cleanup_from root left (suc idx)

-- What `clean` is called with: nothing for a NULL tracker or a NULL `clean`.
unfoldable pub wsid_tracker_cleanup : Option WsidTracker → Bool → List WsidMap
unfolding cleanup_from
wsid_tracker_cleanup none has_clean = []
wsid_tracker_cleanup (some root) has_clean =
    if has_clean then cleanup_from root root.n_hash_buckets 0 else []
