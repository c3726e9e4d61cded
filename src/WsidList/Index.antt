-- ===== src/WsidList/Index.antt =====
-- The two walks over the whole table: `wsid_find_by_index` and `wsid_tracker_cleanup`.
use opae_libs.Prelude.{ℕ, suc, ◌+◌, true, Option, none, some, List, [], ◌∷◌, ◌++◌}
use opae_libs.Prelude.{◌≡◌, ◌≢◌, refl, ap, arith, ◌==◌, get_or, length, ◌∙◌, sym}
use mathlib.Core.Path.{subst}
use opae_libs.Prelude.{All, All-append, Bool-cases, ==_iff, inl, inr}
use mathlib.Core.List.{append_assoc}
use opae_libs.WsidList.{WsidMap, WsidTracker, bucket, index_in, index_from}
use opae_libs.WsidList.{wsid_find_by_index, cleanup_from, wsid_tracker_cleanup}
use opae_libs.WsidList.View.{IsValid}

-- The entries of a list of buckets, in order.
abbrev pub entries_of : List (List WsidMap) → List WsidMap
entries_of [] = []
entries_of (es ∷ table) = es ++ entries_of table

abbrev pub entries : WsidTracker → List WsidMap
entries root = entries_of root.table

-- The first entry of a list with an index, or none if no entry has it.
abbrev pub FirstWith : ℕ → List WsidMap → Option WsidMap → Type 0
FirstWith index es none = All (λ e. e.index ≢ index) es
FirstWith index es (some found) =
    (found.index ≡ index)
    × (before : List WsidMap) × (after : List WsidMap) × (es ≡ before ++ found ∷ after)
    × All (λ e. e.index ≢ index) before

FirstWith-behind :
    (index : ℕ) (front es : List WsidMap) (o : Option WsidMap)
    → All (λ e. e.index ≢ index) front
    → FirstWith index es o
    → FirstWith index (front ++ es) o
FirstWith-behind index front es none h f = All-append _ front es h f
FirstWith-behind index front es (some found) h (is, before, after, e, others) =
    (is, front ++ before, after, rw (e, append_assoc) refl, All-append _ front before h others)

FirstWith-before :
    (index : ℕ) (es behind : List WsidMap) (found : WsidMap)
    → FirstWith index es (some found)
    → FirstWith index (es ++ behind) (some found)
FirstWith-before index es behind found (is, before, after, e, others) =
    (is, before, after ++ behind, rw (e, append_assoc) refl, others)

index_in-FirstWith : (index : ℕ) (es : List WsidMap) → FirstWith index es (index_in index es)
unfolding index_in
index_in-FirstWith index [] = tt
index_in-FirstWith index (e ∷ es) = elim (Bool-cases (e.index == index)) [
  | inl k ↦ rw k ((==_iff _ _).0 k, [], es, refl, tt)
  | inr k ↦ rw k (
      FirstWith-behind index (e ∷ []) es (index_in index es) (ground arith, tt)
        (index_in-FirstWith index es))
]

-- The buckets from `idx` on.
abbrev FromBucket : WsidTracker → ℕ → List (List WsidMap) → Type 0
FromBucket root idx table = (j : ℕ) → get_or table j [] ≡ bucket root (idx + j)

FromBucket-suc :
    (root : WsidTracker) (idx : ℕ) (es : List WsidMap) (table : List (List WsidMap))
    → FromBucket root idx (es ∷ table)
    → FromBucket root (suc idx) table
FromBucket-suc root idx es table h j = h (suc j) ∙ ap (bucket root) (omega arith)

FromBucket-zero :
    (root : WsidTracker) (idx : ℕ) (es : List WsidMap) (table : List (List WsidMap))
    → FromBucket root idx (es ∷ table)
    → bucket root idx ≡ es
FromBucket-zero root idx es table h = ap (bucket root) (omega arith) ∙ sym (h 0)

FirstWith-step :
    (index : ℕ) (es : List WsidMap) (table : List (List WsidMap)) (o r : Option WsidMap)
    → FirstWith index es o
    → FirstWith index (entries_of table) r
    → FirstWith index (es ++ entries_of table) (elim o [ none ↦ r | some tmp ↦ some tmp ])
FirstWith-step index es table none r f g = FirstWith-behind index es (entries_of table) r f g
FirstWith-step index es table (some tmp) r f g = FirstWith-before index es (entries_of table) tmp f

index_from-FirstWith :
    (root : WsidTracker) (index idx : ℕ) (table : List (List WsidMap))
    → FromBucket root idx table
    → FirstWith index (entries_of table) (index_from root index (length table) idx)
unfolding index_from
index_from-FirstWith root index idx [] h = tt
index_from-FirstWith root index idx (es ∷ table) h =
    FirstWith-step index es table (index_in index (bucket root idx))
      (index_from root index (length table) (suc idx))
      (subst (λ bs. FirstWith index bs (index_in index (bucket root idx)))
        (FromBucket-zero root idx es table h) (index_in-FirstWith index (bucket root idx)))
      (index_from-FirstWith root index (suc idx) table (FromBucket-suc root idx es table h))

FromBucket-all : (root : WsidTracker) → FromBucket root 0 root.table
FromBucket-all root j = ap (bucket root) (omega arith)

-- The search by index in a valid tracker gives the first entry of the whole table with the index,
-- in the order of the buckets, and NULL exactly if no entry has it.
pub wsid_find_by_index_lem :
    (root : WsidTracker) (index : ℕ)
    → IsValid root
    → FirstWith index (entries root) (wsid_find_by_index root index)
unfolding wsid_find_by_index
wsid_find_by_index_lem root index v =
    rw (← v.all_there) (index_from-FirstWith root index 0 root.table (FromBucket-all root))

cleanup_from-entries :
    (root : WsidTracker) (idx : ℕ) (table : List (List WsidMap))
    → FromBucket root idx table
    → cleanup_from root (length table) idx ≡ entries_of table
unfolding cleanup_from
cleanup_from-entries root idx [] h = refl
cleanup_from-entries root idx (es ∷ table) h = rw (
  FromBucket-zero root idx es table h,
  cleanup_from-entries root (suc idx) table (FromBucket-suc root idx es table h),
)

-- The clean-up of a valid tracker, with a callback, passes the entries of the whole table to it,
-- each once, bucket by bucket.
pub wsid_tracker_cleanup_lem :
    (root : WsidTracker) → IsValid root → wsid_tracker_cleanup (some root) true ≡ entries root
unfolding wsid_tracker_cleanup
wsid_tracker_cleanup_lem root v =
    rw (← v.all_there) (cleanup_from-entries root 0 root.table (FromBucket-all root))
