-- ===== src/WsidList/Added.antt =====
-- The search by index after an entry was added.
use opae_libs.Prelude.{ℕ, zero, suc, true, Option, none, some, List, [], ◌∷◌, ◌++◌}
use opae_libs.Prelude.{◌≡◌, ◌≢◌, refl, ap, ◌==◌, get_or, ◌∙◌, get_or-set_self, u32}
use mathlib.Core.Path.{subst}
use opae_libs.Prelude.{All, All-append, Bool-cases, inl, inr, ◌⊎◌}
use opae_libs.WsidList.{WsidMap, WsidTracker, wsid_hash, bucket, wsid_add, stored}
use opae_libs.WsidList.{wsid_find_by_index}
use opae_libs.WsidList.View.{IsValid, wsid_hash-lt, bucket-set}
use opae_libs.WsidList.Ops.{wsid_add_lem}
use opae_libs.WsidList.Index.{entries_of, entries, FirstWith, wsid_find_by_index_lem}

bucket-add :
    (root : WsidTracker) (tmp : WsidMap)
    → IsValid root
    → get_or (wsid_add true root tmp).1.table (wsid_hash root tmp.wsid) []
      ≡ stored tmp ∷ bucket root (wsid_hash root tmp.wsid)
unfolding wsid_add
bucket-add root tmp v = get_or-set_self root.table _ _ [] (wsid_hash-lt tmp.wsid v)

All-parts : (P : WsidMap → Type 0) (es fs : List WsidMap) → All P (es ++ fs) → All P es × All P fs
All-parts P [] fs h = (tt, h)
All-parts P (e ∷ es) fs h = let (k, r) = All-parts P es fs h.1 in ((h.0, k), r)

All-bucket :
    (P : WsidMap → Type 0) (table : List (List WsidMap)) (i : ℕ)
    → All P (entries_of table)
    → All P (get_or table i [])
All-bucket P [] i h = tt
All-bucket P (es ∷ table) zero h = (All-parts P es (entries_of table) h).0
All-bucket P (es ∷ table) (suc i) h = All-bucket P table i (All-parts P es (entries_of table) h).1

-- After an entry is added, a search by the 32 low bits of its index finds an entry.
pub wsid_add-find_by_index :
    (root : WsidTracker) (tmp : WsidMap)
    → IsValid root
    → wsid_find_by_index (wsid_add true root tmp).1 (u32 tmp.index) ≢ none
wsid_add-find_by_index root tmp v h =
    let root' = (wsid_add true root tmp).1 in
    let found = wsid_find_by_index_lem root' (u32 tmp.index) (wsid_add_lem root tmp v).1 in
    let missing : All (λ e. e.index ≢ u32 tmp.index) (entries root') =
      subst (FirstWith (u32 tmp.index) (entries root')) h found in
    (rw (bucket-add root tmp v) at
        (All-bucket (λ e. e.index ≢ u32 tmp.index) root'.table (wsid_hash root tmp.wsid) missing)).0
      refl

All-map :
    (P Q : WsidMap → Type 0) (es : List WsidMap) → ((e : WsidMap) → P e → Q e) → All P es → All Q es
All-map P Q [] f h = tt
All-map P Q (e ∷ es) f h = (f e h.0, All-map P Q es f h.1)

All-entries :
    (P : WsidMap → Type 0) (table : List (List WsidMap))
    → ((i : ℕ) → All P (get_or table i []))
    → All P (entries_of table)
All-entries P [] h = tt
All-entries P (es ∷ table) h =
    All-append P es (entries_of table) (h 0) (All-entries P table (λ i. h (suc i)))

found_in :
    (P : WsidMap → Type 0) (es : List WsidMap) (index : ℕ) (found : WsidMap)
    → All P es
    → FirstWith index es (some found)
    → P found
found_in P es index found h (_, before, after, e, _) =
    (All-parts P before (found ∷ after) (subst (All P) e h)).1.0

abbrev NewOrOld : WsidMap → ℕ → WsidMap → Type 0
NewOrOld new index e = (e ≡ new) ⊎ (e.index ≢ index)

-- Of a tracker to which an entry was added: any other entry has another index.
added-NewOrOld :
    (root : WsidTracker) (tmp : WsidMap)
    → IsValid root
    → wsid_find_by_index root (u32 tmp.index) ≡ none
    → All (NewOrOld (stored tmp) (u32 tmp.index)) (entries (wsid_add true root tmp).1)
unfolding wsid_add
added-NewOrOld root tmp v h = All-entries P (wsid_add true root tmp).1.table in_bucket
  where
    P : WsidMap → Type 0
    P e = NewOrOld (stored tmp) (u32 tmp.index) e

    idx : ℕ
    idx = wsid_hash root tmp.wsid

    old : (i : ℕ) → All P (bucket root i)
    old i =
        All-map (λ e. e.index ≢ u32 tmp.index) P (bucket root i) (λ e n. inr n)
          (All-bucket (λ e. e.index ≢ u32 tmp.index) root.table i
            (subst (FirstWith (u32 tmp.index) (entries root)) h
              (wsid_find_by_index_lem root (u32 tmp.index) v)))

    in_bucket : (i : ℕ) → All P (bucket (wsid_add true root tmp).1 i)
    in_bucket i =
        rw (bucket-set root idx i (stored tmp ∷ bucket root idx) (wsid_hash-lt tmp.wsid v))
          (elim (Bool-cases (idx == i)) [ inl e ↦ rw e (inl refl, old idx) | inr e ↦ rw e (old i) ])

-- In a valid tracker in which the search by an index finds nothing, an entry that is added with the
-- index is the one that the search then finds.
pub wsid_add-find_by_index_new :
    (root : WsidTracker) (tmp : WsidMap)
    → IsValid root
    → wsid_find_by_index root (u32 tmp.index) ≡ none
    → wsid_find_by_index (wsid_add true root tmp).1 (u32 tmp.index) ≡ some (stored tmp)
wsid_add-find_by_index_new root tmp v h =
    by_result (wsid_find_by_index (wsid_add true root tmp).1 (u32 tmp.index)) refl
  where
    root' : WsidTracker
    root' = (wsid_add true root tmp).1

    by_result :
        (o : Option WsidMap)
        → wsid_find_by_index root' (u32 tmp.index) ≡ o
        → wsid_find_by_index root' (u32 tmp.index) ≡ some (stored tmp)
    by_result none e = absurd (wsid_add-find_by_index root tmp v e)
    by_result (some found) e =
        let first : FirstWith (u32 tmp.index) (entries root') (some found) =
          subst (FirstWith (u32 tmp.index) (entries root')) e
            (wsid_find_by_index_lem root' (u32 tmp.index) (wsid_add_lem root tmp v).1) in
        elim (found_in _ (entries root') (u32 tmp.index) found (added-NewOrOld root tmp v h)
          first) [ inl new ↦ e ∙ ap some new | inr other ↦ absurd (other first.0) ]
