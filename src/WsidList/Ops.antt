-- ===== src/WsidList/Ops.antt =====
-- `wsid_add`, `wsid_del` and `wsid_find` against the view: a stack of entries for each id.
use opae_libs.Prelude.{ℕ, Bool, true, false, Option, none, some, List}
use opae_libs.Prelude.{[], ◌∷◌, ◌≡◌, refl, ap, arith, ◌==◌, if◌then◌else◌, set}
use opae_libs.Prelude.{All, Bool-cases, ==_iff, inl, inr, ◌∙◌, sym}
use opae_libs.WsidList.{WsidMap, WsidTracker, wsid_hash, bucket, wsid_add, stored}
use opae_libs.WsidList.{del_next, del_bucket, wsid_del, find_in, wsid_find}
use opae_libs.WsidList.View.{
  IsValid, with_wsid, view, first, rest, has_any, wsid_hash-lt, bucket-set, set-IsValid,
}

module _ (root : WsidTracker) (wsid x : ℕ) (es : List WsidMap) where
  abbrev written : WsidTracker
  written = record root { table = set root.table (wsid_hash root wsid) es }

  -- The view after the bucket of `wsid` is written, when only entries of `wsid` change there.
  view-set :
      IsValid root
      → (same : List WsidMap → List WsidMap)
      → with_wsid x es ≡ (
          if wsid == x
          then same (with_wsid x (bucket root (wsid_hash root wsid)))
          else with_wsid x (bucket root (wsid_hash root wsid)))
      → view written x ≡ (if wsid == x then same (view root x) else view root x)
  view-set v same h = elim (Bool-cases (wsid_hash root wsid == wsid_hash root x)) [
    | inl e ↦
        rw (bucket-set root (wsid_hash root wsid) (wsid_hash root x) es (wsid_hash-lt wsid v), e)
          (rw (← (==_iff _ _).0 e) h)
    | inr e ↦
        rw (bucket-set root (wsid_hash root wsid) (wsid_hash root x) es (wsid_hash-lt wsid v), e)
          (rw (differ e) refl)
  ]
    where
      differ : (wsid_hash root wsid == wsid_hash root x) ≡ false → (wsid == x) ≡ false
      differ e = elim (Bool-cases (wsid == x)) [
        | inr f ↦ f
        | inl f ↦ absurd (ground (arith, ap (wsid_hash root) ((==_iff wsid x).0 f)))
      ]

-- When `malloc` succeeds, adding an entry to a valid tracker succeeds, puts the entry, its index
-- cut to 32 bits, on the stack of its id and touches no other; the tracker stays valid.
pub wsid_add_lem :
    (root : WsidTracker) (tmp : WsidMap)
    → IsValid root
    → let (added, root') = wsid_add true root tmp in
      (added ≡ true)
      × IsValid root'
      × ((x : ℕ) → view root' x ≡ (if tmp.wsid == x then stored tmp ∷ view root x else view root x))
unfolding wsid_add
wsid_add_lem root tmp v = (
  refl,
  set-IsValid (wsid_hash root tmp.wsid) _ (wsid_hash-lt tmp.wsid v)
      (refl, v.hashed (wsid_hash root tmp.wsid)) v,
  λ x.
      view-set root tmp.wsid x (stored tmp ∷ bucket root (wsid_hash root tmp.wsid)) v
        (λ es. stored tmp ∷ es) refl,
)

-- What a deletion leaves of a bucket.
abbrev Deleted : ℕ → List WsidMap → Option (List WsidMap) → Type 0
Deleted wsid es none = with_wsid wsid es ≡ []
Deleted wsid es (some kept) =
    (has_any (with_wsid wsid es) ≡ true)
    × ((x : ℕ) → with_wsid x kept ≡ (if wsid == x then rest (with_wsid x es) else with_wsid x es))

del_first :
    (wsid x : ℕ) (e : WsidMap) (es : List WsidMap)
    → (e.wsid == wsid) ≡ true
    → with_wsid x es ≡ (if wsid == x then rest (with_wsid x (e ∷ es)) else with_wsid x (e ∷ es))
del_first wsid x e es h =
    let same : e.wsid ≡ wsid = (==_iff _ _).0 h in
    elim (Bool-cases (wsid == x)) [ inl k ↦ rw (same, k) refl | inr k ↦ rw (same, k) refl ]

keep_first :
    (wsid x : ℕ) (e : WsidMap) (kept es : List WsidMap)
    → (e.wsid == wsid) ≡ false
    → with_wsid x kept ≡ (if wsid == x then rest (with_wsid x es) else with_wsid x es)
    → with_wsid x (e ∷ kept)
      ≡ (if wsid == x then rest (with_wsid x (e ∷ es)) else with_wsid x (e ∷ es))
keep_first wsid x e kept es h k = elim (Bool-cases (wsid == x)) [
  | inl f ↦
      let other : (e.wsid == x) ≡ false = rw (← (==_iff wsid x).0 f) h in rw (other, f) (rw f at k)
  | inr f ↦ let same : with_wsid x kept ≡ with_wsid x es = rw f at k in rw (f, same) refl
]

after_first :
    (wsid : ℕ) (e : WsidMap) (es : List WsidMap) (o : Option (List WsidMap))
    → (e.wsid == wsid) ≡ false
    → Deleted wsid es o
    → Deleted wsid (e ∷ es) (elim o [ none ↦ none | some kept ↦ some (e ∷ kept) ])
after_first wsid e es none h d = rw h d
after_first wsid e es (some kept) h d = (rw h d.0, λ x. keep_first wsid x e kept es h (d.1 x))

del_next-Deleted :
    (wsid : ℕ) (tmp : WsidMap) (es : List WsidMap)
    → (tmp.wsid == wsid) ≡ false
    → Deleted wsid (tmp ∷ es) (del_next wsid tmp es)
unfolding del_next
del_next-Deleted wsid tmp [] h = rw h refl
del_next-Deleted wsid tmp (e ∷ es) h = elim (Bool-cases (e.wsid == wsid)) [
  | inl k ↦
      rw k (after_first wsid tmp (e ∷ es) (some es) h (rw k refl, λ x. del_first wsid x e es k))
  | inr k ↦
      rw k (after_first wsid tmp (e ∷ es) (del_next wsid e es) h (del_next-Deleted wsid e es k))
]

del_bucket-Deleted : (wsid : ℕ) (es : List WsidMap) → Deleted wsid es (del_bucket wsid es)
unfolding del_bucket
del_bucket-Deleted wsid [] = refl
del_bucket-Deleted wsid (e ∷ es) = elim (Bool-cases (e.wsid == wsid)) [
  | inl k ↦ rw k (rw k refl, λ x. del_first wsid x e es k)
  | inr k ↦ rw k (del_next-Deleted wsid e es k)
]

-- What holds of every entry of a bucket holds of every entry that a deletion leaves.
abbrev AllKept : (WsidMap → Type 0) → Option (List WsidMap) → Type 0
AllKept P none = Unit {0}
AllKept P (some kept) = All P kept

after_first-AllKept :
    (P : WsidMap → Type 0) (e : WsidMap) (o : Option (List WsidMap))
    → P e
    → AllKept P o
    → AllKept P (elim o [ none ↦ none | some kept ↦ some (e ∷ kept) ])
after_first-AllKept P e none h k = tt
after_first-AllKept P e (some kept) h k = (h, k)

del_next-AllKept :
    (P : WsidMap → Type 0) (wsid : ℕ) (tmp : WsidMap) (es : List WsidMap)
    → All P (tmp ∷ es)
    → AllKept P (del_next wsid tmp es)
unfolding del_next
del_next-AllKept P wsid tmp [] h = tt
del_next-AllKept P wsid tmp (t ∷ es) h = elim (Bool-cases (t.wsid == wsid)) [
  | inl k ↦ rw k (h.0, h.1.1)
  | inr k ↦
      rw k (after_first-AllKept P tmp (del_next wsid t es) h.0 (del_next-AllKept P wsid t es h.1))
]

del_bucket-AllKept :
    (P : WsidMap → Type 0) (wsid : ℕ) (es : List WsidMap)
    → All P es
    → AllKept P (del_bucket wsid es)
unfolding del_bucket
del_bucket-AllKept P wsid [] h = tt
del_bucket-AllKept P wsid (e ∷ es) h = elim (Bool-cases (e.wsid == wsid)) [
  | inl k ↦ rw k h.1
  | inr k ↦ rw k (del_next-AllKept P wsid e es h)
]

-- The specification of a deletion on the view.
abbrev pub Removed : WsidTracker → ℕ → Bool × WsidTracker → Type 0
Removed root wsid (deleted, root') =
    (deleted ≡ has_any (view root wsid))
    × IsValid root'
    × ((x : ℕ) → view root' x ≡ (if wsid == x then rest (view root x) else view root x))

wsid_del-of_bucket :
    (root : WsidTracker) (wsid : ℕ) (o : Option (List WsidMap))
    → IsValid root
    → Deleted wsid (bucket root (wsid_hash root wsid)) o
    → AllKept (λ e. wsid_hash root e.wsid ≡ wsid_hash root wsid) o
    → Removed root wsid (elim o [
      | none ↦ (false, root)
      | some kept ↦ (true, record root { table = set root.table (wsid_hash root wsid) kept })
    ])
wsid_del-of_bucket root wsid none v d k = (rw d refl, v, λ x. nothing x)
  where
    nothing : (x : ℕ) → view root x ≡ (if wsid == x then rest (view root x) else view root x)
    nothing x = elim (Bool-cases (wsid == x)) [
      | inl e ↦ let empty : view root x ≡ [] = rw (← (==_iff wsid x).0 e) d in rw (e, empty) refl
      | inr e ↦ rw e refl
    ]
wsid_del-of_bucket root wsid (some kept) v d k = (
  sym d.0,
  set-IsValid (wsid_hash root wsid) kept (wsid_hash-lt wsid v) k v,
  λ x. view-set root wsid x kept v rest (d.1 x),
)

-- A deletion from a valid tracker takes the newest entry of its id off, touches no other id, keeps
-- the tracker valid, and returns whether there was an entry with the id.
pub wsid_del_lem :
    (root : WsidTracker) (wsid : ℕ) → IsValid root → Removed root wsid (wsid_del root wsid)
unfolding wsid_del
wsid_del_lem root wsid v =
    let es = bucket root (wsid_hash root wsid) in
    wsid_del-of_bucket root wsid (del_bucket wsid es) v (del_bucket-Deleted wsid es) (
      del_bucket-AllKept (λ e. wsid_hash root e.wsid ≡ wsid_hash root wsid) wsid es
        (v.hashed (wsid_hash root wsid)))

find_in-first : (wsid : ℕ) (es : List WsidMap) → find_in wsid es ≡ first (with_wsid wsid es)
unfolding find_in
find_in-first wsid [] = refl
find_in-first wsid (e ∷ es) = ground (arith, find_in-first wsid es)

-- A search gives the newest entry with the id, and NULL if there is none.
pub wsid_find_lem : (root : WsidTracker) (wsid : ℕ) → wsid_find root wsid ≡ first (view root wsid)
unfolding wsid_find
wsid_find_lem root wsid = find_in-first wsid (bucket root (wsid_hash root wsid))

-- In a valid tracker, an entry that was added is found by its id, deleting the id then succeeds,
-- and after it every id is found, or not, as before the addition.
pub wsid_add-del-find :
    (root : WsidTracker) (tmp : WsidMap)
    → IsValid root
    → let root' = (wsid_add true root tmp).1 in
      let root'' = (wsid_del root' tmp.wsid).1 in
      (wsid_find root' tmp.wsid ≡ some (stored tmp))
      × ((wsid_del root' tmp.wsid).0 ≡ true)
      × ((x : ℕ) → wsid_find root'' x ≡ wsid_find root x)
wsid_add-del-find root tmp v =
    let (_, v', added) = wsid_add_lem root tmp v in
    let root' = (wsid_add true root tmp).1 in
    let (deleted, v'', left) = wsid_del_lem root' tmp.wsid v' in
    let self : (tmp.wsid == tmp.wsid) ≡ true = (==_iff tmp.wsid tmp.wsid).1 refl in
    let top : view root' tmp.wsid ≡ stored tmp ∷ view root tmp.wsid =
      added tmp.wsid ∙ rw self refl in
    (
      wsid_find_lem root' tmp.wsid ∙ ap first top,
      deleted ∙ ap has_any top,
      λ x.
          wsid_find_lem _ x ∙ ap first (left x ∙ restored x (added x)) ∙ sym (wsid_find_lem root x),
    )
  where
    restored :
        (x : ℕ) {es : List WsidMap}
        → es ≡ (if tmp.wsid == x then stored tmp ∷ view root x else view root x)
        → (if tmp.wsid == x then rest es else es) ≡ view root x
    restored x e = elim (Bool-cases (tmp.wsid == x)) [
      | inl f ↦ rw (e, f) refl
      | inr f ↦ rw (e, f) refl
    ]
