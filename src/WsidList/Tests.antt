-- ===== src/WsidList/Tests.antt =====
-- Runs of the tracker with three buckets, and the theorems at it.
use opae_libs.Prelude.{ℕ, true, none, some, [], ◌∷◌, ◌≡◌, refl}
use opae_libs.Prelude.{◌==◌, if◌then◌else◌, replicate}
use opae_libs.WsidList.{WsidMap, WsidTracker, wsid_tracker_init, wsid_add, wsid_del}
use opae_libs.WsidList.{wsid_find}
use opae_libs.WsidList.View.{IsValid, view, wsid_tracker_init-IsValid}
use opae_libs.WsidList.Ops.{Removed, wsid_add_lem, wsid_del_lem, wsid_add-del-find}

abbrev entry : ℕ → ℕ → WsidMap
entry wsid index = record {
  wsid = wsid;
  addr = 4096;
  phys = 0;
  len = 64;
  offset = 4096;
  index = index;
  flags = 0;
}

abbrev empty : WsidTracker
empty = record { n_hash_buckets = 3; table = replicate 3 [] }

-- 5 and 8 share a bucket.
abbrev shared : WsidTracker
shared = record { n_hash_buckets = 3; table = [] ∷ [] ∷ (entry 8 1 ∷ entry 5 0 ∷ []) ∷ [] }

shared_lem : (wsid_add true (wsid_add true empty (entry 5 0)).1 (entry 8 1)).1 ≡ shared
unfolding wsid_add
shared_lem = refl

find_shared : wsid_find shared 5 ≡ some (entry 5 0)
unfolding wsid_find
find_shared = refl

del_shared :
    wsid_del shared 5
    ≡ (true, record { n_hash_buckets = 3; table = [] ∷ [] ∷ (entry 8 1 ∷ []) ∷ [] })
unfolding wsid_del
del_shared = refl

too_many : wsid_tracker_init true true 16385 ≡ none
unfolding wsid_tracker_init
too_many = refl

empty_made : wsid_tracker_init true true 3 ≡ some empty
unfolding wsid_tracker_init
empty_made = refl

empty-IsValid : IsValid empty
empty-IsValid = (wsid_tracker_init-IsValid true true 3 empty_made).0

shared-IsValid : IsValid shared
unfolding wsid_add
shared-IsValid = (wsid_add_lem _ (entry 8 1) (wsid_add_lem empty (entry 5 0) empty-IsValid).1).1

wsid_add_lem_example :
    let (added, root') = wsid_add true shared (entry 5 2) in
    (added ≡ true)
    × IsValid root'
    × ((x : ℕ) → view root' x ≡ (if 5 == x then entry 5 2 ∷ view shared x else view shared x))
wsid_add_lem_example = wsid_add_lem shared (entry 5 2) shared-IsValid

wsid_del_lem_example : Removed shared 8 (wsid_del shared 8)
wsid_del_lem_example = wsid_del_lem shared 8 shared-IsValid

wsid_add-del-find_example :
    let root' = (wsid_add true shared (entry 5 2)).1 in
    let root'' = (wsid_del root' 5).1 in
    (wsid_find root' 5 ≡ some (entry 5 2))
    × ((wsid_del root' 5).0 ≡ true)
    × ((x : ℕ) → wsid_find root'' x ≡ wsid_find shared x)
wsid_add-del-find_example = wsid_add-del-find shared (entry 5 2) shared-IsValid
