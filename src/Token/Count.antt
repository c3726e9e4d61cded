-- ===== src/Token/Count.antt =====
-- The reference counts of the tokens, as a function of the pointer.
use opae_libs.Prelude.{ℕ, ◌+◌, ◌-◌, ◌^◌, ◌<◌, true, false, Option, none, some, List, [], ◌∷◌}
use opae_libs.Prelude.{◌≡◌, ◌≢◌, refl, arith, u32, ◌==◌, if◌then◌else◌, Bool-cases}
use opae_libs.Prelude.{==_iff, inl, inr, ◌↔◌}
use mathlib.Core.Path.{subst, fun_ext}
use opae_libs.Types.{FpgaResult, fpga_ok}
use opae_libs.Token.{AdapterTable, WrappedToken, Tokens, opae_wrapped_token_magic, store, unlink}
use opae_libs.Token.{
  opae_validate_wrapped_token, opae_upref_wrapped_token, upref_of, downref_of, destroy_result,
}
use opae_libs.Token.{opae_downref_wrapped_token, opae_allocate_wrapped_token}

-- How often a pointer is in the list.
abbrev pub times : ℕ → List ℕ → ℕ
times q [] = 0
times q (p ∷ ps) = (if p == q then 1 else 0) + times q ps

-- What a token's cell must be: a live token, counted, not too often, and listed once; a free cell
-- is not listed.
abbrev pub CellOk : ℕ → Option WrappedToken → ℕ → Type 0
CellOk q none n = n ≡ 0
CellOk q (some w) n =
    (w.magic ≡ opae_wrapped_token_magic) × (0 < w.ref_count) × (w.ref_count < 2 ^ 32) × (n ≡ 1)

abbrev pub IsValid : Tokens → Type 0
IsValid ts = (q : ℕ) → CellOk q (ts.cell q) (times q ts.in_use)

times-unlink :
    (q wt : ℕ) (ps : List ℕ)
    → times q (unlink wt ps) ≡ (if wt == q then times q ps - 1 else times q ps)
times-unlink q wt [] = ground arith
times-unlink q wt (p ∷ ps) = ground (arith, times-unlink q wt ps)

-- The references to each token, none for a pointer to nothing.
abbrev pub count_of : Option WrappedToken → ℕ
count_of none = 0
count_of (some w) = w.ref_count

abbrev pub refs : Tokens → ℕ → ℕ
refs ts q = count_of (ts.cell q)

store-IsValid :
    (ts : Tokens) (wt : ℕ) (o : Option WrappedToken) (list : List ℕ)
    → IsValid ts
    → CellOk wt o (times wt list)
    → ((q : ℕ) → (wt == q) ≡ false → times q list ≡ times q ts.in_use)
    → IsValid (record { cell = store ts wt o; in_use = list })
store-IsValid ts wt o list v here there q = elim (Bool-cases (wt == q)) [
  | inl e ↦
      let same : wt ≡ q = (==_iff wt q).0 e in
      rw e (subst (λ (r : ℕ). CellOk r o (times r list)) same here)
  | inr e ↦ rw (e, there q e) (v q)
]

-- The references after a write to one cell.
refs-store :
    (ts : Tokens) (wt : ℕ) (o : Option WrappedToken) (list : List ℕ) (q : ℕ)
    → refs (record { cell = store ts wt o; in_use = list }) q
      ≡ (if wt == q then count_of o else refs ts q)
refs-store ts wt o list q = elim (Bool-cases (wt == q)) [ inl e ↦ rw e refl | inr e ↦ rw e refl ]

abbrev pub Upreffed : Tokens → ℕ → Tokens → Type 0
Upreffed ts wt ts' =
    IsValid ts'
    × ((q : ℕ) → refs ts' q ≡ (if wt == q then refs ts wt + 1 else refs ts q))
    × (ts'.in_use ≡ ts.in_use)

upref_of-Upreffed :
    (ts : Tokens) (wt : ℕ) (o : Option WrappedToken)
    → ts.cell wt ≡ o
    → IsValid ts
    → 0 < refs ts wt
    → refs ts wt + 1 < 2 ^ 32
    → Upreffed ts wt (upref_of ts wt o)
upref_of-Upreffed ts wt none e v live few = absurd (ground arith)
upref_of-Upreffed ts wt (some w) e v live few =
    let ok : CellOk wt (some w) (times wt ts.in_use) =
      subst (λ o. CellOk wt o (times wt ts.in_use)) e (v wt) in
    let counted : refs ts wt ≡ w.ref_count = ground arith in
    let not_first : (u32 (w.ref_count + 1) == 1) ≡ false = ground arith in
    rw not_first (
      store-IsValid ts wt _ ts.in_use v (ok.0, omega arith, omega arith, ok.3) (λ q h. refl),
      λ q. ground (
        arith,
        refs-store ts wt (some (record w { ref_count = u32 (w.ref_count + 1) })) ts.in_use q,
      ),
      refl,
    )

-- In a valid store, one more reference to a live token, below 2 ^ 32 of them, adds one to its
-- count, changes no other count, leaves the list of the tokens in use, and keeps the store valid.
pub opae_upref_wrapped_token_lem :
    (ts : Tokens) (wt : ℕ)
    → IsValid ts
    → 0 < refs ts wt
    → refs ts wt + 1 < 2 ^ 32
    → Upreffed ts wt (opae_upref_wrapped_token ts wt)
unfolding opae_upref_wrapped_token
opae_upref_wrapped_token_lem ts wt v live few = upref_of-Upreffed ts wt (ts.cell wt) refl v live few

abbrev pub Downreffed : Tokens → ℕ → FpgaResult × Tokens → Type 0
Downreffed ts wt (res, ts') =
    IsValid ts' × ((q : ℕ) → refs ts' q ≡ (if wt == q then refs ts wt - 1 else refs ts q))

downref_of-Downreffed :
    (ts : Tokens) (wt : ℕ) (o : Option WrappedToken)
    → ts.cell wt ≡ o
    → IsValid ts
    → 0 < refs ts wt
    → Downreffed ts wt (downref_of ts wt o)
downref_of-Downreffed ts wt none e v live = absurd (ground arith)
downref_of-Downreffed ts wt (some w) e v live =
    let ok : CellOk wt (some w) (times wt ts.in_use) =
      subst (λ o. CellOk wt o (times wt ts.in_use)) e (v wt) in
    let counted : refs ts wt ≡ w.ref_count = ground arith in
    elim (Bool-cases (u32 (w.ref_count + 2 ^ 32 - 1) == 0)) [
      | inl z ↦ rw z (
        store-IsValid ts wt none (unlink wt ts.in_use) v
            (ground (arith, times-unlink wt wt ts.in_use))
            (λ q h. rw (times-unlink q wt ts.in_use, h) refl),
        λ q. ground (arith, refs-store ts wt none (unlink wt ts.in_use) q),
      )
      | inr z ↦ rw z (
        store-IsValid ts wt _ ts.in_use v (ok.0, ground arith, omega arith, ok.3) (λ q h. refl),
        λ q. ground (
          arith,
          refs-store ts wt (some (record w { ref_count = u32 (w.ref_count + 2 ^ 32 - 1) }))
              ts.in_use q,
        ),
      )
    ]

-- In a valid store, giving back a reference of a live token takes one off its count, to nothing
-- when the token goes, changes no other count, and keeps the store valid.
pub opae_downref_wrapped_token_lem :
    (ts : Tokens) (wt : ℕ)
    → IsValid ts
    → 0 < refs ts wt
    → Downreffed ts wt (opae_downref_wrapped_token ts wt)
unfolding opae_downref_wrapped_token
opae_downref_wrapped_token_lem ts wt v live = downref_of-Downreffed ts wt (ts.cell wt) refl v live

-- For a token in memory whose count is above 0 and below 2 ^ 32, the result is that of destroying
-- the token when the count is 1, and FPGA_OK otherwise.
pub opae_downref_wrapped_token-result :
    (ts : Tokens) (wt : ℕ) (w : WrappedToken)
    → ts.cell wt ≡ some w
    → 0 < w.ref_count
    → w.ref_count < 2 ^ 32
    → (opae_downref_wrapped_token ts wt).0
      ≡ (if w.ref_count == 1 then destroy_result w else fpga_ok)
unfolding opae_downref_wrapped_token
opae_downref_wrapped_token-result ts wt w e live few = elim (Bool-cases (w.ref_count == 1)) [
  | inl z ↦
      let gone : (u32 (w.ref_count + 2 ^ 32 - 1) == 0) ≡ true = ground arith in rw (e, z, gone) refl
  | inr z ↦
      let left : (u32 (w.ref_count + 2 ^ 32 - 1) == 0) ≡ false = ground arith in
      rw (e, z, left) refl
]

-- In a valid store, a pointer is accepted as a wrapped token exactly if it is not NULL and its
-- reference count is above 0.
pub opae_validate_wrapped_token_iff :
    (ts : Tokens) (t : ℕ)
    → IsValid ts
    → (opae_validate_wrapped_token ts t ≡ some t) ↔ ((t ≢ 0) × (0 < refs ts t))
opae_validate_wrapped_token_iff ts t v = by_cell (ts.cell t) refl
  where
    by_cell :
        (o : Option WrappedToken)
        → ts.cell t ≡ o
        → (opae_validate_wrapped_token ts t ≡ some t) ↔ ((t ≢ 0) × (0 < refs ts t))
    by_cell none e = rw e (ground arith)
    by_cell (some w) e =
        let ok : CellOk t (some w) (times t ts.in_use) =
          subst (λ o. CellOk t o (times t ts.in_use)) e (v t) in
        rw e (ground arith)

store_twice :
    (ts : Tokens) (wt : ℕ) (o r : Option WrappedToken)
    → store (record ts { cell = store ts wt o }) wt r ≡ store ts wt r
store_twice ts wt o r = fun_ext (λ q. at q)
  where
    at : (q : ℕ) → store (record ts { cell = store ts wt o }) wt r q ≡ store ts wt r q
    at q = elim (Bool-cases (wt == q)) [ inl e ↦ rw e refl | inr e ↦ rw e refl ]

-- In a valid store, a token that is wrapped at a pointer which is free has one reference and is the
-- first of the tokens in use; no other count changes, and the store stays valid.
pub opae_allocate_wrapped_token_lem :
    (ts : Tokens) (wtok token : ℕ) (adapter : AdapterTable)
    → IsValid ts
    → ts.cell wtok ≡ none
    → let (out, ts') = opae_allocate_wrapped_token (some wtok) ts token adapter in
      (out ≡ some wtok)
      × IsValid ts'
      × ((q : ℕ) → refs ts' q ≡ (if wtok == q then 1 else refs ts q))
      × (ts'.in_use ≡ wtok ∷ ts.in_use)
unfolding opae_allocate_wrapped_token opae_upref_wrapped_token
opae_allocate_wrapped_token_lem ts wtok token adapter v free =
    let fresh : WrappedToken = record {
      magic = opae_wrapped_token_magic;
      opae_token = token;
      ref_count = 0;
      adapter_table = adapter;
    } in
    let counted : WrappedToken = record fresh { ref_count = 1 } in
    let self : (wtok == wtok) ≡ true = (==_iff wtok wtok).1 refl in
    let made : opae_upref_wrapped_token (record ts { cell = store ts wtok (some fresh) }) wtok
        ≡ record { cell = store ts wtok (some counted); in_use = wtok ∷ ts.in_use } =
      rw self (λ i. record {
        cell = store_twice ts wtok (some fresh) (some counted) i;
        in_use = wtok ∷ ts.in_use;
      }) in
    rw made (
      refl,
      store-IsValid ts wtok (some counted) (wtok ∷ ts.in_use) v
          (refl, omega arith, omega arith, ground (arith, rw free at (v wtok)))
          (λ q h. rw h (omega arith)),
      refs-store ts wtok (some counted) (wtok ∷ ts.in_use),
      refl,
    )

-- A pointer that nobody counts on is refused.
pub opae_validate_wrapped_token-dead :
    (ts : Tokens) (t : ℕ) → IsValid ts → refs ts t ≡ 0 → opae_validate_wrapped_token ts t ≡ none
opae_validate_wrapped_token-dead ts t v dead = by_cell (ts.cell t) refl
  where
    by_cell : (o : Option WrappedToken) → ts.cell t ≡ o → opae_validate_wrapped_token ts t ≡ none
    by_cell none e = rw e (ground arith)
    by_cell (some w) e =
        let ok : CellOk t (some w) (times t ts.in_use) =
          subst (λ o. CellOk t o (times t ts.in_use)) e (v t) in
        absurd (ground arith)
