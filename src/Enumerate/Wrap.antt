-- ===== src/Enumerate/Wrap.antt =====
-- The tokens that an enumeration wraps.
use opae_libs.Prelude.{
  ℕ, zero, suc, ◌+◌, ◌^◌, ◌≤◌, ◌<◌, Bool, true, false, Option, none, some, List, [], ◌∷◌, ◌++◌,
}
use opae_libs.Prelude.{
  length, length-append, u32, ◌==◌, ◌≡◌, refl, sym, ap, ◌∙◌, arith, inl, inr, Bool-cases, ==_iff,
}
use mathlib.Core.Path.{subst}
use mathlib.Core.List.{append-nil, append_assoc}
use opae_libs.Token.{Tokens, AdapterTable, opae_allocate_wrapped_token}
use opae_libs.Token.Count.{IsValid, refs, count_of, times, opae_allocate_wrapped_token_lem}
use opae_libs.Enumerate.{Context, State, wrap_from, wrap_round, keep_token}

-- From one store to another, the tokens of the list are new, each with one reference, and no other
-- count has changed.
pub record Wrapped (ts : Tokens) (ws : List ℕ) (ts' : Tokens) : Type 0 where
  pub valid : IsValid ts'
  pub counts : (q : ℕ) → refs ts' q ≡ refs ts q + times q ws
  pub fresh : (q : ℕ) → 0 < times q ws → (times q ws ≡ 1) × (refs ts q ≡ 0)

times-append : (q : ℕ) (xs ys : List ℕ) → times q (xs ++ ys) ≡ times q xs + times q ys
times-append q [] ys = omega arith
times-append q (x ∷ xs) ys = omega (arith, times-append q xs ys)

pub Wrapped_none : (ts : Tokens) → IsValid ts → Wrapped ts [] ts
Wrapped_none ts v = record {
  valid = v;
  counts = λ q. omega arith;
  fresh = λ q h. absurd (omega arith);
}

pub Wrapped_trans :
    {ts ts' ts'' : Tokens} {ws vs : List ℕ}
    → Wrapped ts ws ts'
    → Wrapped ts' vs ts''
    → Wrapped ts (ws ++ vs) ts''
Wrapped_trans {ts = ts} {ts' = ts'} {ws = ws} {vs = vs} w v = record {
  valid = v.valid;
  counts = λ q. omega (arith, times-append q ws vs, w.counts q, v.counts q);
  fresh = λ q h. grind (arith, times-append q ws vs, w.counts q, w.fresh q, v.fresh q);
}

-- What `malloc` gives is not in use.
abbrev pub IsMalloc : (Tokens → Option ℕ) → Type 0
IsMalloc malloc = (ts : Tokens) (p : ℕ) → malloc ts ≡ some p → ts.cell p ≡ none

Wrapped_one :
    (ts : Tokens) (p token : ℕ) (adapter : AdapterTable)
    → IsValid ts
    → ts.cell p ≡ none
    → Wrapped ts (p ∷ []) (opae_allocate_wrapped_token (some p) ts token adapter).1
Wrapped_one ts p token adapter v free =
    let (out, valid, counts, _) = opae_allocate_wrapped_token_lem ts p token adapter v free in
    let none_there : refs ts p ≡ 0 = ap count_of free in
    record {
      valid = valid;
      counts = λ q. elim (Bool-cases (p == q)) [
        | inl e ↦
            let same : p ≡ q = (==_iff p q).0 e in
            let zero_there : refs ts q ≡ 0 = subst (λ r. refs ts r ≡ 0) same none_there in
            counts q ∙ rw (e, zero_there) refl
        | inr e ↦ counts q ∙ rw e (omega arith)
      ];
      fresh = λ q h. elim (Bool-cases (p == q)) [
        | inl e ↦
            let same : p ≡ q = (==_iff p q).0 e in
            (rw e refl, subst (λ r. refs ts r ≡ 0) same none_there)
        | inr e ↦ absurd (let n : times q (p ∷ []) ≡ 0 = rw e refl in omega arith)
      ];
    }

-- A context of a call that was given an array of tokens.
abbrev pub writing : List ℕ → ℕ → ℕ → (ℕ → ℕ) → ℕ → Context
writing ws max_tokens num_matches array errors = record {
  wrapped_tokens = some ws;
  max_wrapped_tokens = max_tokens;
  num_matches = num_matches;
  adapter_tokens = some array;
  num_wrapped_tokens = length ws;
  errors = errors;
}

-- `left` rounds wrap that many tokens, or fewer with one error more.
abbrev pub WrappedUpTo : ℕ → List ℕ → ℕ → ℕ → (ℕ → ℕ) → ℕ → Tokens → Bool × State → Type 0
WrappedUpTo left ws max_tokens num_matches array errors ts (stop, s) =
    (vs : List ℕ) × (errors' : ℕ) × (s.context
      ≡ writing (ws ++ vs) max_tokens num_matches array errors')
    × Wrapped ts vs s.store
    × (length vs ≤ left)
    × (stop ≡ false → (length vs ≡ left) × (errors' ≡ errors))
    × (stop ≡ true → errors' ≡ u32 (errors + 1))

-- After one round.
keep_token-writing :
    (p : ℕ) (ws : List ℕ) (max_tokens num_matches errors : ℕ) (array : ℕ → ℕ) (ts : Tokens)
    → length ws + 1 < 2 ^ 32
    → keep_token p (writing ws max_tokens num_matches array errors) ts (some ws)
      ≡ record { context = writing (ws ++ p ∷ []) max_tokens num_matches array errors; store = ts }
unfolding keep_token
keep_token-writing p ws max_tokens num_matches errors array ts few =
    let n : u32 (length ws + 1) ≡ length (ws ++ p ∷ []) =
      ground (arith, length-append ws (p ∷ [])) in
    rw n refl

allocate_none :
    (ts : Tokens) (token : ℕ) (adapter : AdapterTable)
    → opae_allocate_wrapped_token none ts token adapter ≡ (none, ts)
unfolding opae_allocate_wrapped_token
allocate_none ts token adapter = refl

allocate_some :
    (p : ℕ) (ts : Tokens) (token : ℕ) (adapter : AdapterTable)
    → opae_allocate_wrapped_token (some p) ts token adapter
      ≡ (some p, (opae_allocate_wrapped_token (some p) ts token adapter).1)
unfolding opae_allocate_wrapped_token
allocate_some p ts token adapter = refl

pub wrap_from-WrappedUpTo :
    (malloc : Tokens → Option ℕ) (adapter : AdapterTable) (tokens : ℕ → ℕ) (i left : ℕ)
    (ws : List ℕ) (max_tokens num_matches errors : ℕ) (array : ℕ → ℕ) (ts : Tokens)
    → IsMalloc malloc
    → IsValid ts
    → length ws + left < 2 ^ 32
    → WrappedUpTo left ws max_tokens num_matches array errors ts (
        wrap_from malloc adapter tokens i left
          (record { context = writing ws max_tokens num_matches array errors; store = ts }))
unfolding wrap_from
wrap_from-WrappedUpTo malloc adapter tokens i zero ws max_tokens num_matches errors array ts m v
      few =
    (
      [],
      errors,
      ap (λ l. writing l max_tokens num_matches array errors) (sym (append-nil ws)),
      Wrapped_none ts v,
      omega arith,
      λ e. (refl, refl),
      λ e. absurd (ground arith),
    )
wrap_from-WrappedUpTo malloc adapter tokens i (suc left) ws max_tokens num_matches errors array ts m
      v few =
    (elim (malloc ts)
        as (λ o.
          malloc ts ≡ o
          → WrappedUpTo (suc left) ws max_tokens num_matches array errors ts (
              wrap_from malloc adapter tokens i (suc left) (record {
                context = writing ws max_tokens num_matches array errors;
                store = ts;
              }))) [
                | none ↦ λ e.
                    let nothing : writing ws max_tokens num_matches array (u32 (errors + 1))
                        ≡ writing (ws ++ []) max_tokens num_matches array (u32 (errors + 1)) =
                      ap (λ l. writing l max_tokens num_matches array (u32 (errors + 1)))
                        (sym (append-nil ws)) in
                    let got =
                      ap (λ o. opae_allocate_wrapped_token o ts (tokens i) adapter) e
                      ∙ allocate_none ts (tokens i) adapter in
                    rw (got, wrap_round)
                      (
                        [],
                        u32 (errors + 1),
                        nothing,
                        Wrapped_none ts v,
                        omega arith,
                        λ y. absurd (ground arith),
                        λ y. refl,
                      )
                | some p ↦ λ e.
                    let one = Wrapped_one ts p (tokens i) adapter v (m ts p e) in
                    let ts' = (opae_allocate_wrapped_token (some p) ts (tokens i) adapter).1 in
                    let longer : length (ws ++ p ∷ []) ≡ length ws + 1 =
                      length-append ws (p ∷ []) in
                    let (vs, errors', c, w, n, all, short) =
                      wrap_from-WrappedUpTo malloc adapter tokens (suc i) left (ws ++ p ∷ [])
                        max_tokens num_matches errors array ts' m one.valid
                        (omega (arith, longer, few)) in
                    let got =
                      ap (λ o. opae_allocate_wrapped_token o ts (tokens i) adapter) e
                      ∙ allocate_some p ts (tokens i) adapter in
                    rw
                      (
                        got,
                        wrap_round,
                        keep_token-writing p ws max_tokens num_matches errors array ts'
                            (omega (arith, few)),
                      )
                      (
                        p ∷ vs,
                        errors',
                        c
                            ∙ ap (λ l. writing l max_tokens num_matches array errors')
                                (append_assoc ws (p ∷ []) vs),
                        Wrapped_trans one w,
                        omega (arith, n),
                        λ y. (ap suc (all y).0, (all y).1),
                        short,
                      )
              ])
      refl
