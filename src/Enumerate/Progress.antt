-- ===== src/Enumerate/Progress.antt =====
-- The loop over the adapters, in an enumeration that is given an array of tokens.
use opae_libs.Prelude.{
  ℕ, suc, ◌+◌, ◌-◌, ◌^◌, ◌≤◌, ◌<◌, min, Bool, true, false, Option, none, some, List, [], ◌∷◌, ◌++◌,
}
use opae_libs.Prelude.{
  length, length-append, u32, ltb, ◌==◌, if◌then◌else◌, ◌≡◌, refl, sym, arith, inl, inr, Bool-cases,
  All,
}
use mathlib.Core.Path.{subst}
use opae_libs.Types.{is_ok}
use opae_libs.Token.{Tokens, AdapterTable}
use opae_libs.Enumerate.{
  Heap, Answer, EnumAdapter, Context, State, finished, matched, answered, ask_adapter,
  opae_enumerate, opae_plugin_mgr_for_each_adapter,
}
use opae_libs.Enumerate.Wrap.{
  Wrapped, Wrapped_trans, IsMalloc, writing, WrappedUpTo, wrap_from-WrappedUpTo,
}

-- What an enumeration has done when `left` adapters may still fail.
pub record Progress (ts : Tokens) (max_tokens left : ℕ) (s : State) : Type 0 where
  pub ws : List ℕ
  pub num_matches : ℕ
  pub array : ℕ → ℕ
  pub errors : ℕ
  pub context_is : s.context ≡ writing ws max_tokens num_matches array errors
  pub wrapped : Wrapped ts ws s.store
  pub fits : length ws ≤ max_tokens
  pub few : errors + left < 2 ^ 32
  pub agrees : errors ≡ 0 → length ws ≡ min max_tokens num_matches

-- A plugin that reports fewer than 2 ^ 31 matches.
abbrev pub IsBounded : EnumAdapter → Type 0
IsBounded adapter =
    (enumerate : Heap → List ℕ → Option (ℕ → ℕ) → ℕ → Answer)
    → adapter.fpga_enumerate ≡ some enumerate
    → (heap : Heap) (filters : List ℕ) (array : Option (ℕ → ℕ)) (space : ℕ)
    → (enumerate heap filters array space).num_matches < 2 ^ 31

-- The end of the loop over the tokens of an adapter, with the room that there was.
finished-Progress :
    (ts ts' : Tokens) (max_tokens left space num_matches n errors : ℕ) (ws : List ℕ) (array : ℕ → ℕ)
    (r : Bool × State)
    → Wrapped ts ws ts'
    → length ws + space ≡ max_tokens
    → errors + suc left < 2 ^ 32
    → (errors ≡ 0 → (length ws ≡ num_matches) × (num_matches + n < 2 ^ 32))
    → WrappedUpTo
        (if ltb n space then n else space)
        ws
        max_tokens
        (u32 (num_matches + n))
        array
        errors
        ts'
        r
    → Progress ts max_tokens left (finished r).1
unfolding finished
finished-Progress ts ts' max_tokens left space num_matches n errors ws array (true, s) w room few
      agrees (vs, errors', c, v, fewer, all, short) =
    record {
      ws = ws ++ vs;
      num_matches = u32 (num_matches + n);
      array = array;
      errors = errors';
      context_is = c;
      wrapped = Wrapped_trans w v;
      fits = ground (arith, length-append ws vs);
      few = ground (arith, short refl);
      agrees = λ z. absurd (ground (arith, short refl));
    }
finished-Progress ts ts' max_tokens left space num_matches n errors ws array (false, s) w room few
      agrees (vs, errors', c, v, fewer, all, short) =
    record {
      ws = ws ++ vs;
      num_matches = u32 (num_matches + n);
      array = array;
      errors = errors';
      context_is = c;
      wrapped = Wrapped_trans w v;
      fits = ground (arith, length-append ws vs);
      few = ground (arith, (all refl).1);
      agrees = λ z. ground (arith, length-append ws vs, (all refl).0, (all refl).1, agrees);
    }

abbrev pub state : List ℕ → ℕ → ℕ → (ℕ → ℕ) → ℕ → Tokens → State
state ws max_tokens num_matches array errors ts = record {
  context = writing ws max_tokens num_matches array errors;
  store = ts;
}

-- The adapter's answer is used, when there is room for `space` tokens.
answered-Progress :
    (malloc : Tokens → Option ℕ) (adapter : AdapterTable) (ts ts' : Tokens)
    (max_tokens left space num_matches errors : ℕ) (ws : List ℕ) (array : ℕ → ℕ) (a : Answer)
    → IsMalloc malloc
    → Wrapped ts ws ts'
    → length ws + space ≡ max_tokens
    → max_tokens ≤ 2 ^ 31
    → 0 < space
    → errors + suc left < 2 ^ 32
    → (errors ≡ 0 → length ws ≡ min max_tokens num_matches)
    → a.num_matches < 2 ^ 31
    → Progress ts max_tokens left
        (answered malloc adapter space
          (state ws max_tokens num_matches array errors ts')
          a
          (some a.tokens)).1
unfolding answered matched
answered-Progress malloc adapter ts ts' max_tokens left space num_matches errors ws array a m w room
      small some_room few agrees bounded =
    elim (Bool-cases (is_ok a.res)) [
      | inl y ↦
          let n = a.num_matches in
          let rounds = if ltb n space then n else space in
          rw y (
            finished-Progress ts ts' max_tokens left space num_matches n errors ws a.tokens _ w room
              few (λ z. (ground (arith, agrees z), ground (arith, agrees z)))
              (wrap_from-WrappedUpTo malloc adapter a.tokens 0 rounds ws max_tokens
                (u32 (num_matches + n)) errors a.tokens ts' m w.valid (ground arith)))
      | inr y ↦ rw y (record {
        ws = ws;
        num_matches = num_matches;
        array = a.tokens;
        errors = u32 (errors + 1);
        context_is = refl;
        wrapped = w;
        fits = omega (arith, room);
        few = ground arith;
        agrees = λ z. absurd (ground arith);
      })
    ]

pub idle-Progress :
    (ts ts' : Tokens) (max_tokens left num_matches errors : ℕ) (ws : List ℕ) (array : ℕ → ℕ)
    → Wrapped ts ws ts'
    → length ws ≤ max_tokens
    → errors + left < 2 ^ 32
    → (errors ≡ 0 → length ws ≡ min max_tokens num_matches)
    → Progress ts max_tokens left (state ws max_tokens num_matches array errors ts')
idle-Progress ts ts' max_tokens left num_matches errors ws array w fits few agrees = record {
  ws = ws;
  num_matches = num_matches;
  array = array;
  errors = errors;
  context_is = refl;
  wrapped = w;
  fits = fits;
  few = few;
  agrees = agrees;
}

-- One call of `opae_enumerate`.
opae_enumerate_literal :
    (malloc : Tokens → Option ℕ) (heap : Heap) (filters : List ℕ) (adapter : EnumAdapter)
    (ts ts' : Tokens) (max_tokens left num_matches errors : ℕ) (ws : List ℕ) (array : ℕ → ℕ)
    → IsMalloc malloc
    → Wrapped ts ws ts'
    → length ws ≤ max_tokens
    → max_tokens ≤ 2 ^ 31
    → errors + suc left < 2 ^ 32
    → (errors ≡ 0 → length ws ≡ min max_tokens num_matches)
    → IsBounded adapter
    → Progress ts max_tokens left
        (opae_enumerate malloc heap filters adapter
          (state ws max_tokens num_matches array errors ts')).1
unfolding opae_enumerate ask_adapter
opae_enumerate_literal malloc heap filters adapter ts ts' max_tokens left num_matches errors ws
      array m w fits small few agrees bounded =
    let space = u32 (max_tokens + 2 ^ 32 - length ws) in
    let space_is : length ws + space ≡ max_tokens = ground arith in
    let same =
      idle-Progress ts ts' max_tokens left num_matches errors ws array w fits (omega (arith, few))
        agrees in
    elim (Bool-cases (space == 0)) [
      | inl z ↦ rw z same
      | inr z ↦ rw z (
          (elim adapter.fpga_enumerate
              as (λ o.
                adapter.fpga_enumerate ≡ o
                → Progress ts max_tokens left
                    (ask_adapter malloc heap filters adapter.table space
                      (state ws max_tokens num_matches array errors ts') o).1) [
                        | none ↦ λ e. same
                        | some enumerate ↦ λ e.
                            answered-Progress malloc adapter.table ts ts' max_tokens left space
                              num_matches errors ws array
                              (enumerate heap filters (some array) space) m w space_is small
                              (ground arith) few agrees
                              (bounded enumerate e heap filters (some array) space)
                      ])
            refl)
    ]

opae_enumerate-Progress :
    (malloc : Tokens → Option ℕ) (heap : Heap) (filters : List ℕ) (adapter : EnumAdapter)
    (ts : Tokens) (max_tokens left : ℕ) (s : State)
    → IsMalloc malloc
    → max_tokens ≤ 2 ^ 31
    → IsBounded adapter
    → Progress ts max_tokens (suc left) s
    → Progress ts max_tokens left (opae_enumerate malloc heap filters adapter s).1
opae_enumerate-Progress malloc heap filters adapter ts max_tokens left s m small bounded p =
    subst
      (λ (c : Context).
        Progress ts max_tokens left
          (opae_enumerate malloc heap filters adapter (record { context = c; store = s.store })).1)
      (sym p.context_is)
      (opae_enumerate_literal malloc heap filters adapter ts s.store max_tokens left p.num_matches
        p.errors p.ws p.array m p.wrapped p.fits small p.few p.agrees bounded)

Progress-fewer :
    (ts : Tokens) (max_tokens left : ℕ) (s : State)
    → Progress ts max_tokens left s
    → Progress ts max_tokens 0 s
Progress-fewer ts max_tokens left s p = record {
  ws = p.ws;
  num_matches = p.num_matches;
  array = p.array;
  errors = p.errors;
  context_is = p.context_is;
  wrapped = p.wrapped;
  fits = p.fits;
  few = omega (arith, p.few);
  agrees = p.agrees;
}

pub for_each-Progress :
    (malloc : Tokens → Option ℕ) (heap : Heap) (filters : List ℕ) (adapters : List EnumAdapter)
    (ts : Tokens) (max_tokens : ℕ) (s : State)
    → IsMalloc malloc
    → max_tokens ≤ 2 ^ 31
    → All IsBounded adapters
    → Progress ts max_tokens (length adapters) s
    → Progress ts max_tokens 0
        (opae_plugin_mgr_for_each_adapter (opae_enumerate malloc heap filters) adapters s).1
unfolding opae_plugin_mgr_for_each_adapter
for_each-Progress malloc heap filters [] ts max_tokens s m small bounded p = p
for_each-Progress malloc heap filters (adapter ∷ adapters) ts max_tokens s m small (b, bs) p =
    let p' =
      opae_enumerate-Progress malloc heap filters adapter ts max_tokens (length adapters) s m small
        b p in
    let r = opae_enumerate malloc heap filters adapter s in
    elim (Bool-cases r.0) [
      | inl y ↦
          rw (opae_plugin_mgr_for_each_adapter, y)
            (Progress-fewer ts max_tokens (length adapters) r.1 p')
      | inr y ↦
          rw (opae_plugin_mgr_for_each_adapter, y)
            (for_each-Progress malloc heap filters adapters ts max_tokens r.1 m small bs p')
    ]
