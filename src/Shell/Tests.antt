-- ===== src/Shell/Tests.antt =====
-- A token that is opened, closed and copied.
use opae_libs.Prelude.{ℕ, ◌+◌, ◌≡◌, refl, arith, true, none, some, [], ◌∷◌, ◌==◌, if◌then◌else◌}
use opae_libs.Types.{fpga_ok, fpga_exception}
use opae_libs.Token.{Tokens, WrappedToken, AdapterTable, opae_wrapped_token_magic}
use opae_libs.Token.Count.{IsValid, refs}
use opae_libs.Shell.{
  Shell, open_call, close_call, clone_call, fpga_open, fpga_close, fpga_clone_token,
  fpga_destroy_token,
}
use opae_libs.Shell.Open.{CanOpen, open-close}
use opae_libs.Shell.Clone.{CanClone, clone-destroy_token}

-- A plugin whose closing fails.
abbrev table : AdapterTable
table = record {
  fpga_open = some (λ token flags. (fpga_ok, token + flags));
  fpga_close = some (λ h. fpga_exception);
  fpga_clone_token = some (λ token. (fpga_ok, token + 1));
  fpga_destroy_token = some (λ token. fpga_ok);
}

abbrev token : WrappedToken
token = record {
  magic = opae_wrapped_token_magic;
  opae_token = 77;
  ref_count = 1;
  adapter_table = table;
}

abbrev tokens : Tokens
tokens = record { cell = λ q. if 8 == q then some token else none; in_use = 8 ∷ [] }

abbrev shell : Shell
shell = record { handles = λ q. none; tokens = tokens }

tokens-IsValid : IsValid tokens
tokens-IsValid q = ground arith

can_open : CanOpen shell 8 1 token 78 (λ h. fpga_exception)
can_open = record {
  valid = tokens-IsValid;
  not_null = omega arith;
  there = refl;
  magic = refl;
  few = omega arith;
  opens = λ token flags. (fpga_ok, token + flags);
  has_open = refl;
  has_close = refl;
  answer = refl;
}

open-close_example :
    (s' : Shell) × (s'' : Shell) × (fpga_open (some 500) shell 8 true 1
      ≡ (fpga_ok, some 500, s', open_call 77 1 ∷ []))
    × (fpga_close s' 500 ≡ (fpga_exception, s'', close_call 78 ∷ []))
    × (s''.handles ≡ shell.handles)
    × ((q : ℕ) → refs s''.tokens q ≡ refs tokens q)
    × IsValid s''.tokens
open-close_example =
    open-close shell 8 1 500 token 78 (λ h. fpga_exception) can_open (omega arith) refl

can_clone : CanClone tokens 8 token 78
can_clone = record {
  valid = tokens-IsValid;
  not_null = omega arith;
  there = refl;
  magic = refl;
  clones = λ token. (fpga_ok, token + 1);
  destroys = λ token. fpga_ok;
  has_clone = refl;
  has_destroy = refl;
  answer = refl;
}

clone-destroy_token_example :
    (ts' : Tokens) × (fpga_clone_token (some 9) tokens 8 true
      ≡ (fpga_ok, some 9, ts', clone_call 77 ∷ []))
    × ((q : ℕ) → refs ts' q ≡ (if 9 == q then 1 else refs tokens q))
    × ((q : ℕ) → refs (fpga_destroy_token ts' (some 9)).1 q ≡ refs tokens q)
    × IsValid (fpga_destroy_token ts' (some 9)).1
clone-destroy_token_example = clone-destroy_token tokens 8 9 token 78 can_clone (omega arith) refl
