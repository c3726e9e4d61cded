-- ===== src/Token/Tests.antt =====
-- One wrapped token, made, counted and given back.
use opae_libs.Prelude.{none, some, [], ◌∷◌, ◌≡◌, refl, arith}
use opae_libs.Prelude.{◌==◌, if◌then◌else◌}
use opae_libs.Types.{fpga_exception}
use opae_libs.Token.{AdapterTable, WrappedToken, Tokens, opae_wrapped_token_magic}
use opae_libs.Token.{opae_downref_wrapped_token, opae_allocate_wrapped_token}
use opae_libs.Token.{opae_wrapped_tokens_in_use}
use opae_libs.Token.Count.{IsValid}

abbrev no_tokens : Tokens
no_tokens = record { cell = λ q. none; in_use = [] }

-- A plugin whose destruction of a token fails.
abbrev adapter : AdapterTable
adapter = record {
  fpga_open = none;
  fpga_close = none;
  fpga_clone_token = none;
  fpga_destroy_token = some (λ token. fpga_exception);
}

abbrev wrapped : WrappedToken
wrapped = record {
  magic = opae_wrapped_token_magic;
  opae_token = 77;
  ref_count = 1;
  adapter_table = adapter;
}

abbrev one_token : Tokens
one_token = record { cell = λ q. if 8 == q then some wrapped else none; in_use = 8 ∷ [] }

last_reference : (opae_downref_wrapped_token one_token 8).0 ≡ fpga_exception
unfolding opae_downref_wrapped_token
last_reference = refl

counted :
    opae_wrapped_tokens_in_use (opae_allocate_wrapped_token (some 8) no_tokens 77 adapter).1 ≡ 1
unfolding opae_wrapped_tokens_in_use opae_allocate_wrapped_token
counted = refl

one_token-IsValid : IsValid one_token
one_token-IsValid q = ground arith
