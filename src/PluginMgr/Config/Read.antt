-- ===== src/PluginMgr/Config/Read.antt =====
-- The buffer for the configuration file.
use opae_libs.Prelude.{
  ℕ, zero, suc, ◌+◌, ◌≤◌, ◌<◌, Bool, true, false, ◌||◌, Option, none, some, List, [], ◌∷◌,
}
use opae_libs.Prelude.{length, ltb, ◌==◌, if◌then◌else◌, ◌≡◌, refl, arith, inl, inr, Bool-cases}
use opae_libs.PluginMgr.{Text, PluginMgr}
use opae_libs.PluginMgr.Config.{
  Json, CfgFile, max_cfg_size, process_cfg_buffer, read_from, text_in, parse_text, parse_ended,
  parse_read, opae_plugin_mgr_parse_config,
}

-- The text that an array of bytes holds ends before the first 0.
abbrev pub text_of : List ℕ → Text
text_of [] = []
text_of (b ∷ bs) = if b == 0 then [] else b ∷ text_of bs

abbrev pub has_zero : List ℕ → Bool
has_zero [] = false
has_zero (b ∷ bs) = (b == 0) || has_zero bs

read_from_fits :
    (bs : List ℕ) (total : ℕ) → total + length bs ≤ max_cfg_size → read_from bs total ≡ (bs, true)
unfolding read_from
read_from_fits [] total h = refl
read_from_fits (b ∷ bs) total h =
    let y : ltb total max_cfg_size ≡ true = ground arith in
    rw (read_from_fits bs (total + 1) (omega (arith, h)), y) refl

read_from_behind :
    (bs : List ℕ) (total : ℕ)
    → total ≤ max_cfg_size
    → max_cfg_size < total + length bs
    → total + length (read_from bs total).0 ≡ max_cfg_size + 1
unfolding read_from
read_from_behind [] total h k = omega (arith, h, k)
read_from_behind (b ∷ bs) total h k = elim (Bool-cases (ltb total max_cfg_size)) [
  | inl y ↦
      rw (read_from, y)
        (omega (arith, read_from_behind bs (total + 1) (ground arith) (omega (arith, k))))
  | inr y ↦ rw (read_from, y) (ground arith)
]

text_in_lem :
    (room : ℕ) (bs : List ℕ)
    → length bs ≤ room
    → text_in room bs ≡ (if has_zero bs || ltb (length bs) room then some (text_of bs) else none)
unfolding text_in
text_in_lem zero [] h = refl
text_in_lem zero (b ∷ bs) h = ground arith
text_in_lem (suc room) [] h = let y : ltb 0 (suc room) ≡ true = ground arith in rw y refl
text_in_lem (suc room) (b ∷ bs) h = elim (Bool-cases (b == 0)) [
  | inl y ↦ rw y refl
  | inr y ↦
      let z : ltb (suc (length bs)) (suc room) ≡ ltb (length bs) room = ground arith in
      rw (y, z, text_in_lem room bs (omega (arith, h)))
        (elim (Bool-cases (has_zero bs || ltb (length bs) room)) [
          | inl u ↦ rw u refl
          | inr u ↦ rw u refl
        ])
]

-- The result of reading an open file. The two Booleans are whether the file is larger than the buffer
-- and whether reading fails; the third one is whether the text ends in the buffer.
abbrev pub read_of :
    (Text → Option Json) → List ℕ → PluginMgr → Bool → Bool → Bool → Option (ℕ × PluginMgr)
read_of json bytes m true read_error ends = none
read_of json bytes m false true ends = some (1, m)
read_of json bytes m false false false = none
read_of json bytes m false false true = some (process_cfg_buffer (json (text_of bytes)) m)

ended_lem :
    (json : Text → Option Json) (bytes : List ℕ) (m : PluginMgr) (read_error ends : Bool)
    → text_in max_cfg_size bytes ≡ (if ends then some (text_of bytes) else none)
    → parse_ended json read_error true bytes m ≡ read_of json bytes m false read_error ends
unfolding parse_ended parse_text
ended_lem json bytes m true ends e = refl
ended_lem json bytes m false true e = rw e refl
ended_lem json bytes m false false e = rw e refl

-- What reading an open configuration file does, of any size: a file larger than the buffer is written
-- behind it; otherwise an error in reading gives 1 and no change; else a file that exactly fills the
-- buffer and has no 0 in it is read as a text without an end, and from any other one the plugins are
-- taken that the JSON library finds in the bytes before the first 0.
pub opae_plugin_mgr_parse_config_lem :
    (json : Text → Option Json) (file : CfgFile) (m : PluginMgr)
    → opae_plugin_mgr_parse_config json (some file) m
      ≡ read_of json file.bytes m
          (ltb max_cfg_size (length file.bytes))
          file.read_error
          (has_zero file.bytes || ltb (length file.bytes) max_cfg_size)
unfolding opae_plugin_mgr_parse_config parse_read
opae_plugin_mgr_parse_config_lem json file m =
    let bs = file.bytes in
    elim (Bool-cases (ltb max_cfg_size (length bs))) [
      | inl y ↦
          let w = (read_from bs 0).0 in
          let h = read_from_behind bs 0 (omega arith) (ground arith) in
          let z : ltb max_cfg_size (length w) ≡ true = ground arith in
          rw (opae_plugin_mgr_parse_config, y, z) refl
      | inr y ↦
          let h : length bs ≤ max_cfg_size = ground arith in
          rw (read_from_fits bs 0 (omega (arith, h)), y)
            (ended_lem json bs m file.read_error (has_zero bs || ltb (length bs) max_cfg_size)
              (text_in_lem max_cfg_size bs h))
    ]
