-- ===== src/PluginMgr/Config.antt =====
-- The configuration file of libopae-c/pluginmgr.c: how it is read, and the list of the plugins that
-- it names. The JSON library is an argument: what it finds in the text.
pub mod Kept
pub mod Read
use opae_libs.Prelude.{
  ℕ, zero, suc, ◌+◌, ◌-◌, ◌≤◌, ◌<◌, Bool, true, false, Option, none, some, List, [], ◌∷◌, ◌++◌,
}
use opae_libs.Prelude.{
  length, take, ltb, leb, ◌==◌, if◌then◌else◌, ◌≡◌, ◌≢◌, refl, ap, ◌∙◌, arith, inl, inr, Bool-cases,
  All,
}
use opae_libs.PluginMgr.{Text, PluginCfg, PluginMgr}

-- The configuration of one plugin: its three members, none where one is missing, with the text of
-- `configuration`, none where it cannot be made; and whether the two calls of `malloc` succeed.
pub record JsonConfig : Type 0 where
  pub plugin : Option Text
  pub configuration : Option (Option Text)
  pub enabled : Option Bool
  pub has_node : Bool
  pub has_text : Bool

-- An entry of the array "plugins", with what "configurations" has under its name.
pub record JsonPlugin : Type 0 where
  pub name : Text
  pub config : Option JsonConfig

-- The root: "plugins", none where it is missing, and then none where it is no array; and whether
-- "configurations" is there.
pub record Json : Type 0 where
  pub plugins : Option (Option (List JsonPlugin))
  pub has_configs : Bool

abbrev pub plugin_name_max : ℕ
plugin_name_max = 64

abbrev pub max_plugin_cfg_size : ℕ
max_plugin_cfg_size = 8192

abbrev pub max_cfg_size : ℕ
max_cfg_size = 4096

-- New entries go to the end.
abbrev pub append_cfg : List PluginCfg → PluginCfg → List PluginCfg
append_cfg [] cfg = cfg ∷ []
append_cfg (c ∷ cs) cfg = c ∷ append_cfg cs cfg

abbrev pub opae_plugin_mgr_add_plugin : PluginMgr → PluginCfg → PluginMgr
opae_plugin_mgr_add_plugin m cfg = record m {
  config_list = append_cfg m.config_list cfg;
  plugin_count = m.plugin_count + 1;
}

-- The node that is filled, with the names cut to their arrays.
abbrev pub cfg_of : Text → Text → Bool → Text → PluginCfg
cfg_of name plugin enabled text = record {
  name = take (plugin_name_max - 1) name;
  plugin = take (plugin_name_max - 1) plugin;
  enabled = enabled;
  cfg = text;
}

-- The Boolean is whether `malloc` gives the memory for the text.
copy_text : Bool → PluginCfg → PluginMgr → ℕ × PluginMgr
copy_text false cfg m = (1, m)
copy_text true cfg m = (0, opae_plugin_mgr_add_plugin m cfg)

-- From the first `malloc` on, which the first Boolean behind `enabled` answers.
process_text : Text → Text → Bool → Bool → Bool → Option Text → PluginMgr → ℕ × PluginMgr
unfolding copy_text
process_text name plugin enabled false has_text text m = (1, m)
process_text name plugin enabled true has_text none m = (1, m)
process_text name plugin enabled true has_text (some text) m =
    if leb max_plugin_cfg_size (length text + 1)
    then (1, m)
    else copy_text has_text (cfg_of name plugin enabled text) m

-- The three members are there.
process_members : Text → JsonConfig → Text → Option Text → Bool → PluginMgr → ℕ × PluginMgr
unfolding process_text
process_members name j plugin text enabled m =
    if ltb plugin_name_max (length plugin)
    then (1, m)
    else process_text name plugin enabled j.has_node j.has_text text m

process_got :
    Text → JsonConfig → Option Text → Option (Option Text) → Option Bool → PluginMgr → ℕ × PluginMgr
unfolding process_members
process_got name j none configuration enabled m = (1, m)
process_got name j (some plugin) none enabled m = (1, m)
process_got name j (some plugin) (some text) none m = (1, m)
process_got name j (some plugin) (some text) (some enabled) m =
    process_members name j plugin text enabled m

pub process_plugin : Text → JsonConfig → PluginMgr → ℕ × PluginMgr
unfolding process_got
process_plugin name j m = process_got name j j.plugin j.configuration j.enabled m

process_found : Text → Option JsonConfig → PluginMgr → ℕ × PluginMgr
unfolding process_plugin
process_found name none m = (1, m)
process_found name (some j) m = process_plugin name j m

-- The loop over the array.
process_plugins : List JsonPlugin → PluginMgr → ℕ × PluginMgr
unfolding process_found
process_plugins [] m = (0, m)
process_plugins (p ∷ ps) m =
    let (n, m') = process_found p.name p.config m in
    let (n', m'') = process_plugins ps m' in (n + n', m'')

process_root : Bool → Option (Option (List JsonPlugin)) → PluginMgr → ℕ × PluginMgr
unfolding process_plugins
process_root has_configs none m = (1, m)
process_root false (some plugins) m = (1, m)
process_root true (some none) m = (1, m)
process_root true (some (some plugins)) m = process_plugins plugins m

-- What the JSON library makes of the text, none where it is no JSON.
pub process_cfg_buffer : Option Json → PluginMgr → ℕ × PluginMgr
unfolding process_root
process_cfg_buffer none m = (1, m)
process_cfg_buffer (some root) m = process_root root.has_configs root.plugins m

-- A file that is open: its bytes, and whether reading ends with an error behind them.
pub record CfgFile : Type 0 where
  pub bytes : List ℕ
  pub read_error : Bool

-- The loop: the bytes that are written, from the start of the buffer on, and whether the last `fread`
-- met the end. The byte is read and written before the number of bytes is tested.
read_from : List ℕ → ℕ → List ℕ × Bool
read_from [] total = ([], true)
read_from (b ∷ bs) total =
    let (written, at_end) = read_from bs (total + 1) in
    if ltb total max_cfg_size then (b ∷ written, at_end) else (b ∷ [], false)

-- The text that a buffer of 0 holds after the bytes are written, none where it has no end.
text_in : ℕ → List ℕ → Option Text
text_in zero written = none
text_in (suc room) [] = some []
text_in (suc room) (b ∷ bs) =
    if b == 0 then some [] else elim (text_in room bs) [ none ↦ none | some t ↦ some (b ∷ t) ]

parse_text : (Text → Option Json) → Option Text → PluginMgr → Option (ℕ × PluginMgr)
unfolding process_cfg_buffer
parse_text json none m = none
parse_text json (some text) m = some (process_cfg_buffer (json text) m)

-- The two Booleans are `ferror` and `feof`.
parse_ended : (Text → Option Json) → Bool → Bool → List ℕ → PluginMgr → Option (ℕ × PluginMgr)
unfolding parse_text text_in
parse_ended json true at_end written m = some (1, m)
parse_ended json false false written m = some (1, m)
parse_ended json false true written m = parse_text json (text_in max_cfg_size written) m

-- After the loop.
parse_read : (Text → Option Json) → Bool → List ℕ × Bool → PluginMgr → Option (ℕ × PluginMgr)
unfolding parse_ended
parse_read json read_error (written, at_end) m =
    if ltb max_cfg_size (length written) then none else parse_ended json read_error at_end written m

-- The file is none where it cannot be opened. Undefined behaviour is none: a byte written behind the
-- buffer, or a text that does not end in it.
unfoldable pub opae_plugin_mgr_parse_config :
    (Text → Option Json) → Option CfgFile → PluginMgr → Option (ℕ × PluginMgr)
unfolding parse_read read_from
opae_plugin_mgr_parse_config json none m = some (1, m)
opae_plugin_mgr_parse_config json (some file) m =
    parse_read json file.read_error (read_from file.bytes 0) m
