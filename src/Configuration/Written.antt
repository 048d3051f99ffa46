-- ===== src/Configuration/Written.antt =====
-- About `parse_vsecplat_config` of vsecplat_config.c on a file that states the settings.
use vsecplat.Common.{suc, false, List, [], ◌∷◌, ◌++◌, Option, none, some, map, ℤ, pos, negsuc}
use vsecplat.Common.{◌≡◌, refl, ◌∙◌, ap, arith, length, to_int}
use vsecplat.Common.Run.{ok}
use vsecplat.Policy.Text.{Str}
use vsecplat.Json.{Json, Members, integer, string, object, array, nil, member}
use vsecplat.Json.Access.{count_members}
use vsecplat.Json.Parse.{parsed, rte_parse_json}
use vsecplat.Json.Parse.Number.{FloatOps, ExactBelow}
use vsecplat.Json.Parse.Number.Written.{IsSmall}
use vsecplat.Json.Parse.Shown.{IsStorable, shown, shown-append}
use vsecplat.Json.Parse.Written.{parse_shown_text}
use vsecplat.Configuration.{
  MgtCfg, ServCfg, VsecplatConfig, nm_name_len, nm_addr_str_len, key_mgt_cfg, key_serv_cfg,
  key_inport_list, key_outport_list, key_time_interval, key_isencrypted, key_isstatistics, key_name,
  key_ipaddr, key_gateway, key_tcpport, key_udpport, strncpy, port_names, read_config,
  parse_vsecplat_config,
}

-- What a configuration states: the sections may be left out.
pub record Settings : Type 0 where
  pub mgt : Option MgtCfg
  pub serv : Option ServCfg
  pub inports : List Str
  pub outports : List Str
  pub time_interval : ℤ
  pub isencrypted : ℤ
  pub isstatistics : ℤ

abbrev settings : Option MgtCfg → Option ServCfg → List Str → List Str → ℤ → ℤ → ℤ → Settings
settings mgt serv inports outports t e n = record {
  mgt = mgt;
  serv = serv;
  inports = inports;
  outports = outports;
  time_interval = t;
  isencrypted = e;
  isstatistics = n;
}

module _ {F : Type 0} where
  abbrev pub mgt_json : MgtCfg → Json F
  mgt_json c = object (
      member (some key_name) (string c.name) (
        member (some key_ipaddr) (string c.ipaddr) (
          member (some key_gateway) (string c.gateway)
            (member (some key_tcpport) (integer c.tcpport) nil))))

  abbrev pub serv_json : ServCfg → Json F
  serv_json c = object (
      member (some key_ipaddr) (string c.ipaddr)
        (member (some key_udpport) (integer c.udpport) nil))

  abbrev pub ports_json : List Str → Members F
  ports_json [] = nil
  ports_json (s ∷ names) =
      member none (object (member (some key_name) (string s) nil)) (ports_json names)

  abbrev pub section : {A : Type 0} → Str → (A → Json F) → Option A → Members F → Members F
  section key write none rest = rest
  section key write (some a) rest = member (some key) (write a) rest

  -- The settings as a value.
  abbrev pub settings_json : Settings → Json F
  settings_json s = object (
      section key_mgt_cfg mgt_json s.mgt (
        section key_serv_cfg serv_json s.serv (
          member (some key_inport_list) (array (ports_json s.inports)) (
            member (some key_outport_list) (array (ports_json s.outports)) (
              member (some key_time_interval) (integer s.time_interval) (
                member (some key_isencrypted) (integer s.isencrypted)
                  (member (some key_isstatistics) (integer s.isstatistics) nil)))))))

abbrev pub mgt_kept : MgtCfg → MgtCfg
mgt_kept c = record {
  name = strncpy nm_name_len c.name;
  ipaddr = strncpy nm_addr_str_len c.ipaddr;
  gateway = strncpy nm_addr_str_len c.gateway;
  tcpport = c.tcpport;
}

abbrev pub serv_kept : ServCfg → ServCfg
serv_kept c = record { ipaddr = strncpy nm_addr_str_len c.ipaddr; udpport = c.udpport }

abbrev pub option_map : {A : Type 0} → (A → A) → Option A → Option A
option_map f none = none
option_map f (some a) = some (f a)

-- The configuration that the settings stand for: texts are cut to the size of their arrays.
abbrev pub kept_config : Settings → VsecplatConfig
kept_config s = record {
  mgt_cfg = option_map mgt_kept s.mgt;
  serv_cfg = option_map serv_kept s.serv;
  inport_num = length s.inports;
  inport_desc_array = map (strncpy nm_name_len) s.inports;
  outport_num = length s.outports;
  outport_desc_array = map (strncpy nm_name_len) s.outports;
  time_interval = s.time_interval;
  isencrypted = s.isencrypted;
  isstatistics = s.isstatistics;
  mirror_state = pos 1;
  guide_state = pos 1;
}

-- An integer that a `float` holds fits an `int`.
to_int-IsSmall : (z : ℤ) → IsSmall z → to_int z ≡ z
to_int-IsSmall (pos n) h = ground arith
to_int-IsSmall (negsuc n) h = ground arith

module _ (F : Type 0) where
  port_names-ports_json :
      (names : List Str)
      → port_names {F = F} (ports_json names) ≡ ok (some (map (strncpy nm_name_len) names))
  unfolding port_names
  port_names-ports_json [] = refl
  port_names-ports_json (s ∷ names) = rw (port_names-ports_json names) refl

  count_members-ports_json :
      (names : List Str) → count_members {F = F} (ports_json names) ≡ length names
  unfolding count_members
  count_members-ports_json [] = refl
  count_members-ports_json (s ∷ names) = ap suc (count_members-ports_json names)

  read_back :
      (mgt : Option MgtCfg) (serv : Option ServCfg) (inports outports : List Str) (t e n : ℤ)
      → IsStorable {F = F} (settings_json (settings mgt serv inports outports t e n))
      → read_config (settings_json {F = F} (settings mgt serv inports outports t e n))
        ≡ ok (some (kept_config (settings mgt serv inports outports t e n)))
  unfolding read_config
  read_back none none inports outports t e n h =
      let numbers = h.2.2 in
      rw
        (
          port_names-ports_json inports,
          port_names-ports_json outports,
          to_int-IsSmall t numbers.1,
          to_int-IsSmall e numbers.2.1,
          to_int-IsSmall n numbers.2.2.1,
          count_members-ports_json inports,
          count_members-ports_json outports,
        )
        refl
  read_back (some m) none inports outports t e n h =
      let numbers = h.2.2.2 in
      rw
        (
          port_names-ports_json inports,
          port_names-ports_json outports,
          to_int-IsSmall t numbers.1,
          to_int-IsSmall e numbers.2.1,
          to_int-IsSmall n numbers.2.2.1,
          count_members-ports_json inports,
          count_members-ports_json outports,
          to_int-IsSmall m.tcpport h.1.2.2.2.1,
        )
        refl
  read_back none (some c) inports outports t e n h =
      let numbers = h.2.2.2 in
      rw
        (
          port_names-ports_json inports,
          port_names-ports_json outports,
          to_int-IsSmall t numbers.1,
          to_int-IsSmall e numbers.2.1,
          to_int-IsSmall n numbers.2.2.1,
          count_members-ports_json inports,
          count_members-ports_json outports,
          to_int-IsSmall c.udpport h.1.2.1,
        )
        refl
  read_back (some m) (some c) inports outports t e n h =
      let numbers = h.2.2.2.2 in
      rw
        (
          port_names-ports_json inports,
          port_names-ports_json outports,
          to_int-IsSmall t numbers.1,
          to_int-IsSmall e numbers.2.1,
          to_int-IsSmall n numbers.2.2.1,
          count_members-ports_json inports,
          count_members-ports_json outports,
          to_int-IsSmall m.tcpport h.1.2.2.2.1,
          to_int-IsSmall c.udpport h.2.1.2.1,
        )
        refl

module _ {F : Type 0} (ops : FloatOps F) (exact : ExactBelow ops) (show_float : F → Str) where
  parse_vsecplat_config-rte_parse_json :
      (file beyond : Str) (json : Json F)
      → rte_parse_json ops (file ++ beyond) ≡ parsed json []
      → parse_vsecplat_config ops (some file) beyond ≡ read_config json
  unfolding parse_vsecplat_config
  parse_vsecplat_config-rte_parse_json file beyond json h = rw (h, parse_vsecplat_config) refl

  -- The daemon reads from a file that holds the text of the settings, as `rte_persist_json` writes
  -- it, the configuration that they stand for, whatever lies in memory behind the file's text. The
  -- settings can be stored: texts are bytes other than NUL, and integers lie between -2^24 and 2^24.
  -- The arithmetic of `float` is exact below 2^24.
  pub parse_vsecplat_config-settings_json :
      (s : Settings) (beyond : Str)
      → IsStorable {F = F} (settings_json s)
      → parse_vsecplat_config ops (some (shown {F = F} false 0 (settings_json s) [])) beyond
        ≡ ok (some (kept_config s))
  parse_vsecplat_config-settings_json s beyond h =
      let json = settings_json {F = F} s in
      let text = shown-append show_float 0 json beyond h in
      let plain = parse_shown_text ops exact false json beyond h tt in
      parse_vsecplat_config-rte_parse_json (shown false 0 json []) beyond json
        (ap (rte_parse_json ops) text ∙ plain)
      ∙ read_back F s.mgt s.serv s.inports s.outports s.time_interval s.isencrypted s.isstatistics h
