-- ===== src/Configuration.antt =====
-- The configuration of the daemon: userspace/daemon/vsecplat_config.c and vsecplat_config.h. The
-- devices of the ports, which the file does not name, are left out.
pub mod Written
use vsecplat.Common.{ℕ, ◌-◌, List, [], ◌∷◌, ◌++◌, Option, none, some, ℤ, pos}
use vsecplat.Common.{length, replicate, take, to_int}
use vsecplat.Common.Run.{Run, ok, fault, ◌>>=◌}
use vsecplat.Policy.Text.{Str}
use vsecplat.Json.{
  Json, Members, null, false_value, true_value, integer, float, string, object, array, nil, member,
}
use vsecplat.Json.Access.{rte_object_get_item, rte_array_get_size}
use vsecplat.Json.Parse.{parsed, failed, faulted, out_of_fuel, rte_parse_json}
use vsecplat.Json.Parse.Number.{FloatOps}

abbrev pub nm_name_len : ℕ
nm_name_len = 16

abbrev pub nm_addr_str_len : ℕ
nm_addr_str_len = 18

-- In seconds.
abbrev pub vsecplat_report_interval : ℕ
vsecplat_report_interval = 60

abbrev pub key_mgt_cfg : Str
key_mgt_cfg = b'm' ∷ b'g' ∷ b't' ∷ b'_' ∷ b'c' ∷ b'f' ∷ b'g' ∷ []

abbrev pub key_serv_cfg : Str
key_serv_cfg = b's' ∷ b'e' ∷ b'r' ∷ b'v' ∷ b'_' ∷ b'c' ∷ b'f' ∷ b'g' ∷ []

abbrev pub key_inport_list : Str
key_inport_list = b'i' ∷ b'n' ∷ b'p' ∷ b'o' ∷ b'r' ∷ b't' ∷ b'_' ∷ b'l' ∷ b'i' ∷ b's' ∷ b't' ∷ []

abbrev pub key_outport_list : Str
key_outport_list =
    b'o' ∷ b'u' ∷ b't' ∷ b'p' ∷ b'o' ∷ b'r' ∷ b't' ∷ b'_' ∷ b'l' ∷ b'i' ∷ b's' ∷ b't' ∷ []

abbrev pub key_time_interval : Str
key_time_interval =
    b't' ∷ b'i' ∷ b'm' ∷ b'e' ∷ b'_' ∷ b'i' ∷ b'n' ∷ b't' ∷ b'e' ∷ b'r' ∷ b'v' ∷ b'a' ∷ b'l' ∷ []

abbrev pub key_isencrypted : Str
key_isencrypted = b'i' ∷ b's' ∷ b'e' ∷ b'n' ∷ b'c' ∷ b'r' ∷ b'y' ∷ b'p' ∷ b't' ∷ b'e' ∷ b'd' ∷ []

abbrev pub key_isstatistics : Str
key_isstatistics =
    b'i' ∷ b's' ∷ b's' ∷ b't' ∷ b'a' ∷ b't' ∷ b'i' ∷ b's' ∷ b't' ∷ b'i' ∷ b'c' ∷ b's' ∷ []

abbrev pub key_name : Str
key_name = b'n' ∷ b'a' ∷ b'm' ∷ b'e' ∷ []

abbrev pub key_ipaddr : Str
key_ipaddr = b'i' ∷ b'p' ∷ b'a' ∷ b'd' ∷ b'd' ∷ b'r' ∷ []

abbrev pub key_gateway : Str
key_gateway = b'g' ∷ b'a' ∷ b't' ∷ b'e' ∷ b'w' ∷ b'a' ∷ b'y' ∷ []

abbrev pub key_tcpport : Str
key_tcpport = b't' ∷ b'c' ∷ b'p' ∷ b'p' ∷ b'o' ∷ b'r' ∷ b't' ∷ []

abbrev pub key_udpport : Str
key_udpport = b'u' ∷ b'd' ∷ b'p' ∷ b'p' ∷ b'o' ∷ b'r' ∷ b't' ∷ []

-- The arrays of characters are lists of their length, which end in no NUL where the text fills them.
pub record MgtCfg : Type 0 where
  pub name : Str
  pub ipaddr : Str
  pub gateway : Str
  pub tcpport : ℤ

pub record ServCfg : Type 0 where
  pub ipaddr : Str
  pub udpport : ℤ

-- A descriptor of a port is its name.
pub record VsecplatConfig : Type 0 where
  pub mgt_cfg : Option MgtCfg
  pub serv_cfg : Option ServCfg
  pub inport_num : ℕ
  pub inport_desc_array : List Str
  pub outport_num : ℕ
  pub outport_desc_array : List Str
  pub time_interval : ℤ
  pub isencrypted : ℤ
  pub isstatistics : ℤ
  pub mirror_state : ℤ
  pub guide_state : ℤ

abbrev pub default_config : VsecplatConfig
default_config = record {
  mgt_cfg = none;
  serv_cfg = none;
  inport_num = 0;
  inport_desc_array = [];
  outport_num = 0;
  outport_desc_array = [];
  time_interval = pos vsecplat_report_interval;
  isencrypted = pos 0;
  isstatistics = pos 1;
  mirror_state = pos 1;
  guide_state = pos 1;
}

-- `strncpy` of the C library into an array of `n` characters.
unfoldable pub strncpy : ℕ → Str → Str
strncpy n s = take n s ++ replicate (n - length s) 0

-- A step that can also end in `goto out`, which is `ok none`.
infixl 5 ◌>>?◌
abbrev pub ◌>>?◌ : {A B : Type 0} → Run (Option A) → (A → Run (Option B)) → Run (Option B)
m >>? f = m >>= λ o. elim o [ none ↦ ok none | some a ↦ f a ]

module _ {F : Type 0} where
  -- Any other value has no pointer to a text there.
  unfoldable pub val_str : Json F → Run Str
  val_str (string s) = ok s
  val_str _ = fault

  -- As an `int`. A new node is full of zeros; the bits of a pointer or a `float` are no value of the
  -- text.
  unfoldable pub val_int : Json F → Run ℤ
  val_int (integer n) = ok (to_int n)
  val_int (string s) = fault
  val_int (float x) = fault
  val_int _ = ok (pos 0)

  unfoldable pub required : {A : Type 0} → (Json F → Run A) → Json F → Str → Run (Option A)
  unfolding rte_object_get_item
  required val json key = rte_object_get_item json key >>= λ tmp. elim tmp [
    | none ↦ ok none
    | some t ↦ val t >>= λ a. ok (some a)
  ]

  -- An address that is not there stays empty.
  unfoldable pub optional_addr : Json F → Str → Run (Option Str)
  unfolding rte_object_get_item val_str strncpy
  optional_addr json key = rte_object_get_item json key >>= λ tmp. elim tmp [
    | none ↦ ok (some (replicate nm_addr_str_len 0))
    | some t ↦ val_str t >>= λ s. ok (some (strncpy nm_addr_str_len s))
  ]

  unfoldable pub parse_mgt_cfg : Json F → Run (Option MgtCfg)
  unfolding required optional_addr val_int
  parse_mgt_cfg item = required val_str item key_name >>? λ name.
      optional_addr item key_ipaddr >>? λ ipaddr. optional_addr item key_gateway >>? λ gateway.
      required val_int item key_tcpport >>? λ tcpport. ok (
        some (record {
          name = strncpy nm_name_len name;
          ipaddr = ipaddr;
          gateway = gateway;
          tcpport = tcpport;
        }))

  unfoldable pub parse_serv_cfg : Json F → Run (Option ServCfg)
  unfolding required val_str val_int strncpy
  parse_serv_cfg item = required val_str item key_ipaddr >>? λ ipaddr.
      required val_int item key_udpport >>? λ udpport.
      ok (some (record { ipaddr = strncpy nm_addr_str_len ipaddr; udpport = udpport }))

  -- The loop over the entries of a list of ports.
  unfoldable pub port_names : Members F → Run (Option (List Str))
  unfolding rte_object_get_item strncpy
  port_names nil = ok (some [])
  port_names (member k v m) =
      let rest = port_names m in
      rte_object_get_item v key_name >>= λ tmp. elim tmp [
        | some (string s) ↦ rest >>? λ names. ok (some (strncpy nm_name_len s ∷ names))
        | _ ↦ ok none
      ]

  unfoldable pub port_list : Json F → Run (Option (List Str))
  unfolding port_names
  port_list (array m) = port_names m
  port_list _ = ok none

  -- What is done with the value of a key, where the key is there.
  unfoldable pub if_there :
      Json F
      → Str
      → VsecplatConfig
      → (Json F → Run (Option VsecplatConfig))
      → Run (Option VsecplatConfig)
  unfolding rte_object_get_item
  if_there json key c use_item = rte_object_get_item json key >>= λ item. elim item [
    | none ↦ ok (some c)
    | some i ↦ use_item i
  ]

  unfoldable pub read_config : Json F → Run (Option VsecplatConfig)
  unfolding if_there parse_mgt_cfg parse_serv_cfg port_list val_int rte_array_get_size
  read_config json =
      if_there json key_mgt_cfg default_config
        (λ i. parse_mgt_cfg i >>? λ m. ok (some (record default_config { mgt_cfg = some m })))
      >>? (λ c.
          if_there json key_serv_cfg c
            (λ i. parse_serv_cfg i >>? λ s. ok (some (record c { serv_cfg = some s }))))
      >>? (λ c. if_there json key_inport_list c (λ i. port_list i >>? λ names.
          ok (some (record c { inport_num = rte_array_get_size i; inport_desc_array = names }))))
      >>? (λ c. if_there json key_outport_list c (λ i. port_list i >>? λ names.
          ok (some (record c { outport_num = rte_array_get_size i; outport_desc_array = names }))))
      >>? (λ c.
          if_there json key_time_interval c
            (λ i. val_int i >>= λ n. ok (some (record c { time_interval = n }))))
      >>? (λ c.
          if_there json key_isencrypted c
            (λ i. val_int i >>= λ n. ok (some (record c { isencrypted = n }))))
      >>? (λ c.
          if_there json key_isstatistics c
            (λ i. val_int i >>= λ n. ok (some (record c { isstatistics = n }))))

-- From the file on, which is read into a buffer of its size with no NUL behind it: `beyond` is what
-- lies in memory from there to the next NUL. `none` is the result -1, where the configuration is
-- given back. Reading the text never runs out of fuel.
unfoldable pub parse_vsecplat_config :
    {F : Type 0} → FloatOps F → Option Str → Str → Run (Option VsecplatConfig)
unfolding read_config
parse_vsecplat_config ops none beyond = ok none
parse_vsecplat_config ops (some file) beyond = elim (rte_parse_json ops (file ++ beyond)) [
  | parsed json rest ↦ read_config json
  | failed ↦ ok none
  | faulted ↦ fault
  | out_of_fuel ↦ fault
]
