-- ===== src/Host/Network.antt =====
-- crates/vdsm-host/src/sysinfo.rs: network interfaces, their addresses and the gateway.
use vdsm_rs.Base.{
  ℕ, ◌+◌, ◌-◌, ◌*◌, ◌/◌, ◌%◌, ◌^◌, Bool, true, false, not, ◌&&◌, ◌||◌, Option, none, some, List, [],
  ◌∷◌, ◌++◌, if◌then◌else◌, ◌==◌, Text, codes, text_eq, filter, length, ltb, leb, starts_with, all,
  is_ascii_digit,
}
use vdsm_rs.Encoding.Decimal.{parse_word, u32_max, to_string}
use vdsm_rs.Encoding.Split.{split_on}
use vdsm_rs.Encoding.Trim.{split_whitespace}
use vdsm_rs.Host.Files.{split_at}
use vdsm_rs.Host.{Probe, read_or}
use vdsm_rs.Encoding.Sort.{sort}

-- The interfaces that `mgmt_iface` does not take.
unfoldable pub skip : Text → Bool
skip n =
    text_eq n (codes "lo")
    || starts_with n (codes "virbr")
    || starts_with n (codes "docker")
    || starts_with n (codes "br-")
    || starts_with n (codes "veth")
    || starts_with n (codes "vnet")
    || starts_with n (codes "ovirtmgmt")

find_taken : List Text → Text
find_taken [] = codes "lo"
find_taken (n ∷ ns) = let rest = find_taken ns in if skip n then rest else n

-- A part of an address: one to three digits without a zero in front, up to 255.
octet : Text → Option ℕ
octet s =
    if all is_ascii_digit s
      && leb (length s) 3
      && (length s == 1 || not (starts_with s (codes "0")))
    then parse_word 255 s
    else none

octets : List Text → Option (List ℕ)
octets [] = some []
octets (p ∷ ps) =
    let rest = octets ps in
    elim (octet p) [ none ↦ none | some n ↦ elim rest [ none ↦ none | some ns ↦ some (n ∷ ns) ] ]

-- Whether `parse::<Ipv4Addr>()` reads a text.
unfoldable pub is_ipv4 : Text → Bool
unfolding octets octet
is_ipv4 s =
    (length (split_on b'.' s) == 4)
    && elim (octets (split_on b'.' s)) [ none ↦ false | some ns ↦ true ]

-- `u32::MAX.checked_shl(32 - prefix).unwrap_or(0)`, where the difference is one of 32 bits.
unfoldable pub mask_of : ℕ → ℕ
mask_of prefix =
    let shift = (2 ^ 32 + 32 - prefix) % 2 ^ 32 in
    if ltb shift 32 then (2 ^ 32 - 1) * 2 ^ shift % 2 ^ 32 else 0

-- The mask's bytes with dots between them.
unfoldable pub netmask : ℕ → Text
netmask mask =
    to_string (mask / 2 ^ 24 % 256)
    ++ (b'.' ∷ to_string (mask / 2 ^ 16 % 256)
        ++ (b'.' ∷ to_string (mask / 2 ^ 8 % 256) ++ (b'.' ∷ to_string (mask % 256))))

prefix_of : Text → ℕ
prefix_of s = elim (parse_word u32_max s) [ none ↦ 24 | some n ↦ n ]

address_of : Text → Option (Text × Text) → Option (Text × Text × Text)
address_of token none = none
address_of token (some (ip, mask)) =
    if is_ipv4 ip then some (ip, token, netmask (mask_of (prefix_of mask))) else none

-- The first address among words, with its token and netmask.
unfoldable pub find_address : List Text → Text × Text × Text
unfolding address_of prefix_of
find_address [] = ([], [], [])
find_address (token ∷ ts) =
    let rest = find_address ts in
    elim (address_of token (split_at b'/' token)) [ none ↦ rest | some found ↦ found ]

-- The word behind the first `via` that has one.
find_via : List Text → Text
find_via [] = []
find_via (t ∷ []) = []
find_via (t ∷ gw ∷ ts) =
    let rest = find_via (gw ∷ ts) in if text_eq t (codes "via") then gw else rest

module _ (probe : Probe) where
  -- `nic_names`
  unfoldable pub nic_names : List Text
  nic_names = elim (probe.read_dir (codes "/sys/class/net")) [
    | none ↦ []
    | some names ↦ sort (filter (λ n. not (text_eq n (codes "lo"))) names)
  ]

  -- The two files of an interface that is up.
  unfoldable pub is_up : Text → Bool
  is_up n =
      let state = read_or probe [] (codes "/sys/class/net/" ++ (n ++ codes "/operstate")) in
      text_eq (read_or probe [] (codes "/sys/class/net/" ++ (n ++ codes "/carrier"))) (codes "1")
      && (text_eq state (codes "up") || text_eq state (codes "unknown"))

  find_up : List Text → Option Text
  find_up [] = none
  find_up (n ∷ ns) = let rest = find_up ns in if not (skip n) && is_up n then some n else rest

  iface_of : List Text → Option Text → Text
  iface_of ns none = find_taken ns
  iface_of ns (some n) = n

  unfoldable pub iface_among : List Text → Text
  unfolding iface_of find_up find_taken
  iface_among ns = iface_of ns (find_up ns)

  -- `mgmt_iface`
  unfoldable pub mgmt_iface : Text
  mgmt_iface = iface_among nic_names

  -- `iface_mac` and `iface_mtu`
  unfoldable pub iface_mac : Text → Text
  iface_mac n =
      read_or probe (codes "00:00:00:00:00:00") (codes "/sys/class/net/" ++ (n ++ codes "/address"))

  unfoldable pub iface_mtu : Text → Text
  iface_mtu n = read_or probe (codes "1500") (codes "/sys/class/net/" ++ (n ++ codes "/mtu"))

  -- `iface_ipv4`
  unfoldable pub iface_ipv4 : Text → Text × Text × Text
  iface_ipv4 n =
      elim (probe.output (codes "/usr/sbin/ip")
        (codes "-4" ∷ codes "-o" ∷ codes "addr" ∷ codes "show" ∷ n ∷ [])) [
          | none ↦ ([], [], [])
          | some o ↦ find_address (split_whitespace (probe.lossy o.out))
        ]

  -- `default_gateway`
  unfoldable pub default_gateway : Text
  unfolding find_via
  default_gateway =
      elim (probe.output (codes "/usr/sbin/ip")
        (codes "-4" ∷ codes "route" ∷ codes "show" ∷ codes "default" ∷ [])) [
          | none ↦ []
          | some o ↦ find_via (split_whitespace (probe.lossy o.out))
        ]
