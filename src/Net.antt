-- ===== src/Net.antt =====
-- kernel/net.c: the interfaces, the routing table and the address arithmetic of the IPv4 stack.
-- Addresses are `uint32_t` values in the order the code computes with, the first byte highest; an
-- `int` that the code tests for a sign is a ℤ. A pointer argument that is never NULL in a call is
-- the value it points to.
pub mod Route
pub mod Lookup
pub mod Arp
pub mod Checksum
pub mod Address
pub mod Queues
pub mod Socket
pub mod Tcp
pub mod Fifo
pub mod Receive
mod Tests
use furi_os.Prelude.{
  ℕ, zero, suc, ◌+◌, ◌-◌, ◌*◌, ◌/◌, ◌%◌, ◌^◌, Bool, true, false, not, ◌&&◌, ◌||◌, Option, none,
  some, List, [], ◌∷◌, ltb, leb, ◌==◌, if◌then◌else◌, get_or, take, replicate, bit_and, ℤ, pos,
  negsuc, negative, int_eq,
}

-- NET_IF_MAX, NET_ROUTE_MAX and NET_ARP_MAX
abbrev pub net_if_max : ℕ
net_if_max = 4

abbrev pub net_route_max : ℕ
net_route_max = 8

abbrev pub net_arp_max : ℕ
net_arp_max = 8

-- NET_LOOPBACK_IP_BE and NET_LOOPBACK_MASK_BE
abbrev pub loopback_ip : ℕ
loopback_ip = 0x7F000001

abbrev pub loopback_mask : ℕ
loopback_mask = 0xFF000000

pub record NetIf : Type 0 where
  pub up : Bool
  pub loopback : Bool
  pub dev_index : ℤ
  pub name : List ℕ
  pub addr_be : ℕ
  pub mask_be : ℕ
  pub gw_be : ℕ
  pub mac : List ℕ

pub record NetRoute : Type 0 where
  pub used : Bool
  pub prefix_be : ℕ
  pub mask_be : ℕ
  pub gw_be : ℕ
  pub if_index : ℤ

pub record RouteResult : Type 0 where
  pub ok : Bool
  pub local : Bool
  pub if_index : ℤ
  pub dev_index : ℤ
  pub src_ip_be : ℕ
  pub next_hop_be : ℕ

-- What memset leaves of an interface, of a route and of a result.
abbrev pub zero_if : NetIf
zero_if = record {
  up = false;
  loopback = false;
  dev_index = pos 0;
  name = replicate 8 0;
  addr_be = 0;
  mask_be = 0;
  gw_be = 0;
  mac = replicate 6 0;
}

abbrev pub zero_route : NetRoute
zero_route = record { used = false; prefix_be = 0; mask_be = 0; gw_be = 0; if_index = pos 0 }

abbrev pub zero_result : RouteResult
zero_result = record {
  ok = false;
  local = false;
  if_index = pos 0;
  dev_index = pos 0;
  src_ip_be = 0;
  next_hop_be = 0;
}

-- g_ifaces with g_if_count, and g_routes
pub record Net : Type 0 where
  pub ifaces : List NetIf
  pub if_count : ℕ
  pub routes : List NetRoute

-- `while (mask_be & 0x80000000U) { n++; mask_be <<= 1; }`, at most `fuel` rounds.
unfoldable pub prefix_loop : (fuel n mask : ℕ) → ℕ
prefix_loop zero n mask = n
prefix_loop (suc fuel) n mask =
    let rest = prefix_loop fuel (n + 1) (mask * 2 % 2 ^ 32) in
    if bit_and mask 0x80000000 == 0 then n else rest

unfoldable pub mask_prefix_len : ℕ → ℕ
mask_prefix_len mask = prefix_loop 33 0 mask

-- `(int32_t)(a - b) < 0` and `> 0`: the sign of the 32-bit difference
unfoldable pub tcp_seq_lt : ℕ → ℕ → Bool
tcp_seq_lt a b = leb (2 ^ 31) ((a + (2 ^ 32 - b)) % 2 ^ 32)

unfoldable pub tcp_seq_gt : ℕ → ℕ → Bool
tcp_seq_gt a b = let d = (a + (2 ^ 32 - b)) % 2 ^ 32 in ltb 0 d && ltb d (2 ^ 31)

unfoldable pub ip_in_subnet : (ip prefix mask : ℕ) → Bool
ip_in_subnet ip prefix mask = bit_and ip mask == bit_and prefix mask

abbrev pub in_loopback : ℕ → Bool
in_loopback ip = bit_and ip loopback_mask == bit_and loopback_ip loopback_mask

has_addr : ℕ → List NetIf → Bool
has_addr ip [] = false
has_addr ip (f ∷ fs) = (f.up && not (f.addr_be == 0) && f.addr_be == ip) || has_addr ip fs

unfoldable pub ip_is_any_local : Net → ℕ → Bool
unfolding has_addr
ip_is_any_local net ip = in_loopback ip || has_addr ip (take net.if_count net.ifaces)

unfoldable pub iface_src_ip_for_dst : NetIf → ℕ → ℕ
iface_src_ip_for_dst f dst = if f.loopback || in_loopback dst then loopback_ip else f.addr_be

-- `memset` of every route that a test selects.
unfoldable pub clear_routes : (NetRoute → Bool) → List NetRoute → List NetRoute
clear_routes p [] = []
clear_routes p (r ∷ rs) = (if p r then zero_route else r) ∷ clear_routes p rs

unfoldable pub routes_clear_for_iface : ℤ → List NetRoute → List NetRoute
routes_clear_for_iface i rs = clear_routes (λ r. r.used && int_eq r.if_index i) rs

abbrev pub same_key : ℕ → ℕ → NetRoute → Bool
same_key prefix mask r = r.used && r.prefix_be == prefix && r.mask_be == mask

-- The first loop of route_add: a route for the same prefix and mask is replaced.
unfoldable pub replace_route : (prefix mask gw : ℕ) → ℤ → List NetRoute → Bool × List NetRoute
replace_route prefix mask gw i [] = (false, [])
replace_route prefix mask gw i (r ∷ rs) =
    let (done, rs') = replace_route prefix mask gw i rs in
    if same_key prefix mask r
    then (true, record r { gw_be = gw; if_index = i } ∷ rs)
    else (done, r ∷ rs')

-- The second: the first unused slot is filled.
unfoldable pub fill_route : (prefix mask gw : ℕ) → ℤ → List NetRoute → Bool × List NetRoute
fill_route prefix mask gw i [] = (false, [])
fill_route prefix mask gw i (r ∷ rs) =
    let (done, rs') = fill_route prefix mask gw i rs in
    if not r.used
    then (
      true,
      record r { used = true; prefix_be = prefix; mask_be = mask; gw_be = gw; if_index = i } ∷ rs,
    )
    else (done, r ∷ rs')

unfoldable pub route_add : (prefix mask gw : ℕ) → ℤ → List NetRoute → Bool × List NetRoute
route_add prefix mask gw i rs =
    let (done, rs') = replace_route prefix mask gw i rs in
    if done then (true, rs') else fill_route prefix mask gw i rs

unfoldable pub route_del : (prefix mask : ℕ) → List NetRoute → Bool × List NetRoute
route_del prefix mask [] = (false, [])
route_del prefix mask (r ∷ rs) =
    let (done, rs') = route_del prefix mask rs in
    if same_key prefix mask r then (true, zero_route ∷ rs) else (done, r ∷ rs')

-- The three `continue`s of route_del_default, then the slot is cleared.
abbrev pub is_default : ℤ → NetRoute → Bool
is_default i r =
    r.used
    && not (not (r.prefix_be == 0) || not (r.mask_be == 0))
    && not (not (negative i) && not (int_eq r.if_index i))

any_route : (NetRoute → Bool) → List NetRoute → Bool
any_route p [] = false
any_route p (r ∷ rs) = p r || any_route p rs

unfoldable pub route_del_default : ℤ → List NetRoute → Bool × List NetRoute
unfolding any_route
route_del_default i rs = (any_route (is_default i) rs, clear_routes (is_default i) rs)

-- `iface_refresh_routes` for the interface of index `i`; out of range nothing happens.
unfoldable pub iface_refresh_routes : ℤ → Net → Net
iface_refresh_routes (negsuc i) net = net
iface_refresh_routes (pos i) net =
    if leb net.if_count i
    then net
    else let f = get_or net.ifaces i zero_if in
      let rs = routes_clear_for_iface (pos i) net.routes in
      if not f.up
      then record net { routes = rs }
      else if f.loopback
      then record net {
        routes = (route_add (bit_and loopback_ip loopback_mask) loopback_mask 0 (pos i) rs).1;
      }
      else let rs' =
          if not (f.mask_be == 0)
          then (route_add (bit_and f.addr_be f.mask_be) f.mask_be 0 (pos i) rs).1
          else rs in
        record net {
          routes = if not (f.gw_be == 0) then (route_add 0 0 f.gw_be (pos i) rs').1 else rs';
        }

-- The first three `continue`s of route_lookup's second loop.
unfoldable pub usable : Net → ℕ → NetRoute → Bool
usable net dst r = elim r.if_index [
  | negsuc i ↦ false
  | pos i ↦
      r.used
      && ltb i net.if_count
      && (get_or net.ifaces i zero_if).up
      && ip_in_subnet dst r.prefix_be r.mask_be
]

-- `if (!best || prefix > best_prefix) { best = r; best_prefix = prefix; }`
abbrev pub better : NetRoute → Option (NetRoute × ℕ) → Option (NetRoute × ℕ)
better r none = some (r, mask_prefix_len r.mask_be)
better r (some (b, n)) =
    if ltb n (mask_prefix_len r.mask_be) then some (r, mask_prefix_len r.mask_be) else some (b, n)

unfoldable pub best_route : Net → ℕ → Option (NetRoute × ℕ) → List NetRoute → Option (NetRoute × ℕ)
best_route net dst best [] = best
best_route net dst best (r ∷ rs) =
    best_route net dst (if usable net dst r then better r best else best) rs

unfoldable pub loopback_result : ℕ → ℕ → List NetIf → Option RouteResult
loopback_result dst i [] = none
loopback_result dst i (f ∷ fs) =
    let rest = loopback_result dst (i + 1) fs in
    if f.loopback
    then some (record {
      ok = true;
      local = true;
      if_index = pos i;
      dev_index = negsuc 0;
      src_ip_be = iface_src_ip_for_dst f dst;
      next_hop_be = dst;
    })
    else rest

iface_of : Net → ℤ → NetIf
iface_of net (pos i) = get_or net.ifaces i zero_if
iface_of net (negsuc i) = zero_if

unfoldable pub route_result : Net → ℕ → Option (NetRoute × ℕ) → RouteResult
unfolding iface_of
route_result net dst none = zero_result
route_result net dst (some (b, n)) =
    let f = iface_of net b.if_index in
    record {
      ok = true;
      local = f.loopback;
      if_index = b.if_index;
      dev_index = f.dev_index;
      src_ip_be = iface_src_ip_for_dst f dst;
      next_hop_be = if not (b.gw_be == 0) then b.gw_be else dst;
    }

unfoldable pub route_lookup : Net → ℕ → RouteResult
route_lookup net dst =
    let routed = route_result net dst (best_route net dst none net.routes) in
    if ip_is_any_local net dst || in_loopback dst
    then elim (loopback_result dst 0 (take net.if_count net.ifaces)) [ some r ↦ r | none ↦ routed ]
    else routed

broadcast_from : ℕ → ℕ → List NetIf → Option RouteResult
broadcast_from bind i [] = none
broadcast_from bind i (f ∷ fs) =
    let rest = broadcast_from bind (i + 1) fs in
    if not f.up || f.loopback || negative f.dev_index
    then rest
    else if not (bind == 0) && not (f.addr_be == bind)
    then rest
    else some (record {
      ok = true;
      local = false;
      if_index = pos i;
      dev_index = f.dev_index;
      src_ip_be = f.addr_be;
      next_hop_be = 0xFFFFFFFF;
    })

unfoldable pub pick_broadcast_iface : Net → ℕ → Bool × RouteResult
unfolding broadcast_from
pick_broadcast_iface net bind = elim (broadcast_from bind 0 (take net.if_count net.ifaces)) [
  | none ↦ (false, zero_result)
  | some r ↦ (true, r)
]
