-- ===== src/Net/Tests.antt =====
-- The theorems on kernel/net.c at concrete inputs.
use furi_os.Prelude.{
  ℕ, ◌+◌, ◌-◌, ◌/◌, ◌%◌, ◌<◌, ◌≡◌, refl, ◌⊎◌, ◌≢◌, true, false, ◌&&◌, not, none, some, List, [],
  ◌∷◌, ◌++◌, arith, ◌==◌, if◌then◌else◌, length, take, min, replicate, overwrite, pos, negsuc,
}
use furi_os.Net.{
  Net, NetRoute, zero_if, zero_route, zero_result, route_add, route_del, route_lookup,
  ip_is_any_local, usable, mask_prefix_len, prefix_loop,
}
use furi_os.Net.Route.{
  entry, Full, Distinct, route_add_lem, route_add-others, route_add-Distinct, route_del_lem,
}
use furi_os.Net.Lookup.{Member, AtMost, Unusable, mask_prefix_len-enough, route_lookup_lem}
use furi_os.Net.Arp.{
  ArpEntry, arp_lookup, arp_update, arp_slot, arp_flush, AllValid, Ticks64, NotOlder, tick,
  arp_lookup-arp_update, arp_slot-NotOlder,
}
use furi_os.Net.Checksum.{
  checksum16, ipv4_l4_checksum, pseudo_header, fold_loop, fold_loop-enough, Even, Bytes,
  checksum16_verifies, ipv4_l4_checksum-eq-checksum16,
}
use furi_os.Net.Address.{parse_ipv4_be, ip_be_to_text, parse-ip_be_to_text}
use furi_os.Net.Queues.{
  RxItem, RxQueue, zero_rx, rxq_push, rxq_pop, net_rxq_max, net_frame_max, TcpRx, tcp_rx_write,
  tcp_rx_read, net_tcp_buf_max,
}
use furi_os.Net.Fifo.{RxValid, frames, rxq_push_lem, rxq_pop_lem}
use furi_os.Net.Receive
use furi_os.Net.Receive.{waiting, tcp_rx_write_lem, tcp_rx_read_lem}

-- 10.0.2.0/24 directly, and the default route through 10.0.2.2, both by interface 1
abbrev subnet_route : NetRoute
subnet_route = record {
  used = true;
  prefix_be = 0x0A000200;
  mask_be = 0xFFFFFF00;
  gw_be = 0;
  if_index = pos 1;
}

abbrev default_route : NetRoute
default_route = record {
  used = true;
  prefix_be = 0;
  mask_be = 0;
  gw_be = 0x0A000202;
  if_index = pos 1;
}

abbrev routes : List NetRoute
routes = default_route ∷ subnet_route ∷ replicate 6 zero_route

abbrev net : Net
net = record {
  ifaces =
      record zero_if { up = true; loopback = true; dev_index = negsuc 0; addr_be = 0x7F000001 }
      ∷ record zero_if { up = true; addr_be = 0x0A00020F; mask_be = 0xFFFFFF00; gw_be = 0x0A000202 }
      ∷ replicate 2 zero_if;
  if_count = 2;
  routes = routes;
}

routes-Distinct : Distinct routes
unfolding Distinct entry
routes-Distinct = (
  λ u. refl,
  (λ u. refl, (λ u. refl, (λ u. refl, (λ u. refl, (λ u. refl, (λ u. refl, (λ u. refl, tt))))))),
)

route_add_lem_example :
    let (done, rs') = route_add 0x0A000000 0xFF000000 0x0A000203 (pos 1) routes in
    ((done ≡ true) × (entry 0x0A000000 0xFF000000 rs' ≡ some (0x0A000203, pos 1)))
    ⊎ ((done ≡ false) × (rs' ≡ routes) × (entry 0x0A000000 0xFF000000 routes ≡ none) × Full routes)
route_add_lem_example = route_add_lem 0x0A000000 0xFF000000 0x0A000203 (pos 1) routes

route_add-others_test :
    entry 0 0 (route_add 0x0A000000 0xFF000000 0x0A000203 (pos 1) routes).1 ≡ entry 0 0 routes
route_add-others_test = route_add-others 0x0A000000 0xFF000000 0x0A000203 (pos 1) 0 0 routes refl

route_add-Distinct_test : Distinct (route_add 0x0A000000 0xFF000000 0x0A000203 (pos 1) routes).1
route_add-Distinct_test =
    route_add-Distinct 0x0A000000 0xFF000000 0x0A000203 (pos 1) routes routes-Distinct

route_del_lem_example :
    let (done, rs') = route_del 0 0 routes in
    (((done ≡ true) × (entry 0 0 routes ≢ none) × (entry 0 0 rs' ≡ none))
      ⊎ ((done ≡ false) × (entry 0 0 routes ≡ none) × (rs' ≡ routes)))
    × ((p m : ℕ) → (p == 0) && (m == 0) ≡ false → entry p m rs' ≡ entry p m routes)
route_del_lem_example = route_del_lem 0 0 routes routes-Distinct

mask_prefix_len-enough_test : prefix_loop (33 + 7) 0 0xFFFFFF00 ≡ mask_prefix_len 0xFFFFFF00
mask_prefix_len-enough_test = mask_prefix_len-enough 7 0xFFFFFF00 (omega arith)

far-IsLocal : ip_is_any_local net 0x08080808 ≡ false
unfolding ip_is_any_local
far-IsLocal = refl

route_lookup_lem_example :
    let res = route_lookup net 0x08080808 in
    ((res ≡ zero_result) × Unusable net 0x08080808 net.routes)
    ⊎ ((b : NetRoute) × Member b net.routes
        × (usable net 0x08080808 b ≡ true)
        × AtMost net 0x08080808 (mask_prefix_len b.mask_be) net.routes
        × (res.ok ≡ true)
        × (res.if_index ≡ b.if_index)
        × (res.next_hop_be ≡ (if not (b.gw_be == 0) then b.gw_be else 0x08080808)))
route_lookup_lem_example = route_lookup_lem net 0x08080808 far-IsLocal

abbrev two_bytes : List ℕ
two_bytes = 1 ∷ 2 ∷ []

abbrev three_bytes : List ℕ
three_bytes = 1 ∷ 2 ∷ 3 ∷ []

-- An ARP table without a free slot, and one after a flush.
abbrev neighbour : ℕ → ℕ → ArpEntry
neighbour ip t = record {
  valid = true;
  ip_be = ip;
  if_index = pos 1;
  mac = 2 ∷ 0 ∷ 0 ∷ 0 ∷ 0 ∷ ip % 256 ∷ [];
  updated_tick = t;
}

abbrev neighbours : List ArpEntry
neighbours = neighbour 0x0A000203 70 ∷ neighbour 0x0A000204 50 ∷ neighbour 0x0A000205 60 ∷ []

arp_lookup-arp_update_test :
    arp_lookup 0x0A000202
      (pos 1)
      0
      (arp_update 100 0x0A000202 (pos 1) (some (2 ∷ 0 ∷ 0 ∷ 0 ∷ 0 ∷ 1 ∷ [])) arp_flush)
    ≡ some (arp_slot 0x0A000202 (pos 1) arp_flush, take 6 (take 6 (2 ∷ 0 ∷ 0 ∷ 0 ∷ 0 ∷ 1 ∷ [])))
unfolding arp_flush
arp_lookup-arp_update_test =
    arp_lookup-arp_update 100 0x0A000202 (pos 1) (2 ∷ 0 ∷ 0 ∷ 0 ∷ 0 ∷ 1 ∷ []) arp_flush
      (omega arith)

arp_slot-NotOlder_example :
    NotOlder (tick neighbours (arp_slot 0x0A000202 (pos 1) neighbours)) neighbours
unfolding arp_lookup AllValid Ticks64
arp_slot-NotOlder_example =
    arp_slot-NotOlder 0x0A000202 (pos 1) neighbours refl (refl, (refl, (refl, tt)))
      (omega arith, (omega arith, (omega arith, tt)))

fold_loop-enough_test : fold_loop (3 + 2) 0xFFFFFFFF ≡ fold_loop 3 0xFFFFFFFF
fold_loop-enough_test = fold_loop-enough 2 0xFFFFFFFF (omega arith)

checksum16_verifies_example :
    let c = checksum16 ((69 ∷ 0 ∷ []) ++ (0 ∷ 0 ∷ 64 ∷ 17 ∷ 9 ∷ [])) in
    checksum16 ((69 ∷ 0 ∷ []) ++ (c / 256 ∷ c % 256 ∷ 64 ∷ 17 ∷ 9 ∷ [])) ≡ 0
unfolding Even Bytes
checksum16_verifies_example =
    checksum16_verifies (69 ∷ 0 ∷ []) (64 ∷ 17 ∷ 9 ∷ []) tt
      (
        omega arith,
        (
          omega arith,
          (omega arith, (omega arith, (omega arith, (omega arith, (omega arith, tt))))),
        ),
      )
      (omega arith)

ipv4_l4_checksum-eq-checksum16_test :
    ipv4_l4_checksum 0x0A00020F 0x0A000202 17 three_bytes
    ≡ checksum16 (pseudo_header 0x0A00020F 0x0A000202 17 (length three_bytes) ++ three_bytes)
ipv4_l4_checksum-eq-checksum16_test =
    ipv4_l4_checksum-eq-checksum16 0x0A00020F 0x0A000202 17 three_bytes

parse-ip_be_to_text_example :
    (text : List ℕ) × (ip_be_to_text 0x0A00020F 16 ≡ some text)
    × (parse_ipv4_be text ≡ some 0x0A00020F)
parse-ip_be_to_text_example = parse-ip_be_to_text 0x0A00020F 16 (omega arith) (omega arith)

-- g_rxq at boot, and after a frame
abbrev empty_rxq : RxQueue
empty_rxq = record { head = 0; tail = 0; count = 0; items = replicate net_rxq_max zero_rx }

empty_rxq-RxValid : RxValid empty_rxq
empty_rxq-RxValid = record {
  storage = refl;
  head_in = omega arith;
  count_in = omega arith;
  tail_at = refl;
}

rxq_push_lem_test :
    let (ok, q') = rxq_push empty_rxq (pos 0) (some two_bytes) in
    RxValid q'
    × (((ok ≡ false)
          × (q' ≡ empty_rxq)
          × ((net_frame_max < length two_bytes) ⊎ (empty_rxq.count ≡ net_rxq_max)))
        ⊎ ((it : RxItem) × (ok ≡ true)
            × (frames q' ≡ frames empty_rxq ++ (it ∷ []))
            × (it.dev_index ≡ pos 0)
            × (it.len ≡ length two_bytes)
            × (take it.len it.frame ≡ two_bytes)))
rxq_push_lem_test = rxq_push_lem empty_rxq (pos 0) two_bytes empty_rxq-RxValid

rxq_pop_lem_test :
    let q = (rxq_push empty_rxq (pos 0) (some two_bytes)).1 in
    let (out, q') = rxq_pop q in
    RxValid q'
    × (((out ≡ none) × (q' ≡ q) × (frames q ≡ []))
        ⊎ ((it : RxItem) × (out ≡ some it) × (frames q ≡ it ∷ frames q')))
rxq_pop_lem_test =
    rxq_pop_lem (rxq_push empty_rxq (pos 0) (some two_bytes)).1
      (rxq_push_lem empty_rxq (pos 0) two_bytes empty_rxq-RxValid).0

-- A receive buffer whose bytes wrap around its end.
abbrev wrapped_rx : TcpRx
wrapped_rx = record {
  rx_buf = replicate net_tcp_buf_max 7;
  rx_head = 2046;
  rx_tail = 1;
  rx_len = 3;
}

wrapped_rx-RxValid : Receive.RxValid wrapped_rx
wrapped_rx-RxValid = record {
  storage = refl;
  head_in = omega arith;
  len_in = omega arith;
  tail_at = refl;
}

tcp_rx_write_lem_test :
    let (n, s') = tcp_rx_write wrapped_rx (some two_bytes) (length two_bytes) in
    (n ≡ min (length two_bytes) (net_tcp_buf_max - wrapped_rx.rx_len))
    × (waiting s' ≡ waiting wrapped_rx ++ take n two_bytes)
    × Receive.RxValid s'
tcp_rx_write_lem_test = tcp_rx_write_lem wrapped_rx two_bytes wrapped_rx-RxValid

tcp_rx_read_lem_test :
    let (n, dst', s') = tcp_rx_read wrapped_rx (some (0 ∷ 0 ∷ [])) 2 in
    (n ≡ min 2 wrapped_rx.rx_len)
    × ((out : List ℕ) × (length out ≡ n)
        × (dst' ≡ some (overwrite (0 ∷ 0 ∷ []) 0 out))
        × (waiting wrapped_rx ≡ out ++ waiting s'))
    × Receive.RxValid s'
tcp_rx_read_lem_test = tcp_rx_read_lem wrapped_rx (0 ∷ 0 ∷ []) 2 wrapped_rx-RxValid
