-- ===== src/Net/Fifo.antt =====
-- The queues of kernel/net.c deliver in order of arrival.
use furi_os.Prelude.{
  ℕ, suc, ◌+◌, ◌-◌, ◌≤◌, ◌<◌, ◌%◌, ◌≡◌, refl, ap, sym, ◌∙◌, ◌⊎◌, inl, inr, true, false, none, some,
  List, [], ◌∷◌, ◌++◌, arith, length, take, get_or, replicate, take-overwrite, length-set, ring,
  wrap, ring-set_end, ring-set_ahead, ℤ, leb, ltb, Bool-cases, ◌==◌, length-replicate,
}
use furi_os.Net.Queues.{net_rxq_max, net_frame_max, RxItem, RxQueue, zero_rx, rxq_push, rxq_pop}

pub record RxValid (q : RxQueue) : Type 0 where
  pub storage : length q.items ≡ net_rxq_max
  pub head_in : q.head < net_rxq_max
  pub count_in : q.count ≤ net_rxq_max
  pub tail_at : q.tail ≡ (q.head + q.count) % net_rxq_max

-- the frames that wait, oldest first
abbrev pub frames : RxQueue → List RxItem
frames q = ring zero_rx net_rxq_max q.items q.head q.count

-- rxq_push on a valid queue refuses a frame that is too long or that finds 64 frames waiting, and
-- changes nothing then; else it appends an item with the device, the length and the frame's bytes.
-- The queue stays valid.
pub rxq_push_lem :
    (q : RxQueue) (dev : ℤ) (frame : List ℕ)
    → RxValid q
    → let (ok, q') = rxq_push q dev (some frame) in
      RxValid q'
      × (((ok ≡ false) × (q' ≡ q) × ((net_frame_max < length frame) ⊎ (q.count ≡ net_rxq_max)))
          ⊎ ((it : RxItem) × (ok ≡ true)
              × (frames q' ≡ frames q ++ (it ∷ []))
              × (it.dev_index ≡ dev)
              × (it.len ≡ length frame)
              × (take it.len it.frame ≡ frame)))
unfolding rxq_push
rxq_push_lem q dev frame v = elim (Bool-cases (ltb net_frame_max (length frame))) [
  | inl t ↦ rw t (v, inl (refl, refl, inl (ground arith)))
  | inr t ↦ elim (Bool-cases (leb net_rxq_max q.count)) [
    | inl u ↦ rw t (rw u (v, inl (refl, refl, inr (ground (arith, v.count_in)))))
    | inr u ↦
        let room : q.count < net_rxq_max = ground arith in
        let at : q.tail ≡ wrap net_rxq_max (q.head + q.count) =
          ground (arith, v.tail_at, v.head_in) in
        rw t (
          rw u (
            record {
              storage = length-set q.items q.tail _ ∙ v.storage;
              head_in = v.head_in;
              count_in = omega (arith, room);
              tail_at = omega (arith, v.tail_at);
            },
            inr (
              _,
              refl,
              ring-set_end zero_rx net_rxq_max q.items q.head q.count q.tail _ v.storage v.head_in
                  room at,
              refl,
              refl,
              take-overwrite frame (replicate net_frame_max 0)
                  (ground (arith, length-replicate {A = ℕ} net_frame_max 0)),
            ),
          ))
  ]
]

-- rxq_pop on a valid queue returns the oldest frame and removes it, or fails on the empty queue and
-- changes nothing. The queue stays valid.
pub rxq_pop_lem :
    (q : RxQueue)
    → RxValid q
    → let (out, q') = rxq_pop q in
      RxValid q'
      × (((out ≡ none) × (q' ≡ q) × (frames q ≡ []))
          ⊎ ((it : RxItem) × (out ≡ some it) × (frames q ≡ it ∷ frames q')))
unfolding rxq_pop
rxq_pop_lem q v = elim (Bool-cases (q.count == 0)) [
  | inl t ↦
      let none_left : q.count ≡ 0 = ground arith in
      rw t (v, inl (refl, refl, ap (ring zero_rx net_rxq_max q.items q.head) none_left))
  | inr t ↦
      let one : q.count ≡ suc (q.count - 1) = ground arith in
      let next : (q.head + 1) % net_rxq_max ≡ wrap net_rxq_max (q.head + 1) =
        ground (arith, v.head_in) in
      let behind : q.head ≡ wrap net_rxq_max ((q.head + 1) % net_rxq_max + 63) =
        ground (arith, v.head_in) in
      rw t (
        record {
          storage = length-set q.items q.head zero_rx ∙ v.storage;
          head_in = omega arith;
          count_in = omega (arith, v.count_in);
          tail_at = omega (arith, v.tail_at, one);
        },
        inr (
          _,
          refl,
          ap (ring zero_rx net_rxq_max q.items q.head) one
              ∙ ap (λ t. get_or q.items q.head zero_rx ∷ t)
                  (ap (λ h. ring zero_rx net_rxq_max q.items h (q.count - 1)) (sym next)
                    ∙ sym (
                        ring-set_ahead zero_rx net_rxq_max q.items ((q.head + 1) % net_rxq_max)
                          (q.count - 1) 63 q.head zero_rx (omega arith) (omega (arith, v.count_in))
                          (omega arith) behind)),
        ),
      )
]
