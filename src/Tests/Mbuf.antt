-- ===== src/Tests/Mbuf.antt =====
-- A packet of the two segments 5 and 6.
use mtcp_lua.Base.{◌≡◌, refl, arith, some, List, [], ◌∷◌, ◌==◌, if◌then◌else◌}
use mtcp_lua.RbTree.{Ptr}
use mtcp_lua.Mbuf.{Pool, mbuf_gc, mbuf_send}
use mtcp_lua.Mbuf.Freeing.{mbuf_gc-mbuf_send}

abbrev two_segments : List Ptr → Pool
two_segments ps = record {
  mbufs = λ p. record {
    next = if p == 5 then 6 else 0;
    data_off = 128;
    buf_len = 2176;
    data_len = 0;
    pkt_len = 0;
    content = [];
  };
  freed = ps;
}

mbuf_gc-mbuf_send_example :
    mbuf_gc 3 (mbuf_send 0 5 (two_segments [])).1 (mbuf_send 0 5 (two_segments [])).0
    ≡ some (two_segments (5 ∷ []))
mbuf_gc-mbuf_send_example =
    mbuf_gc-mbuf_send (5 ∷ 6 ∷ []) 3 0 5 (two_segments [])
      (refl, omega arith, (refl, omega arith, refl)) (omega arith)
