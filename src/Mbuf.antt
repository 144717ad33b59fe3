-- ===== src/Mbuf.antt =====
-- lmbuf.c: DPDK's packet buffers in the hands of a Lua script.
--
-- A buffer is named by its address, 0 for `NULL`; what `rte_pktmbuf_alloc` and `rte_eth_tx_burst`
-- answer are arguments. `rte_pktmbuf_free` is recorded, the latest first.
pub mod Freeing
use mtcp_lua.Base.{
  ℕ, zero, suc, ◌+◌, ◌%◌, ◌^◌, Bool, true, false, not, Option, none, some, List, [], ◌∷◌, ◌==◌,
  if◌then◌else◌, ltb, length,
}
use mtcp_lua.RbTree.{Ptr, null, update}

-- The fields of `struct rte_mbuf` that the code uses, and the bytes written at its data.
pub record Mbuf : Type 0 where
  pub next : Ptr
  pub data_off : ℕ
  pub buf_len : ℕ
  pub data_len : ℕ
  pub pkt_len : ℕ
  pub content : List ℕ

pub record Pool : Type 0 where
  pub mbufs : Ptr → Mbuf
  pub freed : List Ptr

abbrev pub free : Ptr → Pool → Pool
free p w = record w { freed = p ∷ w.freed }

-- `ldpdk_mbuf_gc` on the buffer that the userdata holds, with a bound on the rounds of its loop.
unfoldable pub mbuf_gc : ℕ → Ptr → Pool → Option Pool
mbuf_gc zero p w = none
mbuf_gc (suc k) p w =
    let rest = mbuf_gc k (w.mbufs p).next (free p w) in if p == null then some w else rest

pub data GetResult : Type 0 where
  needs_no_arguments : GetResult
  no_memory : GetResult
  got : Ptr → GetResult

-- `ldpdk_mbuf_get`, with what `rte_pktmbuf_alloc` answers: what the new userdata holds.
unfoldable pub mbuf_get : ℕ → Ptr → GetResult
mbuf_get argc pkt =
    if not (argc == 0) then needs_no_arguments else if pkt == null then no_memory else got pkt

pub data SetResult : Type 0 where
  wrong_arguments : SetResult
  writes_past_buffer : SetResult
  stored : Pool → SetResult

-- `ldpdk_mbuf_set`; the two lengths have 16 and 32 bits.
unfoldable pub mbuf_set : ℕ → Ptr → List ℕ → Pool → SetResult
mbuf_set argc p bytes w =
    let b = w.mbufs p in
    if not (argc == 2)
    then wrong_arguments
    else if ltb b.buf_len (b.data_off + length bytes)
    then writes_past_buffer
    else stored (record w {
      mbufs = update w.mbufs p (record b {
        data_len = length bytes % 2 ^ 16;
        pkt_len = length bytes % 2 ^ 32;
        content = bytes;
      });
    })

-- `ldpdk_mbuf_send`, with the number of packets that `rte_eth_tx_burst` took: the pool, and what the
-- userdata holds then.
unfoldable pub mbuf_send : ℕ → Ptr → Pool → Pool × Ptr
mbuf_send count p w = if count == 1 then (w, p) else (free p w, null)
