-- ===== src/Mbuf/Freeing.antt =====
-- Which buffers are given back.
use mtcp_lua.Base.{
  ℕ, zero, suc, ◌<◌, ◌≡◌, ◌≢◌, refl, ap, ◌∙◌, arith, some, List, [], ◌∷◌, length, ==_of_eq,
  ==_of_ne, ◌==◌, if◌then◌else◌, Bool-cases, inl, inr,
}
use mtcp_lua.RbTree.{Ptr, null}
use mtcp_lua.Mbuf.{Mbuf, Pool, free, mbuf_gc, mbuf_send}

-- The segments of a packet, from the first to the last.
abbrev pub Segments : (Ptr → Mbuf) → Ptr → List Ptr → Type 0
Segments mbufs p [] = p ≡ null
Segments mbufs p (q ∷ qs) = (p ≡ q) × (p ≢ null) × Segments mbufs (mbufs p).next qs

-- The list `qs`, the first of `ps` pushed onto it first.
abbrev pub push_all : List Ptr → List Ptr → List Ptr
push_all [] qs = qs
push_all (p ∷ ps) qs = push_all ps (p ∷ qs)

-- `ldpdk_mbuf_gc` on a packet ends within one round more than it has segments; its calls of
-- `rte_pktmbuf_free` are one for each segment, in their order.
pub mbuf_gc-Segments :
    (ps : List Ptr) (fuel : ℕ) (p : Ptr) (w : Pool)
    → Segments w.mbufs p ps
    → length ps < fuel
    → mbuf_gc fuel p w ≡ some (record w { freed = push_all ps w.freed })
unfolding mbuf_gc
mbuf_gc-Segments ps zero p w h enough = absurd (omega (arith, enough))
mbuf_gc-Segments [] (suc k) p w h enough = rw (==_of_eq p null h) refl
mbuf_gc-Segments (q ∷ qs) (suc k) p w h enough = rw (==_of_ne p null h.1) (
    mbuf_gc-Segments qs k (w.mbufs p).next (free p w) h.2 (omega (arith, enough))
    ∙ ap (λ (x : Ptr). some (record w { freed = push_all qs (x ∷ w.freed) })) h.0)

-- The collection of a packet's userdata after `ldpdk_mbuf_send` ends within one round more than the
-- packet has segments. When DPDK did not take the packet, the only call of `rte_pktmbuf_free` is that of
-- `ldpdk_mbuf_send`; when it did, every segment is freed, although it is DPDK's by then.
pub mbuf_gc-mbuf_send :
    (ps : List Ptr) (fuel count : ℕ) (p : Ptr) (w : Pool)
    → Segments w.mbufs p ps
    → length ps < fuel
    → mbuf_gc fuel (mbuf_send count p w).1 (mbuf_send count p w).0
      ≡ some (record w { freed = if count == 1 then push_all ps w.freed else p ∷ w.freed })
unfolding mbuf_send
mbuf_gc-mbuf_send ps fuel count p w h enough = elim (Bool-cases (count == 1)) [
  | inl e ↦ rw e (mbuf_gc-Segments ps fuel p w h enough)
  | inr e ↦ rw e (mbuf_gc-Segments [] fuel null (free p w) refl (omega (arith, enough)))
]
