-- ===== src/Timer/Expiry.antt =====
-- `event_expire_timers` runs the handlers of the events whose time has come.
use mathlib.Core.Path.{subst}
use mtcp_lua.Base.{
  ℕ, zero, suc, ◌+◌, ◌*◌, ◌^◌, ◌≤◌, ◌<◌, ◌≡◌, ◌≢◌, refl, sym, ap, ◌∙◌, Bool, true, false, Option,
  none, some, List, [], ◌∷◌, arith, leb, if◌then◌else◌, length, ==_of_eq, ==_of_ne,
}
use mtcp_lua.Base.Int.{sub64}
use mtcp_lua.RbTree.{Ptr, Store, rbtree_min}
use mtcp_lua.RbTree.Sequence.{occurs, Represents}
use mtcp_lua.RbTree.Remove.{remove}
use mtcp_lua.RbTree.Minimum.{rbtree_min-Represents, root-sentinel}
use mtcp_lua.Timer.{
  Timers, event_del_timer, set_timedout, is_due, fire, expire_from, event_expire_timers,
}
use mtcp_lua.Timer.Queue.{Queued, due}
use mtcp_lua.Timer.Absence.{occurs-sentinel}
use mtcp_lua.Timer.Removal.{event_del_timer-Queued}

-- The events at the head of a queue whose value is at most `n`.
abbrev pub due_of : (Ptr → ℕ) → ℕ → List Ptr → List Ptr
due_of f n [] = []
due_of f n (p ∷ ps) = if leb (f p) n then p ∷ due_of f n ps else []

-- The queue has at most `n` events, and those that are due are `ds`, the earliest first.
pub record Due (base now : ℕ) (s : Ptr) (w : Timers) (ds : List Ptr) (n : ℕ) : Type 0 where
  pub value : Ptr → ℕ
  pub events : List Ptr
  pub queued : Queued base value s w events
  pub size : length events ≤ n
  pub head : due_of value (sub64 now base) events ≡ ds

-- How many events the handlers of `ds` may add in all, when each may add `c`.
abbrev pub budget : ℕ → List Ptr → ℕ
budget c [] = 0
budget c (p ∷ ds) = c + budget c ds

-- What the handler of a due event finds: its event is not in the queue, has timed out and its timer is
-- not set.
pub record Expired (s ev : Ptr) (w : Timers) (events : List Ptr) : Type 0 where
  pub node : ev ≢ s
  pub gone : occurs ev events ≡ 0
  pub off : w.timer_set ev ≡ false
  pub timedout : w.timedout ev ≡ true

if_nil : (b : Bool) (p : Ptr) (ps : List Ptr) → (if b then p ∷ ps else []) ≡ [] → b ≡ false
if_nil true p ps h = cc
if_nil false p ps h = refl

if_cons :
    (b : Bool) (p d : Ptr) (ps ds : List Ptr)
    → (if b then p ∷ ps else []) ≡ d ∷ ds
    → (b ≡ true) × (p ≡ d) × (ps ≡ ds)
if_cons true p d ps ds h = (refl, cc, cc)
if_cons false p d ps ds h = cc

pub set_timedout-Queued :
    (base : ℕ) (f : Ptr → ℕ) (s : Ptr) (w : Timers) (ps : List Ptr) (ev : Ptr) (b : Bool)
    → Queued base f s w ps
    → Queued base f s (set_timedout ev b w) ps
set_timedout-Queued base f s w ps ev b z = record {
  sorted = z.sorted;
  value = z.value;
  word = z.word;
  window = z.window;
}

timed_out : (p : Ptr) (w : Timers) → (set_timedout p true w).timedout p ≡ true
timed_out p w = rw (==_of_eq p p refl) refl

full-root :
    (f : Ptr → ℕ) (s : Ptr) (t : Store) (p : Ptr) (ps : List Ptr)
    → Represents f s t (p ∷ ps)
    → t.root ≢ s
full-root f s t p ps r h = no ((root-sentinel f s t (p ∷ ps) r).0 h)
  where
    no : p ∷ ps ≡ [] → ⊥
    no e = cc

module _ {W : Type 0} (timers_of : W → Timers) (put_timers : Timers → W → W) (s fuel now : ℕ)
    (handler : Ptr → W → Option W) where
  -- The events of a list, one after the other: the timer is deleted, and the handler runs.
  unfoldable pub fire_all : List Ptr → Option W → Option W
  fire_all ds none = none
  fire_all [] (some w) = some w
  fire_all (ev ∷ ds) (some w) =
      fire_all ds (
        fire timers_of put_timers s fuel now handler ev w (event_del_timer s fuel ev (timers_of w)))

  abbrev expire : ℕ → Option W → Option W
  expire = event_expire_timers timers_of put_timers s fuel now handler

  stop_empty : (k : ℕ) (w : W) → (timers_of w).tree.root ≡ s → expire (suc k) (some w) ≡ some w
  unfolding event_expire_timers
  stop_empty k w e = rw (==_of_eq (timers_of w).tree.root s e) refl

  stop_late :
      (k : ℕ) (w : W) (p : Ptr)
      → (timers_of w).tree.root ≢ s
      → rbtree_min s fuel (timers_of w).tree (timers_of w).tree.root ≡ some p
      → is_due now ((timers_of w).tree.key p) ≡ false
      → expire (suc k) (some w) ≡ some w
  unfolding event_expire_timers expire_from
  stop_late k w p ne low late = rw (==_of_ne (timers_of w).tree.root s ne, low, late) refl

  go_on :
      (k : ℕ) (w : W) (p : Ptr) (ts : Timers)
      → (timers_of w).tree.root ≢ s
      → rbtree_min s fuel (timers_of w).tree (timers_of w).tree.root ≡ some p
      → is_due now ((timers_of w).tree.key p) ≡ true
      → event_del_timer s fuel p (timers_of w) ≡ some ts
      → expire (suc k) (some w) ≡ expire k (handler p (put_timers (set_timedout p true ts) w))
  unfolding event_expire_timers expire_from fire
  go_on k w p ts ne low soon gone = rw (==_of_ne (timers_of w).tree.root s ne, low, soon, gone) refl

  fire_all-cons :
      (w : W) (p : Ptr) (ds : List Ptr) (ts : Timers)
      → event_del_timer s fuel p (timers_of w) ≡ some ts
      → fire_all (p ∷ ds) (some w) ≡ fire_all ds (handler p (put_timers (set_timedout p true ts) w))
  unfolding fire_all fire
  fire_all-cons w p ds ts gone =
      ap (λ o. fire_all ds (fire timers_of put_timers s fuel now handler p w o)) gone

  module _ (base m c : ℕ) (hb : base < 2 ^ 64) (hn : now < 2 ^ 64) (wn : sub64 now base < 2 ^ 63)
      (enough : 2 * m ≤ fuel) (put_get : (ts : Timers) (w : W) → timers_of (put_timers ts w) ≡ ts)
      (keeps : (ev : Ptr) (w : W) (ds : List Ptr) (n : ℕ) (d : Due base now s (timers_of w) ds n)
        → Expired s ev (timers_of w) d.events
        → n + c + 1 < 2 ^ m
        → (w' : W) × (handler ev w ≡ some w') × Due base now s (timers_of w') ds (n + c)) where
    -- The run from `w`, in which the events `ds` are due.
    abbrev Fired : ℕ → W → List Ptr → ℕ → Type 0
    Fired k w ds n =
        (w' : W) × (expire k (some w) ≡ some w')
        × (fire_all ds (some w) ≡ some w')
        × Due base now s (timers_of w') [] (n + budget c ds)

    at_most :
        (w : W) (n n' : ℕ)
        → Due base now s (timers_of w) [] n
        → n ≤ n'
        → Due base now s (timers_of w) [] n'
    at_most w n n' d le = record {
      value = d.value;
      events = d.events;
      queued = d.queued;
      size = omega (arith, d.size, le);
      head = d.head;
    }

    late :
        (k : ℕ) (w : W) (f : Ptr → ℕ) (ps : List Ptr)
        → Queued base f s (timers_of w) ps
        → length ps + 1 < 2 ^ m
        → due_of f (sub64 now base) ps ≡ []
        → expire (suc k) (some w) ≡ some w
    late k w f [] z few e =
        stop_empty k w ((root-sentinel f s (timers_of w).tree [] z.sorted).1 refl)
    late k w f (p ∷ ps) z few e =
        let here : 0 < occurs p (p ∷ ps) = ground arith in
        stop_late k w p (full-root f s (timers_of w).tree p ps z.sorted)
          (rbtree_min-Represents f s p m fuel (timers_of w).tree ps z.sorted few enough)
          (due base now ((timers_of w).tree.key p) hb hn (z.word p here) wn
              (omega (arith, z.value p here, z.window p here))
            ∙ ap (λ v. leb v (sub64 now base)) (sym (z.value p here))
            ∙ if_nil (leb (f p) (sub64 now base)) p (due_of f (sub64 now base) ps) e)

    abbrev Next : ℕ → W → Ptr → List Ptr → ℕ → Type 0
    Next k w p ds n =
        (w' : W) × (expire (suc k) (some w) ≡ expire k (some w'))
        × (fire_all (p ∷ ds) (some w) ≡ fire_all ds (some w'))
        × Due base now s (timers_of w') ds (n + c)

    -- One due event.
    step :
        (k : ℕ) (w : W) (f : Ptr → ℕ) (p : Ptr) (ps ds : List Ptr)
        → Queued base f s (timers_of w) (p ∷ ps)
        → length (p ∷ ps) + c + 1 < 2 ^ m
        → leb (f p) (sub64 now base) ≡ true
        → due_of f (sub64 now base) ps ≡ ds
        → Next k w p ds (length ps)
    step k w f p ps ds z few soon rest =
        let here : 0 < occurs p (p ∷ ps) = ground arith in
        let (ts, gone, z1, out, keys, set, timedout) =
          event_del_timer-Queued base f s (timers_of w) (p ∷ ps) p m fuel z here
            (omega (arith, few)) enough in
        let back : remove p (p ∷ ps) ≡ ps = unfold remove in rw (==_of_eq p p refl) refl in
        let us : Timers = set_timedout p true ts in
        let u = put_timers us w in
        let q : Queued base f s us ps =
          set_timedout-Queued base f s ts ps p true (subst (λ qs. Queued base f s ts qs) back z1) in
        let same = sym (put_get us w) in
        let d : Due base now s (timers_of u) ds (length ps) = record {
          value = f;
          events = ps;
          queued = subst (λ v. Queued base f s v ps) same q;
          size = omega arith;
          head = rest;
        } in
        let x : Expired s p us ps = record {
          node = λ e. omega (
            arith,
            here,
            ap (λ (y : Ptr). occurs y (p ∷ ps)) e,
            occurs-sentinel f s (timers_of w).tree (p ∷ ps) z.sorted,
          );
          gone = ap (occurs p) (sym back) ∙ out;
          off = ap (λ (g : Ptr → Bool). g p) set ∙ rw (==_of_eq p p refl) refl;
          timedout = timed_out p ts;
        } in
        let (w', ran, d') =
          keeps p u ds (length ps) d (subst (λ v. Expired s p v ps) same x) (omega (arith, few)) in
        let is_now =
          due base now ((timers_of w).tree.key p) hb hn (z.word p here) wn
            (omega (arith, z.value p here, z.window p here))
          ∙ ap (λ v. leb v (sub64 now base)) (sym (z.value p here))
          ∙ soon in
        (
          w',
          go_on k w p ts (full-root f s (timers_of w).tree p ps z.sorted)
                (rbtree_min-Represents f s p m fuel (timers_of w).tree ps z.sorted
                  (omega (arith, few)) enough)
                is_now gone
              ∙ ap (expire k) ran,
          fire_all-cons w p ds ts gone ∙ ap (fire_all ds) ran,
          d',
        )

    first :
        (k n : ℕ) (w : W) (f : Ptr → ℕ) (ps : List Ptr) (p : Ptr) (ds : List Ptr)
        → Queued base f s (timers_of w) ps
        → length ps ≤ n
        → n + c + 1 < 2 ^ m
        → due_of f (sub64 now base) ps ≡ p ∷ ds
        → (l : ℕ) × (l + 1 ≤ n) × Next k w p ds l
    first k n w f [] p ds z size few h = cc
    first k n w f (q ∷ qs) p ds z size few h =
        let (soon, same, rest) =
          if_cons (leb (f q) (sub64 now base)) q p (due_of f (sub64 now base) qs) ds h in
        (
          length qs,
          omega (arith, size),
          subst (λ r. Next k w r ds (length qs)) same
              (step k w f q qs ds z (omega (arith, few, size)) soon rest),
        )

    -- When `event_expire_timers` may make one round more than events are due, it ends. It has then
    -- handled just the due events, each once and the earliest first, and no event in the queue is
    -- due. Each handler finds its event out of the queue, timed out and without a timer. It is assumed
    -- to return, to take no due event out of the queue and to set no timer that is due at once;
    -- it may set its own timer again, and others, so that there are up to `c` more events. The
    -- queue has at most `n` events, with room for those below `2 ^ m - 1`, and the tree's loops may
    -- run `2 * m` rounds.
    pub event_expire_timers-Due :
        (ds : List Ptr) (k n : ℕ) (w : W)
        → Due base now s (timers_of w) ds n
        → n + budget c ds + 1 < 2 ^ m
        → length ds < k
        → Fired k w ds n
    event_expire_timers-Due ds zero n w d few more = absurd (omega (arith, more))
    event_expire_timers-Due [] (suc k) n w d few more = (
      w,
      late k w d.value d.events d.queued (omega (arith, d.size, few)) d.head,
      unfold fire_all in refl,
      at_most w n (n + 0) d (omega arith),
    )
    event_expire_timers-Due (p ∷ ds) (suc k) n w d few more =
        let (l, smaller, (w1, ran, all, d1)) =
          first k n w d.value d.events p ds d.queued d.size (omega (arith, few)) d.head in
        let (w2, ran', all', d2) =
          event_expire_timers-Due ds k (l + c) w1 d1 (omega (arith, few, smaller))
            (omega (arith, more)) in
        (
          w2,
          ran ∙ ran',
          all ∙ all',
          at_most w2 (l + c + budget c ds) (n + (c + budget c ds)) d2 (omega (arith, smaller)),
        )
