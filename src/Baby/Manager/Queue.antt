-- ===== src/Baby/Manager/Queue.antt =====
-- A subscriber's queue: its bound, the order of delivery, and the account of dropped events.
use nanit_onvif.Prelude.{
  ℕ, suc, ◌+◌, ◌%◌, ◌^◌, ◌≤◌, ◌<◌, ◌≡◌, refl, ap, ◌∙◌, sym, subst, ◌⊎◌, inl, inr, false, List, [],
  ◌∷◌, ◌++◌, append-nil, append_assoc, none, some, arith, length, length-append,
}
use nanit_onvif.Baby.Manager.{StateEvent, SubscriberWorker, queue_cap, enqueue, work}

-- `Loses n xs ys`: `xs` is `ys` with `n` elements left out, in the same order.
pub data Loses {ℓ} {A : Type ℓ} : ℕ → List A → List A → Type ℓ where
  done : Loses 0 [] []
  keep : {n : ℕ} {xs ys : List A} (x : A) → Loses n xs ys → Loses n (x ∷ xs) (x ∷ ys)
  lose : {n : ℕ} {xs ys : List A} (x : A) → Loses n xs ys → Loses (suc n) xs (x ∷ ys)

module _ {ℓ} {A : Type ℓ} where
  Loses-refl : (xs : List A) → Loses 0 xs xs
  Loses-refl [] = done
  Loses-refl (x ∷ xs) = keep x (Loses-refl xs)

  Loses-middle :
      (q : List A) (e : A) {n : ℕ} {xs : List A} (ys : List A)
      → Loses n xs (q ++ ys)
      → Loses (suc n) xs (q ++ (e ∷ ys))
  Loses-middle [] e ys l = lose e l
  Loses-middle (a ∷ q) e ys (keep _ l) = keep a (Loses-middle q e ys l)
  Loses-middle (a ∷ q) e ys (lose _ l) = lose a (Loses-middle q e ys l)

-- What happens to a worker: the publisher's `enqueue`, or a round of its own goroutine.
pub data Turn : Type 0 where
  send : StateEvent → Turn
  take : Turn

-- The events handed to the callback, and the worker after the turns.
pub run : SubscriberWorker → List Turn → List StateEvent × SubscriberWorker
run w [] = ([], w)
run w (send e ∷ ts) = run (enqueue false w e) ts
run w (take ∷ ts) = elim (work false w) [
  | none ↦ run w ts
  | some (e, w') ↦ let (out, w'') = run w' ts in (e ∷ out, w'')
]

abbrev pub sent : List Turn → List StateEvent
sent [] = []
sent (send e ∷ ts) = e ∷ sent ts
sent (take ∷ ts) = sent ts

pub record IsOpen (w : SubscriberWorker) : Type 0 where
  pub bounded : length w.queue ≤ queue_cap
  pub registered : w.done ≡ false
  pub counter : w.dropped < 2 ^ 64

-- What the turns have made of a worker.
pub record Ran (w : SubscriberWorker) (ts : List Turn) (r : List StateEvent × SubscriberWorker)
    : Type 0 where
  pub lost : ℕ
  pub order : Loses lost (r.0 ++ r.1.queue) (w.queue ++ sent ts)
  pub counted : r.1.dropped ≡ (w.dropped + lost) % 2 ^ 64
  pub still_open : IsOpen r.1

-- How a worker's queue and counter stand after `enqueue`.
enqueue_cases :
    (w : SubscriberWorker) (e : StateEvent)
    → IsOpen w
    → (((enqueue false w e).queue ≡ w.queue ++ (e ∷ []))
        × ((enqueue false w e).dropped ≡ w.dropped))
      ⊎ (((enqueue false w e).queue ≡ w.queue)
          × ((enqueue false w e).dropped ≡ (w.dropped + 1) % 2 ^ 64))
unfolding enqueue
enqueue_cases w e o = ground arith

work_cases :
    (w : SubscriberWorker)
    → w.done ≡ false
    → ((w.queue ≡ []) × (work false w ≡ none))
      ⊎ ((e : StateEvent) × (rest : List StateEvent) × (w.queue ≡ e ∷ rest)
          × (work false w ≡ some (e, record w { queue = rest })))
unfolding work
work_cases w d = go w.queue refl
  where
    go :
        (q : List StateEvent)
        → w.queue ≡ q
        → ((w.queue ≡ []) × (work false w ≡ none))
          ⊎ ((e : StateEvent) × (rest : List StateEvent) × (w.queue ≡ e ∷ rest)
              × (work false w ≡ some (e, record w { queue = rest })))
    go [] h = inl (h, rw (d, h))
    go (e ∷ rest) h = inr (e, rest, h, ground arith)

pub enqueue-IsOpen : (w : SubscriberWorker) (e : StateEvent) → IsOpen w → IsOpen (enqueue false w e)
unfolding enqueue
enqueue-IsOpen w e o = ground (arith, length-append w.queue (e ∷ []))

-- A step that keeps or loses the event sent, before the later turns.
Ran-kept :
    (w : SubscriberWorker) (e : StateEvent) (ts : List Turn) {w' : SubscriberWorker}
    {r : List StateEvent × SubscriberWorker}
    → w'.queue ≡ w.queue ++ (e ∷ [])
    → w'.dropped ≡ w.dropped
    → Ran w' ts r
    → Ran w (send e ∷ ts) r
Ran-kept w e ts {r = r} q d x = record {
  lost = x.lost;
  order =
      subst (Loses x.lost (r.0 ++ r.1.queue))
        (ap (λ q. q ++ sent ts) q ∙ append_assoc w.queue (e ∷ []) (sent ts)) x.order;
  counted = x.counted ∙ ap (λ n. (n + x.lost) % 2 ^ 64) d;
  still_open = x.still_open;
}

Ran-dropped :
    (w : SubscriberWorker) (e : StateEvent) (ts : List Turn) {w' : SubscriberWorker}
    {r : List StateEvent × SubscriberWorker}
    → w'.queue ≡ w.queue
    → w'.dropped ≡ (w.dropped + 1) % 2 ^ 64
    → Ran w' ts r
    → Ran w (send e ∷ ts) r
Ran-dropped w e ts {r = r} q d x = record {
  lost = suc x.lost;
  order =
      Loses-middle w.queue e (sent ts)
        (subst (λ q. Loses x.lost (r.0 ++ r.1.queue) (q ++ sent ts)) q x.order);
  counted = omega (arith, x.counted);
  still_open = x.still_open;
}

Ran-idle :
    (w : SubscriberWorker) (ts : List Turn) {r : List StateEvent × SubscriberWorker}
    → Ran w ts r
    → Ran w (take ∷ ts) r
Ran-idle w ts x = record {
  lost = x.lost;
  order = x.order;
  counted = x.counted;
  still_open = x.still_open;
}

Ran-taken :
    (w : SubscriberWorker) (ts : List Turn) (e : StateEvent) (rest : List StateEvent)
    {out : List StateEvent} {w' : SubscriberWorker}
    → w.queue ≡ e ∷ rest
    → Ran (record w { queue = rest }) ts (out, w')
    → Ran w (take ∷ ts) (e ∷ out, w')
Ran-taken w ts e rest {out} {w'} q x = record {
  lost = x.lost;
  order = subst (λ q. Loses x.lost (e ∷ (out ++ w'.queue)) (q ++ sent ts)) (sym q) (keep e x.order);
  counted = x.counted;
  still_open = x.still_open;
}

-- From a worker that is registered and within its bound, any turns leave it so. What the callback
-- got and what still waits, together, is what waited before and was sent since, in order, less the
-- lost events; and `dropped` has counted exactly those, modulo 2^64.
pub run_in_order : (w : SubscriberWorker) (ts : List Turn) → IsOpen w → Ran w ts (run w ts)
unfolding run
run_in_order w [] o = record {
  lost = 0;
  order = rw append-nil (Loses-refl w.queue);
  counted = omega arith;
  still_open = o;
}
run_in_order w (send e ∷ ts) o =
    let later = run_in_order (enqueue false w e) ts (enqueue-IsOpen w e o) in
    elim (enqueue_cases w e o) [
      | inl (q, d) ↦ Ran-kept w e ts q d later
      | inr (q, d) ↦ Ran-dropped w e ts q d later
    ]
run_in_order w (take ∷ ts) o = elim (work_cases w o.registered) [
  | inl (q, idle) ↦ rw (idle, run) (Ran-idle w ts (run_in_order w ts o))
  | inr (e, rest, q, took) ↦
      rw (took, run)
        (Ran-taken w ts e rest q (
          run_in_order (record w { queue = rest }) ts
            (record {
              bounded = omega (arith, ap length q, o.bounded);
              registered = o.registered;
              counter = o.counter;
            })))
]
