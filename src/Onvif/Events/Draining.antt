-- ===== src/Onvif/Events/Draining.antt =====
-- What PullMessages takes from a subscription's queue.
use nanit_onvif.Prelude.{
  ℕ, suc, min, ◌≡◌, ap, ◌∙◌, sym, ℤ, pos, negsuc, List, [], ◌∷◌, ◌++◌, append-nil, append_assoc,
  length, take-append-drop, length-take, arith,
}
use nanit_onvif.Onvif.Events.{
  Notification, Subscription, enqueue, drain_begin, drain_count, drain_end,
}

-- What happens to a subscription: a notification, the start of a pull, or its end.
pub data Turn : Type 0 where
  arrive : Notification → Turn
  begin : ℕ → ℕ → Turn
  finish : ℤ → Turn

-- The messages handed out, in order, and the subscription after the turns.
pub run : Subscription → List Turn → List Notification × Subscription
run s [] = ([], s)
run s (arrive n ∷ ts) = run (enqueue n s) ts
run s (begin wait timeout ∷ ts) = run (drain_begin wait timeout s).0 ts
run s (finish limit ∷ ts) =
    let (out, s') = drain_end limit s in let (later, s'') = run s' ts in (out ++ later, s'')

abbrev pub arrivals : List Turn → List Notification
arrivals [] = []
arrivals (arrive n ∷ ts) = n ∷ arrivals ts
arrivals (begin wait timeout ∷ ts) = arrivals ts
arrivals (finish limit ∷ ts) = arrivals ts

drain_begin-queue :
    (wait timeout : ℕ) (s : Subscription) → (drain_begin wait timeout s).0.queue ≡ s.queue
unfolding drain_begin
drain_begin-queue wait timeout s = ground arith

-- However pulls and notifications alternate, what the pulls hand out and what still waits is what
-- waited at first and has arrived, in order: nothing is lost, repeated or reordered.
pub drain_in_order :
    (s : Subscription) (ts : List Turn)
    → (run s ts).0 ++ (run s ts).1.queue ≡ s.queue ++ arrivals ts
unfolding run
drain_in_order s [] = sym (append-nil s.queue)
drain_in_order s (arrive n ∷ ts) =
    drain_in_order (enqueue n s) ts
    ∙ (unfold enqueue in append_assoc s.queue (n ∷ []) (arrivals ts))
drain_in_order s (begin wait timeout ∷ ts) =
    drain_in_order (drain_begin wait timeout s).0 ts
    ∙ ap (λ q. q ++ arrivals ts) (drain_begin-queue wait timeout s)
drain_in_order s (finish limit ∷ ts) =
    append_assoc (drain_end limit s).0 _ _
    ∙ ap (λ r. (drain_end limit s).0 ++ r) (drain_in_order (drain_end limit s).1 ts)
    ∙ sym (append_assoc (drain_end limit s).0 _ (arrivals ts))
    ∙ ap (λ q. q ++ arrivals ts) (whole limit s)
  where
    whole : (l : ℤ) (s : Subscription) → (drain_end l s).0 ++ (drain_end l s).1.queue ≡ s.queue
    whole l s = unfold drain_end in take-append-drop (drain_count l (length s.queue)) s.queue

-- A pull with a positive limit hands out that many messages, or all where there are fewer, and one
-- with a limit of 0 or less hands out all.
pub length-drain_end :
    (s : Subscription) (limit : ℕ)
    → (length (drain_end (pos (suc limit)) s).0 ≡ min (suc limit) (length s.queue))
      × (length (drain_end (pos 0) s).0 ≡ length s.queue)
      × (length (drain_end (negsuc limit) s).0 ≡ length s.queue)
unfolding drain_end
length-drain_end s limit =
    let n = length s.queue in
    (
      ground (arith, length-take (drain_count (pos (suc limit)) n) s.queue),
      ground (arith, length-take n s.queue),
      ground (arith, length-take n s.queue),
    )
