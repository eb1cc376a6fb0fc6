-- ===== src/Replacer/History.antt =====
-- Whole runs of the replacer against the queue of frames.
use db_smw.Common.{ℕ, ◌≡◌, refl, ap, ◌∙◌, List, [], ◌∷◌, Option, none}
use db_smw.Replacer.{LruReplacer, init, victim, pin, unpin, frames}
use db_smw.Replacer.Queue.{remove, enqueue, dequeue}
use db_smw.Replacer.Order.{
  IsValid, init-IsValid, victim-IsValid, pin-IsValid, unpin-IsValid, frames-victim, frames-pin,
  frames-unpin, max_size-victim, max_size-pin, max_size-unpin,
}

pub data Call : Type 0 where
  victims : Call
  pins unpins : ℕ → Call

-- a call of the replacer, with the frame that `victim` returns
unfoldable pub step : LruReplacer → Call → Option ℕ × LruReplacer
step r victims = victim r
step r (pins f) = (none, pin r f)
step r (unpins f) = (none, unpin r f)

unfoldable pub run : LruReplacer → List Call → List (Option ℕ) × LruReplacer
run r [] = ([], r)
run r (c ∷ cs) = let (out, s) = step r c in let (outs, t) = run s cs in (out ∷ outs, t)

-- the same calls on the queue of frames
unfoldable pub queue_step : ℕ → List ℕ → Call → Option ℕ × List ℕ
queue_step cap q victims = dequeue q
queue_step cap q (pins f) = (none, remove f q)
queue_step cap q (unpins f) = (none, enqueue cap f q)

unfoldable pub queue_run : ℕ → List ℕ → List Call → List (Option ℕ) × List ℕ
queue_run cap q [] = ([], q)
queue_run cap q (c ∷ cs) =
    let (out, s) = queue_step cap q c in let (outs, t) = queue_run cap s cs in (out ∷ outs, t)

step-IsValid : (r : LruReplacer) (c : Call) → IsValid r → IsValid (step r c).1
unfolding step
step-IsValid r victims v = victim-IsValid r v
step-IsValid r (pins f) v = pin-IsValid r v f
step-IsValid r (unpins f) v = unpin-IsValid r v f

max_size-step : (r : LruReplacer) (c : Call) → (step r c).1.max_size ≡ r.max_size
unfolding step
max_size-step r victims = max_size-victim r
max_size-step r (pins f) = max_size-pin r f
max_size-step r (unpins f) = max_size-unpin r f

step-queue_step :
    (r : LruReplacer) (cap : ℕ) (c : Call)
    → r.max_size ≡ cap
    → IsValid r
    → ((step r c).0, frames (step r c).1) ≡ queue_step cap (frames r) c
unfolding step queue_step
step-queue_step r cap victims e v = frames-victim r v
step-queue_step r cap (pins f) e v = ap (λ (q : List ℕ). (none, q)) (frames-pin r v f)
step-queue_step r cap (unpins f) e v =
    ap (λ (q : List ℕ). (none, q)) (frames-unpin r v f ∙ ap (λ (k : ℕ). enqueue k f (frames r)) e)

run-queue_run_from :
    (r : LruReplacer) (cap : ℕ) (cs : List Call)
    → r.max_size ≡ cap
    → IsValid r
    → IsValid (run r cs).1 × (((run r cs).0, frames (run r cs).1) ≡ queue_run cap (frames r) cs)
unfolding run queue_run
run-queue_run_from r cap [] e v = (v, refl)
run-queue_run_from r cap (c ∷ cs) e v =
    let s = (step r c).1 in
    let (w, ih) = run-queue_run_from s cap cs (max_size-step r c ∙ e) (step-IsValid r c v) in
    let one = step-queue_step r cap c e v in (w, rw (← one, ← ih))

-- Any calls on a new replacer return what the queue of frames returns, and leave its frames.
pub run-queue_run :
    (num_pages : ℕ) (cs : List Call)
    → IsValid (run (init num_pages) cs).1
      × (((run (init num_pages) cs).0, frames (run (init num_pages) cs).1)
          ≡ queue_run num_pages [] cs)
unfolding init frames
run-queue_run n cs = run-queue_run_from (init n) n cs refl (init-IsValid n)
