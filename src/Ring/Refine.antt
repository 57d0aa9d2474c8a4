-- ===== src/Ring/Refine.antt =====
-- A ring against a bounded queue, over sequences of calls.
use make_the_american_great.Prelude.{ℕ, ◌-◌, ◌<◌, ◌≡◌, refl, List, [], ◌∷◌, min, arith, length}
use make_the_american_great.Queue
use make_the_american_great.Queue.{Call, put, get, Reply, wrote, got, AreInts}
use make_the_american_great.Run.{Run, done, bind}
use make_the_american_great.Ring.{Ring, rb_read, rb_write}
use make_the_american_great.Ring.Inv.{IsSize, IsQuiet, used, contents, span-lt, length-contents}
use make_the_american_great.Ring.Read.{
  after_read, after_read-IsValid, contents-after_read, rb_read-done,
}
use make_the_american_great.Ring.Write.{rb_write-Wrote}

-- The calls in order, each with one attempt.
pub run : ℕ → Ring → List Call → Run (List Reply)
run n rb [] = done []
run n rb (put xs ∷ cs) =
    bind (rb_write n 1 rb (length xs) xs)
      (λ r. bind (run n r.1 cs) (λ replies. done (wrote r.0 ∷ replies)))
run n rb (get len ∷ cs) =
    bind (rb_read n 1 rb len) (λ r. bind (run n r.2 cs) (λ replies. done (got r.1 ∷ replies)))

-- Any calls on a ring with no write under way return, with the replies of the queue of capacity
-- n - 1 that starts with the bytes the ring holds. The lengths are ints that are not negative.
pub run_refines :
    (n : ℕ) (rb : Ring) (cs : List Call)
    → IsSize n
    → IsQuiet n rb
    → AreInts cs
    → run n rb cs ≡ done (Queue.run (n - 1) (contents n rb) cs)
unfolding run Queue.run
run_refines n rb [] s q h = refl
run_refines n rb (put xs ∷ cs) s q h =
    let w = rb_write-Wrote n 0 rb (length xs) xs s q h.0 (omega arith) in
    let ih = run_refines n w.rb' cs s w.quiet h.1 in
    rw (w.returns, ih, w.appended, length-contents n rb)
run_refines n rb (get len ∷ cs) s q h =
    let v = q.valid in
    let small : used n rb < n = span-lt n rb.head rb.old_tail v.head_in v.old_tail_in in
    let k : ℕ = min len (used n rb) in
    let keep : IsQuiet n (after_read n rb k) = record {
      valid = after_read-IsValid n rb k v (omega arith);
      published = q.published;
    } in
    rw (
      rb_read-done n 0 rb len s v h.0,
      run_refines n (after_read n rb k) cs s keep h.1,
      contents-after_read n rb k v (omega arith),
      length-contents n rb,
    )
