-- ===== src/TwoWord/Same.antt =====
-- The ring with two words against the ring with three.
use make_the_american_great.Prelude.{
  ℕ, zero, suc, ◌+◌, ◌%◌, ◌≡◌, refl, List, Option, none, some, u32, ◌==◌, ==_refl, Bool-cases, inl,
  inr,
}
use make_the_american_great.Run.{Run, done, bind}
use make_the_american_great.Ring.{
  Ring, rb_read, rb_write, finish_read, finish_write, reserve, publish, fetch, store, clip,
  read_size, write_size,
}
use make_the_american_great.TwoWord.{Words, read, write, end_read, end_write}

-- The ring with three words in which every write is published.
abbrev pub published : Words → Ring
published rb = record { head = rb.head; tail = rb.tail; old_tail = rb.tail; content = rb.content }

abbrev pub read_published : Run (ℕ × List ℕ × Words) → Run (ℕ × List ℕ × Ring)
read_published r = bind r (λ t. done (t.0, t.1, published t.2))

abbrev pub write_published : Run (ℕ × Words) → Run (ℕ × Ring)
write_published r = bind r (λ t. done (t.0, published t.1))

end_read-finish_read :
    (n : ℕ) (rb : Words) (len : ℕ) (r : Run (ℕ × List ℕ × Words)) (r' : Run (ℕ × List ℕ × Ring))
    (out : Option (List ℕ))
    → fetch n rb.content rb.head len ≡ out
    → read_published (end_read n rb rb.head len r) ≡ finish_read n (published rb) rb.head len r'
unfolding end_read finish_read
end_read-finish_read n rb len r r' none e = rw (end_read, finish_read, e)
end_read-finish_read n rb len r r' (some output) e = rw (end_read, finish_read, e, ==_refl rb.head)

-- read of workspace/io.cpp does what rb_read does: the same bytes, the same end, the same ring.
pub read-as_rb_read :
    (n fuel : ℕ) (rb : Words) (len : ℕ)
    → read_published (read n fuel rb len) ≡ rb_read n fuel (published rb) len
unfolding read rb_read
read-as_rb_read n zero rb len = refl
read-as_rb_read n (suc fuel) rb len =
    let len' : ℕ = clip (read_size n rb.head rb.tail) len in
    elim (Bool-cases (len' == 0)) [
      | inl e ↦ rw e
      | inr e ↦ rw e (
          end_read-finish_read n rb len' (read n fuel rb len') (rb_read n fuel (published rb) len')
            (fetch n rb.content rb.head len') refl)
    ]

end_write-reserve :
    (n fuel : ℕ) (rb : Words) (len : ℕ) (input : List ℕ) (r : Run (ℕ × Ring)) (out : Option (ℕ → ℕ))
    → store n rb.content rb.tail input len ≡ out
    → write_published (end_write n (record rb { tail = u32 (rb.tail + len) % n }) rb.tail len input)
      ≡ reserve n (suc fuel) (published rb) rb.tail len input r
unfolding end_write reserve finish_write publish
end_write-reserve n fuel rb len input r none e =
    rw (end_write, reserve, ==_refl rb.tail, finish_write, e)
end_write-reserve n fuel rb len input r (some content) e =
    rw (end_write, reserve, ==_refl rb.tail, finish_write, e, publish, ==_refl rb.tail)

-- write of workspace/io.cpp does what rb_write does on a ring with no write under way: the same
-- count, the same end, and the same ring, published.
pub write-as_rb_write :
    (n fuel : ℕ) (rb : Words) (len : ℕ) (input : List ℕ)
    → write_published (write n fuel rb len input) ≡ rb_write n fuel (published rb) len input
unfolding write rb_write
write-as_rb_write n zero rb len input = refl
write-as_rb_write n (suc fuel) rb len input =
    let len' : ℕ = clip (write_size n rb.head rb.tail) len in
    elim (Bool-cases (len' == 0)) [
      | inl e ↦ rw e
      | inr e ↦
          rw (e, ==_refl rb.tail)
            (end_write-reserve n fuel rb len' input (rb_write n fuel (published rb) len' input)
              (store n rb.content rb.tail input len') refl)
    ]

-- read and write of workspace/io.cpp return what rb_read and rb_write do on the ring with three
-- words in which every write is published, and leave the same ring; they also run out of fuel and
-- access memory out of range at the same time.
pub calls_agree :
    (n fuel : ℕ) (rb : Words) (len : ℕ) (input : List ℕ)
    → (read_published (read n fuel rb len) ≡ rb_read n fuel (published rb) len)
      × (write_published (write n fuel rb len input) ≡ rb_write n fuel (published rb) len input)
calls_agree n fuel rb len input =
    (read-as_rb_read n fuel rb len, write-as_rb_write n fuel rb len input)
