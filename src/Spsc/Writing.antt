-- ===== src/Spsc/Writing.antt =====
-- A step of the writer keeps the invariant.
use mathlib.Core.List.{append-nil, append_assoc}
use make_the_american_great.Prelude.{
  ℕ, ◌+◌, ◌%◌, ◌<◌, ◌≤◌, ◌≡◌, refl, ap, ◌∙◌, sym, List, [], ◌++◌, get_or, take, u32, arith, update,
}
use make_the_american_great.Ring.{Ring, write_size, clip}
use make_the_american_great.Ring.Inv.{IsSize, IsValid, wrap, used, contents}
use make_the_american_great.Ring.Read.{next_index}
use make_the_american_great.Spsc.{
  WriterPc, ReaderPc, System, copy_index, Write, started, saw_head, saw_tail, swapping, waiting,
  loading, call, load_head, load_tail, full, has_room, take_tail, lose_tail, put, stored, wait,
  publish,
}
use make_the_american_great.Spsc.Inv.{WriterInv, ReaderInv, Inv}
use make_the_american_great.Spsc.Reserved.{
  clip-write_size, wrap-lt, readable_kept, contents-copied, copied-WriterInv, new_tail, used-ended,
  contents-ended,
}

-- What the reader knows stays true when bytes are added behind those that are readable.
ReaderInv-grown :
    (n : ℕ) (rb rb' : Ring) (pc : ReaderPc)
    → rb'.head ≡ rb.head
    → used n rb ≤ used n rb'
    → ((j : ℕ)
        → j < used n rb
        → rb'.content (wrap n (rb.head + j)) ≡ rb.content (wrap n (rb.head + j)))
    → ReaderInv n rb pc
    → ReaderInv n rb' pc
ReaderInv-grown n rb rb' ReaderPc.resting head more same inv = tt
ReaderInv-grown n rb rb' (ReaderPc.started len) head more same inv = inv
ReaderInv-grown n rb rb' (ReaderPc.saw_head len h) head more same inv = (inv.0, inv.1 ∙ sym head)
ReaderInv-grown n rb rb' (ReaderPc.saw_tail len h o) head more same inv =
    (inv.0, inv.1 ∙ sym head, inv.2, omega (arith, inv.3))
ReaderInv-grown n rb rb' (loading h k got) head more same inv = (
  inv.0 ∙ sym head,
  inv.1,
  omega (arith, inv.2),
  inv.3,
  λ j b.
      inv.4 j b
      ∙ ap (λ z. rb.content (wrap n (z + j))) inv.0
      ∙ sym (same j (omega (arith, inv.2, inv.3)))
      ∙ ap (λ z. rb'.content (wrap n (z + j))) (sym inv.0),
)

module _ (n : ℕ) (rb : Ring) (rpc : ReaderPc) (sent received : List ℕ) (size : IsSize n)
    (valid : IsValid n rb) (reading : ReaderInv n rb rpc)
    (kept : sent ≡ received ++ contents n rb) where
  abbrev next : Ring → WriterPc → List ℕ → System
  next rb' pc' bytes = record {
    ring = rb';
    writer = pc';
    reader = rpc;
    sent = sent ++ bytes;
    received = received;
  }

  -- A step that leaves the ring as it is.
  looked : (pc' : WriterPc) → WriterInv n rb pc' → Inv n (next rb pc' [])
  looked pc' w = record {
    size = size;
    valid = valid;
    writing = w;
    reading = reading;
    kept = append-nil sent ∙ kept;
  }

  -- A step of the writer keeps the invariant.
  pub Write-Inv :
      {pc pc' : WriterPc} {rb' : Ring} {bytes : List ℕ}
      → Write n rb pc rb' pc' bytes
      → WriterInv n rb pc
      → Inv n (next rb' pc' bytes)
  Write-Inv (call {input} {len} int long) w = looked (started input len) (w, (int, long))
  Write-Inv (load_head {input} {len}) w =
      looked (saw_head input len rb.head) (w.0, w.1, valid.head_in, omega arith)
  Write-Inv (load_tail {input} {len} {h}) w =
      looked (saw_tail input len h rb.tail) (w.0, w.1, w.2, refl, w.3)
  Write-Inv (full empty) w = looked WriterPc.resting w.0
  Write-Inv (has_room {input} {len} {h} {t} some_room) w =
      let t_in : t < n = omega (arith, w.3, valid.tail_in) in
      let size_eq = clip-write_size n h t len size w.2 t_in w.1.0 in
      looked (swapping input t (clip (write_size n h t) len)) (
        w.0,
        w.3,
        omega (arith, some_room),
        omega (arith, size_eq, w.1.1),
        omega (arith, size_eq, w.4, some_room),
      )
  Write-Inv (take_tail {input} {t} {k} same) w =
      let small : k < n = omega (arith, w.4) in
      let t_in : t < n = omega (arith, w.1, valid.tail_in) in
      let moved : u32 (t + k) % n ≡ wrap n (t + k) = next_index n t k size t_in small in
      record {
        size = size;
        valid = record {
          head_in = valid.head_in;
          tail_in = rw moved (wrap-lt n (t + k) (omega arith));
          old_tail_in = valid.old_tail_in;
        };
        writing = (
          record {
            at_old = w.0 ∙ sym w.1;
            moved = moved;
            some_bytes = w.2;
            given = w.3;
            apart = w.4;
          },
          omega arith,
          λ j h. absurd (omega arith),
        );
        reading =
            ReaderInv-grown n rb (record rb { tail = u32 (t + k) % n }) rpc refl (omega arith)
              (λ j h. refl) reading;
        kept = append-nil sent ∙ kept;
      }
  Write-Inv (lose_tail lost) w = absurd (lost (sym w.1))
  Write-Inv (put {input} {t} {k} {i} below) w =
      let r = w.0 in
      let at : ℕ = copy_index n t k i in
      let rb' : Ring = record rb { content = update rb.content at (get_or input i 0) } in
      record {
        size = size;
        valid = record {
          head_in = valid.head_in;
          tail_in = valid.tail_in;
          old_tail_in = valid.old_tail_in;
        };
        writing = copied-WriterInv n rb size valid input t k r i below w.2;
        reading =
            ReaderInv-grown n rb rb' rpc refl (omega arith)
              (readable_kept n rb size valid input t k r i below) reading;
        kept =
            append-nil sent
            ∙ kept
            ∙ ap (λ xs. received ++ xs) (sym (contents-copied n rb size valid input t k r i below));
      }
  Write-Inv (stored {input} {t} {k}) w = looked (waiting input t k) (w.0, w.2)
  Write-Inv (wait {input} {t} {k} other) w = looked (waiting input t k) w
  Write-Inv (publish {input} {t} {k} mine) w =
      let r = w.0 in
      let rb' : Ring = record rb { old_tail = u32 (t + k) % n } in
      let grown = used-ended n rb size valid input t k r in
      let moved : u32 (t + k) % n ≡ rb.tail = new_tail n rb size valid input t k r ∙ sym r.moved in
      record {
        size = size;
        valid = record {
          head_in = valid.head_in;
          tail_in = valid.tail_in;
          old_tail_in = rw moved valid.tail_in;
        };
        writing = moved;
        reading = ReaderInv-grown n rb rb' rpc refl (omega (arith, grown)) (λ j h. refl) reading;
        kept =
            ap (λ xs. xs ++ take k input) kept
            ∙ append_assoc received (contents n rb) (take k input)
            ∙ ap (λ xs. received ++ xs) (sym (contents-ended n rb size valid input t k r w.1));
      }
