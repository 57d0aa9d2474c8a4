-- ===== src/Spsc/Reading.antt =====
-- A step of the reader keeps the invariant.
use mathlib.Core.List.{append-nil, append_assoc}
use make_the_american_great.Prelude.{
  ℕ, ◌+◌, ◌%◌, ◌^◌, ◌<◌, ◌≤◌, ◌≡◌, refl, ap, ◌∙◌, sym, List, [], ◌∷◌, ◌++◌, length, get_or, take,
  u32, arith, generate, generate_ext, generate-add, generate-get_or, min, inl, inr, le_cases,
  length-append, take-length, get_or-append_left,
}
use make_the_american_great.Ring.{Ring, read_size, clip}
use make_the_american_great.Ring.Inv.{
  IsSize, IsValid, wrap, span, span-lt, used, contents, read_size-eq-span, clip-eq-min,
}
use make_the_american_great.Ring.Read.{next_index}
use make_the_american_great.Spsc.{
  WriterPc, ReaderPc, System, copy_index, Read, started, saw_head, saw_tail, swapping, storing,
  waiting, loading, call, load_head, load_tail, empty, has_bytes, get, take_head, lose_head,
}
use make_the_american_great.Spsc.Inv.{copy_index-wrap, IsReserved, WriterInv, ReaderInv, Inv}
use make_the_american_great.Spsc.Reserved.{wrap-lt}

pub clip-read_size :
    (n h o len : ℕ)
    → IsSize n
    → h < n
    → o < n
    → len < 2 ^ 31
    → clip (read_size n h o) len ≡ min len (span n h o)
clip-read_size n h o len s p q l =
    let below : span n h o < n = span-lt n h o p q in
    ap (λ z. clip z len) (read_size-eq-span n h o s p q)
    ∙ clip-eq-min (span n h o) len (omega (arith, s.small)) l

span-shrunk :
    (n h t k : ℕ) → h < n → t < n → k ≤ span n h t → span n (wrap n (h + k)) t + k ≡ span n h t
span-shrunk n h t k p q r = ground arith

get_or-append_last : (xs : List ℕ) (x : ℕ) → get_or (xs ++ (x ∷ [])) (length xs) 0 ≡ x
get_or-append_last [] x = refl
get_or-append_last (y ∷ ys) x = get_or-append_last ys x

-- One more byte is copied.
pub one_more :
    (n : ℕ) (content : ℕ → ℕ) (h : ℕ) (got : List ℕ) (x : ℕ)
    → x ≡ content (wrap n (h + length got))
    → ((j : ℕ) → j < length got → get_or got j 0 ≡ content (wrap n (h + j)))
    → (j : ℕ) → j < length (got ++ (x ∷ []))
    → get_or (got ++ (x ∷ [])) j 0 ≡ content (wrap n (h + j))
one_more n content h got x at before j b =
    let long : length (got ++ (x ∷ [])) ≡ length got + 1 = length-append got (x ∷ []) in
    elim (le_cases (length got) j) [
      | inl last ↦
          let same : j ≡ length got = omega (arith, long) in
          ap (λ z. get_or (got ++ (x ∷ [])) z 0) same
          ∙ get_or-append_last got x
          ∙ at
          ∙ ap (λ z. content (wrap n (h + z))) (sym same)
      | inr early ↦ get_or-append_left got (x ∷ []) j 0 early ∙ before j early
    ]

module _ (n : ℕ) (rb : Ring) (valid : IsValid n rb) (k : ℕ) (there : k ≤ used n rb) (h' : ℕ)
    (moved : h' ≡ wrap n (rb.head + k)) where
  shrunk : span n h' rb.old_tail + k ≡ used n rb
  shrunk = rw moved (span-shrunk n rb.head rb.old_tail k valid.head_in valid.old_tail_in there)

  -- What the writer knows stays true when bytes are taken from the front.
  WriterInv-shrunk : (pc : WriterPc) → WriterInv n rb pc → WriterInv n (record rb { head = h' }) pc
  WriterInv-shrunk WriterPc.resting w = w
  WriterInv-shrunk (WriterPc.started input len) w = w
  WriterInv-shrunk (WriterPc.saw_head input len h) w =
      let here : span n h' rb.tail + k ≡ span n rb.head rb.tail = rw (← w.0) shrunk in
      (w.0, w.1, w.2, omega (arith, w.3, here))
  WriterInv-shrunk (WriterPc.saw_tail input len h t) w =
      let here : span n h' t + k ≡ span n rb.head t = rw (w.3, ← w.0) shrunk in
      (w.0, w.1, w.2, w.3, omega (arith, w.4, here))
  WriterInv-shrunk (swapping input t k') w =
      let here : span n h' t + k ≡ span n rb.head t = rw (w.1, ← w.0) shrunk in
      (w.0, w.1, w.2, w.3, omega (arith, w.4, here))
  WriterInv-shrunk (storing input t k' i) w = (reserved t k' input w.0, w.1, w.2)
    where
      reserved :
          (t k' : ℕ) (input : List ℕ)
          → IsReserved n rb input t k'
          → IsReserved n (record rb { head = h' }) input t k'
      reserved t k' input r =
          let here : span n h' t + k ≡ span n rb.head t = rw (← r.at_old) shrunk in
          record {
            at_old = r.at_old;
            moved = r.moved;
            some_bytes = r.some_bytes;
            given = r.given;
            apart = omega (arith, r.apart, here);
          }
  WriterInv-shrunk (waiting input t k') w =
      let r = w.0 in
      let here : span n h' t + k ≡ span n rb.head t = rw (← r.at_old) shrunk in
      (
        record {
          at_old = r.at_old;
          moved = r.moved;
          some_bytes = r.some_bytes;
          given = r.given;
          apart = omega (arith, r.apart, here);
        },
        w.1,
      )

  -- What was readable is what was taken and what is left.
  pub contents-split :
      (got : List ℕ)
      → length got ≡ k
      → ((j : ℕ) → j < k → get_or got j 0 ≡ rb.content (wrap n (rb.head + j)))
      → contents n rb ≡ got ++ contents n (record rb { head = h' })
  contents-split got long same =
      ap (generate at) total
      ∙ generate-add at k (span n h' rb.old_tail)
      ∙ ap (λ xs. xs ++ generate (λ i. at (k + i)) (span n h' rb.old_tail)) front
      ∙ ap (λ xs. got ++ xs)
          (generate_ext _ _ (span n h' rb.old_tail) (λ i b. ap rb.content (place i b)))
    where
      at : ℕ → ℕ
      at i = rb.content (wrap n (rb.head + i))

      total : used n rb ≡ k + span n h' rb.old_tail
      total = omega (arith, shrunk)

      front : generate at k ≡ got
      front =
          sym (generate_ext (λ i. get_or got i 0) at k same)
          ∙ generate-get_or got 0 k (omega arith)
          ∙ ap (λ c. take c got) (sym long)
          ∙ take-length got

      place : (i : ℕ) → i < span n h' rb.old_tail → wrap n (rb.head + (k + i)) ≡ wrap n (h' + i)
      place i b = ground (arith, shrunk, moved, valid.head_in, valid.old_tail_in)

module _ (n : ℕ) (rb : Ring) (wpc : WriterPc) (sent received : List ℕ) (size : IsSize n)
    (valid : IsValid n rb) (writing : WriterInv n rb wpc)
    (kept : sent ≡ received ++ contents n rb) where
  abbrev next : Ring → ReaderPc → List ℕ → System
  next rb' pc' bytes = record {
    ring = rb';
    writer = wpc;
    reader = pc';
    sent = sent;
    received = received ++ bytes;
  }

  looked : (pc' : ReaderPc) → ReaderInv n rb pc' → Inv n (next rb pc' [])
  looked pc' r = record {
    size = size;
    valid = valid;
    writing = writing;
    reading = r;
    kept = kept ∙ ap (λ xs. xs ++ contents n rb) (sym (append-nil received));
  }

  -- A step of the reader keeps the invariant.
  pub Read-Inv :
      {pc pc' : ReaderPc} {rb' : Ring} {bytes : List ℕ}
      → Read n rb pc rb' pc' bytes
      → ReaderInv n rb pc
      → Inv n (next rb' pc' bytes)
  Read-Inv (call {len} int) r = looked (started len) int
  Read-Inv (load_head {len}) r = looked (saw_head len rb.head) (r, refl)
  Read-Inv (load_tail {len} {h}) r =
      looked (saw_tail len h rb.old_tail)
        (r.0, r.1, valid.old_tail_in, omega (arith, ap (λ z. span n z rb.old_tail) r.1))
  Read-Inv (empty none_there) r = looked ReaderPc.resting tt
  Read-Inv (has_bytes {len} {h} {o} some_there) r =
      let h_in : h < n = omega (arith, r.1, valid.head_in) in
      let size_eq = clip-read_size n h o len size h_in r.2 r.0 in
      looked (loading h (clip (read_size n h o) len) []) (
        r.1,
        omega (arith, some_there),
        omega (arith, size_eq, r.3),
        omega arith,
        λ j b. absurd (omega arith),
      )
  Read-Inv (get {h} {k} {got} below) r =
      let x : ℕ = rb.content (copy_index n h k (length got)) in
      let h_in : h < n = omega (arith, r.0, valid.head_in) in
      let some_used : used n rb < n =
        span-lt n rb.head rb.old_tail valid.head_in valid.old_tail_in in
      let at : copy_index n h k (length got) ≡ wrap n (h + length got) =
        copy_index-wrap n h k (length got) size h_in (omega (arith, r.2)) below in
      let long : length (got ++ (x ∷ [])) ≡ length got + 1 = length-append got (x ∷ []) in
      looked (loading h k (got ++ (x ∷ [])))
        (r.0, r.1, r.2, omega (arith, long), one_more n rb.content h got x (ap rb.content at) r.4)
  Read-Inv (take_head {h} {k} {got} long same) r =
      let h' : ℕ = u32 (h + k) % n in
      let some_used : used n rb < n =
        span-lt n rb.head rb.old_tail valid.head_in valid.old_tail_in in
      let h_in : h < n = omega (arith, r.0, valid.head_in) in
      let moved : h' ≡ wrap n (rb.head + k) =
        next_index n h k size h_in (omega (arith, r.2)) ∙ ap (λ z. wrap n (z + k)) r.0 in
      let rb' : Ring = record rb { head = h' } in
      let bytes : (j : ℕ) → j < k → get_or got j 0 ≡ rb.content (wrap n (rb.head + j)) =
        λ j b. r.4 j (omega (arith, long)) ∙ ap (λ z. rb.content (wrap n (z + j))) r.0 in
      record {
        size = size;
        valid = record {
          head_in = rw moved (wrap-lt n (rb.head + k) (omega (arith, r.2, valid.head_in)));
          tail_in = valid.tail_in;
          old_tail_in = valid.old_tail_in;
        };
        writing = WriterInv-shrunk n rb valid k r.2 h' moved wpc writing;
        reading = tt;
        kept =
            kept
            ∙ ap (λ xs. received ++ xs) (contents-split n rb valid k r.2 h' moved got long bytes)
            ∙ sym (append_assoc received got (contents n rb'));
      }
  Read-Inv (lose_head long lost) r = absurd (lost (sym r.0))
