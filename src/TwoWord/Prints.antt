-- ===== src/TwoWord/Prints.antt =====
-- What testConnection of workspace/io.cpp prints.
use mathlib.Core.Path.{subst}
use make_the_american_great.Prelude.{
  ℕ, ◌+◌, ◌-◌, ◌^◌, ◌≤◌, ◌<◌, ◌≡◌, ◌≢◌, refl, ap, ◌∙◌, sym, List, [], ◌++◌, take, drop, length,
  length-append, length-take, take-length, ==_refl, generate, arith, min,
}
use make_the_american_great.Run.{Run, done, fault, spinning}
use make_the_american_great.Ring.{Ring, rb_write}
use make_the_american_great.Ring.Inv.{
  wrap, span, IsSize, IsQuiet, used, contents, length-contents, span-lt,
}
use make_the_american_great.Ring.Read.{
  after_read, rb_read-done, after_read-IsValid, contents-after_read,
}
use make_the_american_great.Ring.Write.{room, Wrote, rb_write-Wrote}
use make_the_american_great.Connections.{map_key}
use make_the_american_great.TwoWord.{Words, read, write, early_data_size}
use make_the_american_great.TwoWord.Same.{
  published, write_published, read-as_rb_read, write-as_rb_write,
}
use make_the_american_great.TwoWord.Early.{read_inverts}
use make_the_american_great.TwoWord.Demo.{
  Segments, open_link, link_read, link_write, letters, test_connection,
}
use make_the_american_great.TwoWord.Opened.{opened}

-- The ring holds xs.
record Holds (n : ℕ) (rb : Words) (xs : List ℕ) : Type 0 where
  quiet : IsQuiet n (published rb)
  bytes : contents n (published rb) ≡ xs

used-length : (n : ℕ) (rb : Words) (xs : List ℕ) → Holds n rb xs → used n (published rb) ≡ length xs
used-length n rb xs h = sym (length-contents n (published rb)) ∙ ap length h.bytes

write_inverts :
    (r : Run (ℕ × Words)) (k : ℕ) (ring : Ring)
    → write_published r ≡ done (k, ring)
    → (w : Words) × (r ≡ done (k, w)) × (published w ≡ ring)
write_inverts (done r) k ring h = (r.1, cc, cc)
write_inverts fault k ring h = cc
write_inverts spinning k ring h = cc

module _ (n : ℕ) (size : IsSize n) (rb : Words) (xs : List ℕ) (h : Holds n rb xs) (len m : ℕ)
    (int : len < 2 ^ 31) where
  write-Holds :
      (input : List ℕ)
      → len ≤ length input
      → min len (n - 1 - length xs) ≡ m
      → (rb' : Words) × (write n 1 rb len input ≡ done (m, rb')) × Holds n rb' (xs ++ take m input)
  write-Holds input long count =
      let ring : Ring = published rb in
      let all : min len (room n ring) ≡ m =
        ap (λ u. min len (n - 1 - u)) (used-length n rb xs h) ∙ count in
      let out : Wrote n ring input m (rb_write n 1 ring len input) =
        subst (λ z. Wrote n ring input z (rb_write n 1 ring len input)) all
          (rb_write-Wrote n 0 ring len input size h.quiet int long) in
      let (rb', writes, same) =
        write_inverts (write n 1 rb len input) m out.rb'
          (write-as_rb_write n 1 rb len input ∙ out.returns) in
      (
        rb',
        writes,
        record {
          quiet = subst (IsQuiet n) (sym same) out.quiet;
          bytes = ap (contents n) same ∙ out.appended ∙ ap (λ ys. ys ++ take m input) h.bytes;
        },
      )

  read-Holds :
      min len (length xs) ≡ m
      → (rb' : Words) × (read n 1 rb len ≡ done (m, take m xs, rb')) × Holds n rb' (drop m xs)
  read-Holds count =
      let ring : Ring = published rb in
      let all : min len (used n ring) ≡ m = ap (min len) (used-length n rb xs h) ∙ count in
      let below : used n ring < n =
        span-lt n ring.head ring.old_tail h.quiet.valid.head_in h.quiet.valid.old_tail_in in
      let (rb', reads, same) = read_inverts (read n 1 rb len) m (take m xs) (after_read n ring m) (
        read-as_rb_read n 1 rb len
        ∙ rb_read-done n 0 ring len size h.quiet.valid int
        ∙ ap (λ z. done (z, take z (contents n ring), after_read n ring z)) all
        ∙ ap (λ ys. done (m, take m ys, after_read n ring m)) h.bytes) in
      (
        rb',
        reads,
        record {
          quiet = subst (IsQuiet n) (sym same) (record {
            valid = after_read-IsValid n ring m h.quiet.valid (omega (arith, all));
            published = refl;
          });
          bytes =
              ap (contents n) same
              ∙ contents-after_read n ring m h.quiet.valid (omega (arith, all))
              ∙ ap (drop m) h.bytes;
        },
      )

emptied-Holds : (n : ℕ) (rb : Words) → 0 < n → rb.head ≡ 0 → rb.tail ≡ 0 → Holds n rb []
emptied-Holds n rb p e f = record {
  quiet = record { valid = omega (arith, e, f); published = refl };
  bytes =
      ap (λ u. generate (λ i. rb.content (wrap n (rb.head + i))) u)
        (ap (λ h. span n h rb.tail) e ∙ ap (span n 0) f);
}

-- testConnection with a third argument of at least five bytes, when the key of the ring that it
-- writes is not IPC_PRIVATE and nothing is attached to it: the first write takes the twelve bytes
-- "abcdefghijkl", the first read returns "abcde", the second write takes five bytes, and the second
-- read returns "fghijkl" and the first five bytes of the argument.
pub prints :
    (src dst : ℕ) (arg : List ℕ) (s : Segments)
    → map_key dst src ≢ 0
    → s.attached (map_key dst src) ≡ 0
    → 5 ≤ length arg
    → test_connection early_data_size src dst arg s
      ≡ done (12, (5, take 5 letters), 5, (12, drop 5 letters ++ take 5 arg))
unfolding test_connection link_write link_read
prints src dst arg s named new long =
    let n : ℕ = early_data_size in
    let key : ℕ = map_key dst src in
    let size : IsSize n = omega arith in
    let s₀ : Segments = (open_link dst src (open_link src dst s).1).1 in
    let (writes, reads, zeros) = opened src dst s named new in
    let h₀ = emptied-Holds n (s₀.words key) (omega arith) zeros.0 zeros.1 in
    let (rb₁, e₁, h₁) =
      write-Holds n size (s₀.words key) [] h₀ 12 12 (omega arith) letters (omega arith) refl in
    let (rb₂, e₂, h₂) = read-Holds n size rb₁ letters h₁ 5 5 (omega arith) refl in
    let (rb₃, e₃, h₃) =
      write-Holds n size rb₂ (drop 5 letters) h₂ 5 5 (omega arith) arg long refl in
    let five : length (take 5 arg) ≡ 5 = length-take 5 arg long in
    let twelve : min 12 (length (drop 5 letters ++ take 5 arg)) ≡ 12 =
      ap (min 12) (length-append (drop 5 letters) (take 5 arg) ∙ ap (λ z. 7 + z) five) in
    let (rb₄, e₄, h₄) =
      read-Holds n size rb₃ (drop 5 letters ++ take 5 arg) h₃ 12 12 (omega arith) twelve in
    let all : List ℕ = drop 5 letters ++ take 5 arg in
    let whole : take 12 all ≡ all =
      ap (λ z. take z all)
        (sym (length-append (drop 5 letters) (take 5 arg) ∙ ap (λ z. 7 + z) five))
      ∙ take-length all in
    rw (writes, reads, e₁, ==_refl key, e₂, ==_refl key, e₃, ==_refl key, e₄)
      (ap (λ xs. done (12, (5, take 5 letters), 5, (12, xs))) whole)
