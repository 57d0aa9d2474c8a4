-- ===== src/Spsc/Inv.antt =====
-- What holds between the steps of a writer and a reader on one ring.
use make_the_american_great.Prelude.{
  ℕ, ◌+◌, ◌-◌, ◌^◌, ◌<◌, ◌≤◌, ◌≡◌, List, ◌++◌, length, get_or, arith,
}
use make_the_american_great.Ring.{Ring, remain_length}
use make_the_american_great.Ring.Inv.{IsSize, IsValid, wrap, span, used, contents}
use make_the_american_great.Ring.Copy.{remain_length-eq}
use make_the_american_great.Spsc.{
  WriterPc, ReaderPc, System, copy_index, swapping, storing, waiting, loading,
}

-- The copies stay inside the data area, on the positions round its end.
pub copy_index-wrap :
    (n from k i : ℕ)
    → IsSize n
    → from < n
    → k < n
    → i < k
    → copy_index n from k i ≡ wrap n (from + i)
copy_index-wrap n from k i s p q h =
    let rest : remain_length n from ≡ n - from = remain_length-eq n from s p in
    ground (arith, rest, s.small)

-- The bytes of a call: a length that fits an int and the input.
abbrev pub IsCall : ℕ → List ℕ → Type 0
IsCall len input = (len < 2 ^ 31) × (len ≤ length input)

-- The k bytes from t on are reserved: the tail is behind them, the reader's side ends before them,
-- and between them and the head there is at least one position.
pub record IsReserved (n : ℕ) (rb : Ring) (input : List ℕ) (t k : ℕ) : Type 0 where
  pub at_old : rb.old_tail ≡ t
  pub moved : rb.tail ≡ wrap n (t + k)
  pub some_bytes : 0 < k
  pub given : k ≤ length input
  pub apart : k + span n rb.head t < n

-- What the locals of the writer say about the ring.
abbrev pub WriterInv : ℕ → Ring → WriterPc → Type 0
WriterInv n rb WriterPc.resting = rb.old_tail ≡ rb.tail
WriterInv n rb (WriterPc.started input len) = (rb.old_tail ≡ rb.tail) × IsCall len input
WriterInv n rb (WriterPc.saw_head input len h) =
    (rb.old_tail ≡ rb.tail)
    × IsCall len input
    × (h < n)
    × (span n rb.head rb.tail ≤ span n h rb.tail)
WriterInv n rb (WriterPc.saw_tail input len h t) =
    (rb.old_tail ≡ rb.tail)
    × IsCall len input
    × (h < n)
    × (t ≡ rb.tail)
    × (span n rb.head t ≤ span n h t)
WriterInv n rb (swapping input t k) =
    (rb.old_tail ≡ rb.tail)
    × (t ≡ rb.tail)
    × (0 < k)
    × (k ≤ length input)
    × (k + span n rb.head t < n)
WriterInv n rb (storing input t k i) =
    IsReserved n rb input t k
    × (i ≤ k)
    × ((j : ℕ) → j < i → rb.content (wrap n (t + j)) ≡ get_or input j 0)
WriterInv n rb (waiting input t k) =
    IsReserved n rb input t k × ((j : ℕ) → j < k → rb.content (wrap n (t + j)) ≡ get_or input j 0)

-- What the locals of the reader say about the ring.
abbrev pub ReaderInv : ℕ → Ring → ReaderPc → Type 0
ReaderInv n rb ReaderPc.resting = Unit {0}
ReaderInv n rb (ReaderPc.started len) = len < 2 ^ 31
ReaderInv n rb (ReaderPc.saw_head len h) = (len < 2 ^ 31) × (h ≡ rb.head)
ReaderInv n rb (ReaderPc.saw_tail len h o) =
    (len < 2 ^ 31) × (h ≡ rb.head) × (o < n) × (span n h o ≤ used n rb)
ReaderInv n rb (loading h k got) =
    (h ≡ rb.head)
    × (0 < k)
    × (k ≤ used n rb)
    × (length got ≤ k)
    × ((j : ℕ) → j < length got → get_or got j 0 ≡ rb.content (wrap n (h + j)))

pub record Inv (n : ℕ) (s : System) : Type 0 where
  pub size : IsSize n
  pub valid : IsValid n s.ring
  pub writing : WriterInv n s.ring s.writer
  pub reading : ReaderInv n s.ring s.reader
  pub kept : s.sent ≡ s.received ++ contents n s.ring
