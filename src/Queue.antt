-- ===== src/Queue.antt =====
-- What a ring promises: a queue of at most `cap` bytes, oldest first, whose calls take or give as
-- many bytes as they can.
use make_the_american_great.Prelude.{ℕ, ◌-◌, ◌<◌, ◌^◌, List, [], ◌∷◌, ◌++◌, min, length, take, drop}

-- A call of a client: a write of these bytes, or a read of at most so many.
pub data Call : Type 0 where
  put : List ℕ → Call
  get : ℕ → Call

-- What it returns.
pub data Reply : Type 0 where
  wrote : ℕ → Reply
  got : List ℕ → Reply

-- The lengths are ints.
abbrev pub IsInt : Call → Type 0
IsInt (put xs) = length xs < 2 ^ 31
IsInt (get len) = len < 2 ^ 31

abbrev pub AreInts : List Call → Type 0
AreInts [] = Unit {0}
AreInts (c ∷ cs) = IsInt c × AreInts cs

abbrev pub accepted : ℕ → List ℕ → List ℕ → ℕ
accepted cap q xs = min (length xs) (cap - length q)

unfoldable pub run : ℕ → List ℕ → List Call → List Reply
run cap q [] = []
run cap q (put xs ∷ cs) = wrote (accepted cap q xs) ∷ run cap (q ++ take (accepted cap q xs) xs) cs
run cap q (get len ∷ cs) =
    got (take (min len (length q)) q) ∷ run cap (drop (min len (length q)) q) cs
