-- ===== src/Run.antt =====
-- What a call comes to, for every component.
pub data Run (A : Type 0) : Type 0 where
  done : A → Run A
  fault : Run A
  spinning : Run A

abbrev pub bind : {A B : Type 0} → Run A → (A → Run B) → Run B
bind (done a) k = k a
bind fault k = fault
bind spinning k = spinning
