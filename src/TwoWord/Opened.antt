-- ===== src/TwoWord/Opened.antt =====
-- The rings that testConnection of workspace/io.cpp opens.
use mathlib.Core.Path.{subst}
use make_the_american_great.Prelude.{
  ℕ, ◌<◌, ◌≡◌, ◌≢◌, refl, update_ne, ne→==-false, ap, ◌∙◌, sym, true, ◌==◌, arith, inl, inr, ◌⊎◌,
  Bool-cases,
}
use make_the_american_great.Connections.{map_key}
use make_the_american_great.Index.{shared_keys}
use make_the_american_great.TwoWord.Demo.{
  Segments, private_name, new_segment, attach_ring, open_ring, open_link,
}

-- The ring has been emptied.
abbrev pub IsEmptied : ℕ → Segments → Type 0
IsEmptied key s = ((s.words key).head ≡ 0) × ((s.words key).tail ≡ 0)

-- Attaching any segment leaves a ring emptied that is, and attaching one that nothing is attached
-- to empties it.
attach_ring-keeps :
    (key key' : ℕ) (s : Segments) → IsEmptied key s → IsEmptied key (attach_ring key' s)
unfolding attach_ring
attach_ring-keeps key key' s e = ground (arith, e.0, e.1)

attach_ring-empties :
    (key : ℕ) (s : Segments) → s.attached key ≡ 0 → IsEmptied key (attach_ring key s)
unfolding attach_ring
attach_ring-empties key s e = ground (arith, e)

equal : (a b : ℕ) → (a == b) ≡ true → a ≡ b
equal a b h = ground arith

-- The ring with this key is emptied, or still nothing is attached to it.
abbrev IsNew : ℕ → Segments → Type 0
IsNew key s = IsEmptied key s ⊎ (s.attached key ≡ 0)

attach_ring-IsNew :
    (key key' : ℕ) (s : Segments) → s.attached key ≡ 0 → IsNew key (attach_ring key' s)
unfolding attach_ring
attach_ring-IsNew key key' s e = elim (Bool-cases (key == key')) [
  | inl same ↦ inl (
      subst (λ k. IsEmptied k (attach_ring key' s)) (sym (equal key key' same))
        (attach_ring-empties key' s (ap s.attached (sym (equal key key' same)) ∙ e)))
  | inr other ↦ inr (rw other e)
]

open_ring-keeps :
    (key key' : ℕ) (s : Segments) → IsEmptied key s → IsEmptied key (open_ring key' s).1
unfolding open_ring new_segment
open_ring-keeps key key' s e = elim (Bool-cases (key' == 0)) [
  | inl own ↦ rw own (attach_ring-keeps key (private_name s) (new_segment s) (unchanged e))
  | inr named ↦ rw named (attach_ring-keeps key key' s e)
]
  where
    unchanged : IsEmptied key s → IsEmptied key (new_segment s)
    unchanged e = e

open_ring-IsNew :
    (key key' : ℕ) (s : Segments)
    → key < shared_keys
    → s.attached key ≡ 0
    → IsNew key (open_ring key' s).1
unfolding open_ring new_segment
open_ring-IsNew key key' s shared e = elim (Bool-cases (key' == 0)) [
  | inl own ↦ rw own (attach_ring-IsNew key (private_name s) (new_segment s) unattached)
  | inr named ↦ rw named (attach_ring-IsNew key key' s e)
]
  where
    unattached : (new_segment s).attached key ≡ 0
    unattached = update_ne s.attached (private_name s) 0 key (λ z. omega (arith, shared, z)) ∙ e

open_ring-known : (key : ℕ) (s : Segments) → key ≢ 0 → open_ring key s ≡ (key, attach_ring key s)
unfolding open_ring new_segment
open_ring-known key s ne = rw (ne→==-false key 0 ne) refl

-- What the two connections of testConnection share: the ring that the first writes and the second
-- reads, which is emptied.
pub opened :
    (src dst : ℕ) (s : Segments)
    → map_key dst src ≢ 0
    → s.attached (map_key dst src) ≡ 0
    → let key = map_key dst src in
      let c = open_link src dst s in
      let c_reverse = open_link dst src c.1 in
      (c.0.write_rb ≡ key) × (c_reverse.0.read_rb ≡ key) × IsEmptied key c_reverse.1
unfolding open_link
opened src dst s ne e =
    let key : ℕ = map_key dst src in
    let other : ℕ = map_key src dst in
    let r : ℕ × Segments = open_ring other s in
    let known : (u : Segments) → open_ring key u ≡ (key, attach_ring key u) =
      λ u. open_ring-known key u ne in
    let once : IsEmptied key (open_ring key r.1).1 =
      elim (open_ring-IsNew key other s (omega arith) e) [
        | inl z ↦ open_ring-keeps key key r.1 z
        | inr z ↦ subst (λ q. IsEmptied key q.1) (sym (known r.1)) (attach_ring-empties key r.1 z)
      ] in
    let u : Segments = (open_ring key r.1).1 in
    (
      ap (λ q. q.0) (known r.1),
      ap (λ q. q.0) (known u),
      open_ring-keeps key other (open_ring key u).1 (open_ring-keeps key key u once),
    )
