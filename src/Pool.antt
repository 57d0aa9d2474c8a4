-- ===== src/Pool.antt =====
-- release/Pool.cpp: channels of indices, each a free list in a shared segment, and the pool that
-- chains them.
-- The operating system is a parameter: `stat` gives shm_nattch of a key before the attach. A
-- segment is named by its key. `junk` gives what the member `key` of a new Channel holds: the
-- constructor never sets it.
pub mod FreeList
pub mod Chain
pub mod Apart
pub mod Get
pub mod Release
pub mod Grow
pub mod Start
pub mod Shared
pub mod Gets
pub mod Reuse
pub mod RoundTrip
mod Tests
use make_the_american_great.Prelude.{
  ℕ, zero, suc, ◌+◌, ◌-◌, List, [], ◌∷◌, u32, sub32, lt_int, ltb, ◌==◌, if◌then◌else◌, Mem, update,
}
use make_the_american_great.Run.{Run, done, fault, spinning, bind}

abbrev pub pool_shm_key : ℕ
pool_shm_key = 0x3f3f3f3f

abbrev pub meta_filed_size : ℕ
meta_filed_size = 2

abbrev pub channel_size : ℕ
channel_size = 4096 - meta_filed_size

abbrev pub next_channel_index : ℕ
next_channel_index = channel_size + 1

-- The cells of a channel's segment.
abbrev pub cells : ℕ
cells = channel_size + meta_filed_size

-- The shared segments by key.
abbrev pub Shm : Type 0
Shm = ℕ → Mem

-- A Channel: the segment it is attached to, and its member `key`.
pub record Channel : Type 0 where
  pub segment : ℕ
  pub key : ℕ

-- for (i = …; …; ++i) address[i] = i + 1, with `count` rounds left.
unfoldable pub fill : ℕ → ℕ → Mem → Mem
fill zero i address = address
fill (suc count) i address = fill count (i + 1) (update address i (i + 1))

-- The global initialisation of a new segment.
unfoldable pub init_cells : Mem → Mem
init_cells address =
    update (update (fill (channel_size + 1) 0 address) channel_size 0) next_channel_index 0

-- The constructor: the new channel, and behind it those that its segment leads to.
unfoldable pub open_channel : (stat junk : ℕ → ℕ) → ℕ → Shm → ℕ → Run (Shm × List Channel)
open_channel stat junk zero shm k = spinning
open_channel stat junk (suc fuel) shm k =
    let next = open_channel stat junk fuel shm (shm k next_channel_index) in
    let channel : Channel = record { segment = k; key = junk k } in
    if stat k == 0
    then done (update shm k (init_cells (shm k)), channel ∷ [])
    else if shm k next_channel_index == 0
    then done (shm, channel ∷ [])
    else bind next (λ r. done (r.0, channel ∷ r.1))

-- The constructor of Pool.
unfoldable pub new_pool : (stat junk : ℕ → ℕ) → ℕ → Shm → Run (Shm × List Channel)
new_pool stat junk fuel shm = open_channel stat junk fuel shm pool_shm_key

-- Channel::get. An index that is no cell of the segment is an access out of range.
unfoldable pub channel_get : ℕ → Mem → Run (ℕ × Mem)
channel_get zero address = spinning
channel_get (suc fuel) address =
    let retry = channel_get fuel address in
    let ret : ℕ = address 0 in
    if ltb ret cells
    then (if address 0 == ret then done (ret, update address 0 (address ret)) else retry)
    else fault

-- Channel::release.
unfoldable pub channel_release : ℕ → Mem → ℕ → Run Mem
channel_release zero address index = spinning
channel_release (suc fuel) address index =
    let retry = channel_release fuel (update address index (address 0)) index in
    let old_next : ℕ = address 0 in
    if ltb index cells
    then (if update address index old_next 0 == old_next
        then done (update (update address index old_next) 0 index)
        else retry)
    else fault

-- allocNextChannel: the new channels, and the key written into the segment of `c`.
unfoldable pub alloc_next_channel :
    (stat junk : ℕ → ℕ) → ℕ → Shm → Channel → Run (Shm × List Channel)
alloc_next_channel stat junk fuel shm c =
    bind (open_channel stat junk fuel shm (u32 (c.key + 1))) (λ r.
      done
        (update r.0 c.segment (update (r.0 c.segment) next_channel_index (u32 (c.key + 1))), r.1))

-- One round of the loop of Pool::get at channel `c`, with the rest of the loop. The result is the
-- index, the segments, and the chain from `c` on.
unfoldable pub try_channel :
    Shm
    → ℕ
    → Channel
    → List Channel
    → (Shm → Run (ℕ × Shm × List Channel))
    → Run (ℕ × Shm × List Channel)
try_channel shm prefix c rest go_on = bind (channel_get 1 (shm c.segment)) (λ r.
    let shm' : Shm = update shm c.segment r.1 in
    if ltb 0 r.0
    then done (u32 (prefix + r.0), shm', c ∷ rest)
    else bind (go_on shm') (λ t. done (t.0, t.1, c ∷ t.2)))

-- The loop of Pool::get along the chain, which grows by at most `fuel` allocations.
unfoldable pub get_from :
    (stat junk : ℕ → ℕ) → ℕ → Shm → ℕ → List Channel → Run (ℕ × Shm × List Channel)
get_from stat junk fuel shm prefix [] = fault
get_from stat junk zero shm prefix (c ∷ []) = try_channel shm prefix c [] (λ shm'. spinning)
get_from stat junk (suc fuel) shm prefix (c ∷ []) = try_channel shm prefix c [] (λ shm'.
    bind (alloc_next_channel stat junk (suc fuel) shm' c)
      (λ r. get_from stat junk fuel r.0 (u32 (prefix + channel_size)) r.1))
get_from stat junk fuel shm prefix (c ∷ d ∷ ds) =
    try_channel shm prefix c (d ∷ ds)
      (λ shm'. get_from stat junk fuel shm' (u32 (prefix + channel_size)) (d ∷ ds))

-- Pool::get, which is pool_get.
unfoldable pub pool_get :
    (stat junk : ℕ → ℕ) → ℕ → Shm → List Channel → Run (ℕ × Shm × List Channel)
pool_get stat junk fuel shm chain = get_from stat junk fuel shm 0 chain

-- Pool::release, which is pool_release. The walk past the last channel is a null pointer.
unfoldable pub pool_release : Shm → List Channel → ℕ → Run Shm
pool_release shm [] index = fault
pool_release shm (c ∷ cs) index =
    let later = pool_release shm cs (sub32 index channel_size) in
    if lt_int channel_size index
    then later
    else bind (channel_release 1 (shm c.segment) index) (λ m. done (update shm c.segment m))
